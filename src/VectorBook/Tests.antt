-- ===== src/VectorBook/Tests.antt =====
-- A book with a bid and an ask that do not meet.
use low_level_programming.Shared.{
  ◌⊎◌, ℕ, ◌+◌, ◌≤◌, ◌≡◌, refl, arith, Bool, true, none, List, [], ◌∷◌, add64, ok,
}
use low_level_programming.VectorBook.{
  Order, VectorBook, back, match_loop, match, insert_buy_order, insert_sell_order, market_loop,
}
use low_level_programming.VectorBook.Back.{shares}
use low_level_programming.VectorBook.Match.{Uncrossed, match-Matched}
use low_level_programming.VectorBook.Orders.{inserts-Uncrossed, market_loop-shares}

abbrev two : VectorBook
two = record {
  buy_book = record { id = 2; price = 3; size = 5 } ∷ [];
  sell_book = record { id = 3; price = 7; size = 4 } ∷ [];
  counter = 3;
}

abbrev crossing : VectorBook
crossing = record two { sell_book = record { id = 3; price = 2; size = 4 } ∷ [] }

crossing_output :
    match crossing
    ≡ ok (
      true,
      record {
        buy_book = record { id = 2; price = 3; size = 1 } ∷ [];
        sell_book = [];
        counter = 3;
      },
    )
unfolding match match_loop
crossing_output = refl

match-Matched_example :
    (buys : List Order) × (sells : List Order) × (res : Bool) × (filled : ℕ) × (match crossing
      ≡ ok (res, record crossing { buy_book = buys; sell_book = sells }))
    × Uncrossed (back buys) (back sells)
    × (shares buys + filled ≡ shares crossing.buy_book)
    × (shares sells + filled ≡ shares crossing.sell_book)
match-Matched_example = match-Matched crossing

abbrev bid : Order
bid = record { id = 0; price = 8; size = 6 }

inserts-Uncrossed_example :
    ((v' : VectorBook) × (filled : ℕ) × (insert_buy_order bid two ≡ ok (add64 two.counter 1, v'))
      × (v'.counter ≡ add64 two.counter 1)
      × Uncrossed (back v'.buy_book) (back v'.sell_book)
      × (shares v'.buy_book + filled ≡ shares two.buy_book + 6)
      × (shares v'.sell_book + filled ≡ shares two.sell_book))
    × ((v' : VectorBook) × (filled : ℕ) × (insert_sell_order bid two ≡ ok (add64 two.counter 1, v'))
        × (v'.counter ≡ add64 two.counter 1)
        × Uncrossed (back v'.buy_book) (back v'.sell_book)
        × (shares v'.buy_book + filled ≡ shares two.buy_book)
        × (shares v'.sell_book + filled ≡ shares two.sell_book + 6))
inserts-Uncrossed_example = inserts-Uncrossed bid two

market_loop-shares_example :
    (id : ℕ) × (xs' : List Order) × (taken : ℕ) × (market_loop 3 6 0 two.sell_book ≡ ok (id, xs'))
    × (shares xs' + taken ≡ shares two.sell_book)
    × (taken ≤ 6)
    × ((taken ≡ 6) ⊎ (back xs' ≡ none))
market_loop-shares_example = market_loop-shares 3 6 0 two.sell_book (omega arith)
