-- ===== src/VectorBook.antt =====
-- `OrderBook_SortedVector` of 4_order_book_proj/data_structure_bench/sorted_vector_str.cpp, with the
-- orders of base.hpp. A vector is the list of its elements, the best order last. `std::lower_bound`
-- with `insert` puts an order before the first one that is not less.
pub mod Back
pub mod Orders
pub mod Match
mod Tests
use low_level_programming.Shared.{
  ℕ, zero, suc, ◌+◌, ◌-◌, ◌^◌, min, Bool, true, false, ◌&&◌, Option, none, some, List, [], ◌∷◌,
  ◌==◌, ltb, leb, if◌then◌else◌, add64, sub64, Outcome, ok, stuck, ◌>>=◌, length,
}

-- `BuyOrder` and `SellOrder` have the same fields.
pub record Order : Type 0 where
  pub id : ℕ
  pub price : ℕ
  pub size : ℕ

-- `BuyOrder::operator<`
unfoldable pub buy_less : Order → Order → Bool
buy_less o o2 =
    if ltb o.price o2.price then true else if o.price == o2.price then ltb o2.id o.id else false

-- `SellOrder::operator<`
unfoldable pub sell_less : Order → Order → Bool
sell_less o o2 =
    if ltb o2.price o.price then true else if o.price == o2.price then ltb o2.id o.id else false

pub record VectorBook : Type 0 where
  pub buy_book : List Order
  pub sell_book : List Order
  pub counter : ℕ

unfoldable pub new : VectorBook
new = record { buy_book = []; sell_book = []; counter = 1 }

-- `back`, `pop_back`, and a change of the order that `back` refers to
abbrev pub back : List Order → Option Order
back [] = none
back (x ∷ []) = some x
back (x ∷ y ∷ ys) = back (y ∷ ys)

abbrev pub pop_back : List Order → List Order
pop_back [] = []
pop_back (x ∷ []) = []
pop_back (x ∷ y ∷ ys) = x ∷ pop_back (y ∷ ys)

abbrev pub set_back : List Order → ℕ → List Order
set_back [] size = []
set_back (x ∷ []) size = record x { size = size } ∷ []
set_back (x ∷ y ∷ ys) size = x ∷ set_back (y ∷ ys) size

-- `insert(lower_bound(begin, end, order), order)`
abbrev pub place : (less : Order → Order → Bool) → Order → List Order → List Order
place less order [] = order ∷ []
place less order (x ∷ xs) = if less x order then x ∷ place less order xs else order ∷ x ∷ xs

-- `size -= fill`, and `pop_back` if nothing is left
abbrev pub fill_back : List Order → Order → ℕ → List Order
fill_back xs o fill = if o.size - fill == 0 then pop_back xs else set_back xs (o.size - fill)

-- the loop of `match`, with what it returns
unfoldable pub match_loop :
    ℕ → (buy_book sell_book : List Order) → (res : Bool) → Outcome (List Order × List Order × Bool)
match_loop zero buy_book sell_book res = stuck
match_loop (suc fuel) buy_book sell_book res = elim (back buy_book) [
  | none ↦ ok (buy_book, sell_book, res)
  | some b ↦ elim (back sell_book) [
    | none ↦ ok (buy_book, sell_book, res)
    | some s ↦
        let fill = min b.size s.size in
        let more = match_loop fuel (fill_back buy_book b fill) (fill_back sell_book s fill) true in
        if leb s.price b.price then more else ok (buy_book, sell_book, res)
  ]
]

-- A round takes an order out, so that one more round than there are orders is enough.
unfoldable pub match : VectorBook → Outcome (Bool × VectorBook)
unfolding match_loop
match v = do
  (buys, sells, res) ←
      match_loop (length v.buy_book + length v.sell_book + 1) v.buy_book v.sell_book false
  ok (res, record v { buy_book = buys; sell_book = sells })

unfoldable pub insert_buy_order : Order → VectorBook → Outcome (ℕ × VectorBook)
unfolding match buy_less
insert_buy_order order v = do
  let id = add64 v.counter 1
  (_, v') ←
      match
        (record v { buy_book = place buy_less (record order { id = id }) v.buy_book; counter = id })
  ok (v'.counter, v')

unfoldable pub insert_sell_order : Order → VectorBook → Outcome (ℕ × VectorBook)
unfolding match sell_less
insert_sell_order order v = do
  let id = add64 v.counter 1
  (_, v') ← match (record v {
    sell_book = place sell_less (record order { id = id }) v.sell_book;
    counter = id;
  })
  ok (v'.counter, v')

-- `erase(find_if(…))` on the identifier; `none` when there is no such order
abbrev pub find_erase : ℕ → List Order → Option (List Order)
find_erase id [] = none
find_erase id (x ∷ xs) =
    if x.id == id
    then some xs
    else elim (find_erase id xs) [ none ↦ none | some rest ↦ some (x ∷ rest) ]

unfoldable pub cancel_buy_order : ℕ → VectorBook → ℕ × VectorBook
cancel_buy_order id v = elim (find_erase id v.buy_book) [
  | none ↦ (0, v)
  | some rest ↦ (id, record v { buy_book = rest })
]

unfoldable pub cancel_sell_order : ℕ → VectorBook → ℕ × VectorBook
cancel_sell_order id v = elim (find_erase id v.sell_book) [
  | none ↦ (0, v)
  | some rest ↦ (id, record v { sell_book = rest })
]

-- the loop of the market orders on the other side's book: the last order met, and the book
unfoldable pub market_loop : ℕ → (remaining last_id : ℕ) → List Order → Outcome (ℕ × List Order)
market_loop zero remaining last_id xs = stuck
market_loop (suc fuel) remaining last_id xs = elim (back xs) [
  | none ↦ ok (last_id, xs)
  | some best ↦
      let popped = market_loop fuel (remaining - best.size) best.id (pop_back xs) in
      let reduced = market_loop fuel 0 best.id (set_back xs (best.size - remaining)) in
      if ltb 0 remaining
      then (if leb best.size remaining then popped else reduced)
      else ok (last_id, xs)
]

-- A round takes an order out or ends the loop.
unfoldable pub market_buy_order : Order → VectorBook → Outcome (ℕ × VectorBook)
unfolding market_loop insert_buy_order
market_buy_order order v = do
  (last_id, sells) ← market_loop (length v.sell_book + 2) order.size 0 v.sell_book
  let v' = record v { sell_book = sells }
  if last_id == 0
      then insert_buy_order (record order { price = 2 ^ 64 - 1 }) v'
      else ok (last_id, v')

unfoldable pub market_sell_order : Order → VectorBook → Outcome (ℕ × VectorBook)
unfolding market_loop insert_sell_order
market_sell_order order v = do
  (last_id, buys) ← market_loop (length v.buy_book + 2) order.size 0 v.buy_book
  let v' = record v { buy_book = buys }
  if last_id == 0 then insert_sell_order (record order { price = 0 }) v' else ok (last_id, v')

unfoldable pub top_of_book : VectorBook → Order × Order
top_of_book v =
    let default : Order = record { id = 0; price = 0; size = 0 } in
    (
      elim (back v.buy_book) [ none ↦ default | some b ↦ b ],
      elim (back v.sell_book) [ none ↦ default | some s ↦ s ],
    )
