-- ===== src/ListBook/Tests.antt =====
-- Calls that rest, cross, cancel and trade at the market.
use low_level_programming.Shared.{
  ℕ, ◌≡◌, refl, none, some, List, [], ◌∷◌, arith, ok, ◌==◌, if◌then◌else◌,
}
use low_level_programming.VectorBook as Vector
use low_level_programming.VectorBook.{Order, VectorBook}
use low_level_programming.ListBook.{
  Side, ListBook, new, buy_greater, sell_greater, remove, top_of_book, insert_buy_order,
  insert_sell_order, cancel_buy_order, cancel_sell_order, market_sell_order, match, match_loop,
  market_loop, insert_block, seek, link_before, link_last, unlink, reduce, remove_filled,
  delete_block, cancel_block,
}
use low_level_programming.ListBook.Chain.{Entry, orders}
use low_level_programming.ListBook.Sides.{IsSide}
use low_level_programming.ListBook.Leave.{remove-IsSide}
use low_level_programming.ListBook.Priority.{Sorted}
use low_level_programming.ListBook.Run.{
  Call, insert_buy, insert_sell, cancel_buy, cancel_sell, market_sell, call_list, run_list,
  run_vector, books_agree, run_list-Ordered,
}

abbrev order : (price size : ℕ) → Order
order price size = record { id = 0; price = price; size = size }

abbrev calls : List Call
calls =
    insert_buy (order 5 10)
    ∷ insert_buy (order 6 4)
    ∷ insert_sell (order 6 1)
    ∷ insert_buy (order 5 2)
    ∷ cancel_buy 2
    ∷ market_sell (order 0 4)
    ∷ cancel_sell 9
    ∷ []

calls_output : (l : ListBook) × (run_list 8 calls new ≡ ok (2 ∷ 3 ∷ 4 ∷ 5 ∷ 2 ∷ 5 ∷ 0 ∷ [], l))
unfolding run_list call_list new insert_buy_order insert_sell_order cancel_buy_order
    cancel_sell_order market_sell_order match match_loop market_loop insert_block seek link_before
    link_last unlink remove reduce remove_filled delete_block cancel_block buy_greater sell_greater
calls_output = (_, refl)

books_agree_example :
    (rs : List ℕ) × (l : ListBook) × (v : VectorBook) × (run_list 8 calls new ≡ ok (rs, l))
    × (run_vector calls Vector.new ≡ ok (rs, v))
    × (top_of_book l ≡ ok (Vector.top_of_book v))
books_agree_example = books_agree 8 calls (omega arith) (omega arith)

run_list-Ordered_example :
    (rs : List ℕ) × (l : ListBook) × (buys sells : List Entry) × (run_list 8 calls new ≡ ok (rs, l))
    × IsSide l.buy buys
    × IsSide l.sell sells
    × Sorted buy_greater (orders buys)
    × Sorted sell_greater (orders sells)
run_list-Ordered_example = run_list-Ordered 8 calls (omega arith) (omega arith)

abbrev one_order : Entry
one_order = record { ptr = 0; order = record { id = 7; price = 5; size = 3 } }

abbrev one_side : Side
one_side = record {
  blocks = λ p.
      if 0 == p then some (record { order = one_order.order; next = none; prev = none }) else none;
  fresh = 1;
  head = some 0;
  tail = some 0;
  index = λ id. if 7 == id then some 0 else none;
}

one_side-IsSide : IsSide one_side (one_order ∷ [])
one_side-IsSide = record {
  linked = record {
    head = refl;
    tail = refl;
    chain = (refl, refl, tt);
    below = λ q h. ground arith;
  };
  index = λ id. refl;
  distinct = (refl, tt);
}

remove-IsSide_example : (s' : Side) × (remove (some 0) one_side ≡ ok s') × IsSide s' []
remove-IsSide_example = remove-IsSide one_side [] one_order [] one_side-IsSide
