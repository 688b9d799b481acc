-- ===== src/ListBook/Run.antt =====
-- Any calls of the interface `OrderBook` of base.hpp, to the list book and to the sorted vector book.
use low_level_programming.Shared.{
  Bool, ℕ, ◌+◌, ◌<◌, ◌^◌, ◌≡◌, refl, List, [], ◌∷◌, arith, length, Outcome, ok, ◌>>=◌,
}
use low_level_programming.VectorBook as Vector
use low_level_programming.VectorBook.{Order, VectorBook}
use low_level_programming.ListBook.{
  ListBook, new, new_side, buy_greater, sell_greater, insert_buy_order, insert_sell_order,
  cancel_buy_order, cancel_sell_order, market_buy_order, market_sell_order, top_of_book,
}
use low_level_programming.ListBook.Chain.{Entry, orders}
use low_level_programming.ListBook.Sides.{IsSide}
use low_level_programming.ListBook.Priority.{Sorted}
use low_level_programming.ListBook.Agree.{Agrees}
use low_level_programming.ListBook.Calls.{Same, size, Answers, Answers-weaken}
use low_level_programming.ListBook.Answers.{
  insert_buy_order-Same, insert_sell_order-Same, cancel_buy_order-Same, cancel_sell_order-Same,
}
use low_level_programming.ListBook.Market.{
  market_buy_order-Same, market_sell_order-Same, top_of_book-Same,
}

-- the methods of `OrderBook` that change a book
pub data Call : Type 0 where
  insert_buy : Order → Call
  insert_sell : Order → Call
  cancel_buy : ℕ → Call
  cancel_sell : ℕ → Call
  market_buy : Order → Call
  market_sell : Order → Call

unfoldable pub call_list : ℕ → Call → ListBook → Outcome (ℕ × ListBook)
call_list fuel (insert_buy o) l = insert_buy_order fuel o l
call_list fuel (insert_sell o) l = insert_sell_order fuel o l
call_list fuel (cancel_buy id) l = cancel_buy_order id l
call_list fuel (cancel_sell id) l = cancel_sell_order id l
call_list fuel (market_buy o) l = market_buy_order fuel o l
call_list fuel (market_sell o) l = market_sell_order fuel o l

unfoldable pub call_vector : Call → VectorBook → Outcome (ℕ × VectorBook)
call_vector (insert_buy o) v = Vector.insert_buy_order o v
call_vector (insert_sell o) v = Vector.insert_sell_order o v
call_vector (cancel_buy id) v = ok (Vector.cancel_buy_order id v)
call_vector (cancel_sell id) v = ok (Vector.cancel_sell_order id v)
call_vector (market_buy o) v = Vector.market_buy_order o v
call_vector (market_sell o) v = Vector.market_sell_order o v

-- the calls one after the other, with what they return
unfoldable pub run_list : ℕ → List Call → ListBook → Outcome (List ℕ × ListBook)
run_list fuel [] l = ok ([], l)
run_list fuel (c ∷ cs) l = do
  (r, l₁) ← call_list fuel c l
  (rs, l₂) ← run_list fuel cs l₁
  ok (r ∷ rs, l₂)

unfoldable pub run_vector : List Call → VectorBook → Outcome (List ℕ × VectorBook)
run_vector [] v = ok ([], v)
run_vector (c ∷ cs) v = do (r, v₁) ← call_vector c v; (rs, v₂) ← run_vector cs v₁; ok (r ∷ rs, v₂)

pub call-Same :
    (fuel : ℕ) (c : Call) (l : ListBook) (v : VectorBook) (s : Same l v)
    → l.counter + 1 < 2 ^ 64
    → size s + 1 < fuel
    → Answers (call_list fuel c l) (call_vector c v) (l.counter + 1) (size s + 1)
unfolding call_list call_vector
call-Same fuel (insert_buy o) l v s word enough = insert_buy_order-Same fuel o l v s word enough
call-Same fuel (insert_sell o) l v s word enough = insert_sell_order-Same fuel o l v s word enough
call-Same fuel (cancel_buy id) l v s word enough =
    Answers-weaken (omega arith) (omega arith) (cancel_buy_order-Same id l v s)
call-Same fuel (cancel_sell id) l v s word enough =
    Answers-weaken (omega arith) (omega arith) (cancel_sell_order-Same id l v s)
call-Same fuel (market_buy o) l v s word enough = market_buy_order-Same fuel o l v s word enough
call-Same fuel (market_sell o) l v s word enough = market_sell_order-Same fuel o l v s word enough

run-Same :
    (fuel : ℕ) (cs : List Call) (l : ListBook) (v : VectorBook) (s : Same l v)
    → l.counter + length cs < 2 ^ 64
    → size s + length cs < fuel
    → (rs : List ℕ) × (l' : ListBook) × (v' : VectorBook) × (run_list fuel cs l ≡ ok (rs, l'))
      × (run_vector cs v ≡ ok (rs, v'))
      × Same l' v'
unfolding run_list run_vector
run-Same fuel [] l v s word enough = ([], l, v, refl, refl, s)
run-Same fuel (c ∷ cs) l v s word enough =
    let a = call-Same fuel c l v s (omega arith) (omega arith) in
    let (rs, l', v', runs, runs', same) =
      run-Same fuel cs a.l' a.v' a.same (omega (arith, a.counts)) (omega (arith, a.fewer)) in
    (a.result ∷ rs, l', v', rw (a.runs, runs) refl, rw (a.runs', runs') refl, same)

new_side-Agrees : (greater : Order → Order → Bool) (c : ℕ) → Agrees greater c new_side []
new_side-Agrees greater c = record {
  side = record {
    linked = record { head = refl; tail = refl; chain = tt; below = λ q h. absurd (ground arith) };
    index = λ id. refl;
    distinct = tt;
  };
  sorted = tt;
  ids = tt;
}

new-Same : (s : Same new Vector.new) × (size s ≡ 0)
unfolding new Vector.new
new-Same = (
  record {
    buys = [];
    sells = [];
    buy = new_side-Agrees buy_greater 1;
    sell = new_side-Agrees sell_greater 1;
    view = refl;
  },
  refl,
)

-- From new books, any calls of the methods that insert, cancel and trade at the market, fewer than
-- 2^64 - 1 and than the fuel, run on the list book with no fault and no loop out of fuel, run on
-- the sorted vector book as well, return the same identifiers from both, and leave the same best
-- orders at the top of both.
pub books_agree :
    (fuel : ℕ) (cs : List Call)
    → 1 + length cs < 2 ^ 64
    → length cs < fuel
    → (rs : List ℕ) × (l : ListBook) × (v : VectorBook) × (run_list fuel cs new ≡ ok (rs, l))
      × (run_vector cs Vector.new ≡ ok (rs, v))
      × (top_of_book l ≡ ok (Vector.top_of_book v))
unfolding new
books_agree fuel cs word enough =
    let (start, empty) = new-Same in
    let (rs, l, v, runs, runs', same) =
      run-Same fuel cs new Vector.new start (omega arith) (omega (arith, empty)) in
    (rs, l, v, runs, runs', top_of_book-Same l v same)

-- From a new list book, any calls, fewer than 2^64 - 1 and than the fuel, run with no fault and no
-- loop out of fuel to a book whose sides are doubly linked lists of distinct blocks and
-- identifiers, with an index that leads each identifier of the side, and no other, to its block,
-- and whose orders are sorted, the best first.
pub run_list-Ordered :
    (fuel : ℕ) (cs : List Call)
    → 1 + length cs < 2 ^ 64
    → length cs < fuel
    → (rs : List ℕ) × (l : ListBook) × (buys sells : List Entry) × (run_list fuel cs new
        ≡ ok (rs, l))
      × IsSide l.buy buys
      × IsSide l.sell sells
      × Sorted buy_greater (orders buys)
      × Sorted sell_greater (orders sells)
unfolding new
run_list-Ordered fuel cs word enough =
    let (start, empty) = new-Same in
    let (rs, l, v, runs, runs', same) =
      run-Same fuel cs new Vector.new start (omega arith) (omega (arith, empty)) in
    (
      rs, l, same.buys, same.sells, runs, same.buy.side, same.sell.side, same.buy.sorted,
      same.sell.sorted,
    )
