-- ===== src/ListBook/Market.antt =====
-- The market orders and the top of the two books.
use low_level_programming.Shared.{
  ℕ, ◌+◌, ◌-◌, ◌<◌, ◌^◌, ◌≡◌, refl, sym, subst, ap, Bool, none, some, List, [], ◌∷◌, arith,
  Bool-cases, inl, inr, ◌==◌, length, ok,
}
use low_level_programming.VectorBook as Vector
use low_level_programming.VectorBook.{Order, VectorBook}
use low_level_programming.ListBook.{
  Side, ListBook, buy_greater, sell_greater, market_buy_order, market_sell_order, top, top_of_book,
}
use low_level_programming.ListBook.Chain.{Entry}
use low_level_programming.ListBook.Leave.{head-load}
use low_level_programming.ListBook.Priority.{buy-IsPriority, sell-IsPriority}
use low_level_programming.ListBook.Agree.{Agrees, vector, length-vector, back-vector}
use low_level_programming.ListBook.Loops.Market.{market_loop-Same}
use low_level_programming.ListBook.Calls.{vector_book, Same, size, Answers}
use low_level_programming.ListBook.Answers.{insert_buy_order-Same, insert_sell_order-Same}

market_buy-vector :
    (fuel : ℕ) (order : Order) (l : ListBook) (v : VectorBook) (s : Same l v)
    → l.counter + 1 < 2 ^ 64
    → size s + 1 < fuel
    → Answers
        (market_buy_order fuel order l)
        (Vector.market_buy_order order (vector_book l.counter s.buys s.sells))
        (l.counter + 1)
        (size s + 1)
unfolding market_buy_order Vector.market_buy_order
market_buy-vector fuel order l v s word enough =
    let r =
      market_loop-Same sell-IsPriority l.counter fuel (length (vector s.sells) + 2) order.size 0
        l.sell s.sells s.sell (omega arith) (omega (arith, length-vector s.sells)) in
    let l' : ListBook = record l { sell = r.s' } in
    let v' : VectorBook = vector_book l.counter s.buys r.xs' in
    let s' : Same l' v' = record {
      buys = s.buys;
      sells = r.xs';
      buy = s.buy;
      sell = r.agrees;
      view = refl;
    } in
    let limit : Order = record order { price = 2 ^ 64 - 1 } in
    elim (Bool-cases (r.last_id == 0)) [
      | inl unmatched ↦
          let i = insert_buy_order-Same fuel limit l' v' s' word (omega (arith, r.shorter)) in
          record {
            result = i.result;
            l' = i.l';
            v' = i.v';
            runs = rw (market_buy_order, r.runs, unmatched) i.runs;
            runs' = rw (Vector.market_buy_order, r.runs', unmatched) i.runs';
            same = i.same;
            counts = i.counts;
            fewer = omega (arith, i.fewer, r.shorter);
          }
      | inr matched ↦ record {
        result = r.last_id;
        l' = l';
        v' = v';
        runs = rw (market_buy_order, r.runs, matched) refl;
        runs' = rw (Vector.market_buy_order, r.runs', matched) refl;
        same = s';
        counts = omega arith;
        fewer = omega (arith, r.shorter);
      }
    ]

market_sell-vector :
    (fuel : ℕ) (order : Order) (l : ListBook) (v : VectorBook) (s : Same l v)
    → l.counter + 1 < 2 ^ 64
    → size s + 1 < fuel
    → Answers
        (market_sell_order fuel order l)
        (Vector.market_sell_order order (vector_book l.counter s.buys s.sells))
        (l.counter + 1)
        (size s + 1)
unfolding market_sell_order Vector.market_sell_order
market_sell-vector fuel order l v s word enough =
    let r =
      market_loop-Same buy-IsPriority l.counter fuel (length (vector s.buys) + 2) order.size 0 l.buy
        s.buys s.buy (omega arith) (omega (arith, length-vector s.buys)) in
    let l' : ListBook = record l { buy = r.s' } in
    let v' : VectorBook = vector_book l.counter r.xs' s.sells in
    let s' : Same l' v' = record {
      buys = r.xs';
      sells = s.sells;
      buy = r.agrees;
      sell = s.sell;
      view = refl;
    } in
    let limit : Order = record order { price = 0 } in
    elim (Bool-cases (r.last_id == 0)) [
      | inl unmatched ↦
          let i = insert_sell_order-Same fuel limit l' v' s' word (omega (arith, r.shorter)) in
          record {
            result = i.result;
            l' = i.l';
            v' = i.v';
            runs = rw (market_sell_order, r.runs, unmatched) i.runs;
            runs' = rw (Vector.market_sell_order, r.runs', unmatched) i.runs';
            same = i.same;
            counts = i.counts;
            fewer = omega (arith, i.fewer, r.shorter);
          }
      | inr matched ↦ record {
        result = r.last_id;
        l' = l';
        v' = v';
        runs = rw (market_sell_order, r.runs, matched) refl;
        runs' = rw (Vector.market_sell_order, r.runs', matched) refl;
        same = s';
        counts = omega arith;
        fewer = omega (arith, r.shorter);
      }
    ]

pub market_buy_order-Same :
    (fuel : ℕ) (order : Order) (l : ListBook) (v : VectorBook) (s : Same l v)
    → l.counter + 1 < 2 ^ 64
    → size s + 1 < fuel
    → Answers
        (market_buy_order fuel order l)
        (Vector.market_buy_order order v)
        (l.counter + 1)
        (size s + 1)
market_buy_order-Same fuel order l v s word enough =
    subst
      (λ w.
        Answers (market_buy_order fuel order l) (Vector.market_buy_order order w) (l.counter + 1)
          (size s + 1))
      (sym s.view) (market_buy-vector fuel order l v s word enough)

pub market_sell_order-Same :
    (fuel : ℕ) (order : Order) (l : ListBook) (v : VectorBook) (s : Same l v)
    → l.counter + 1 < 2 ^ 64
    → size s + 1 < fuel
    → Answers
        (market_sell_order fuel order l)
        (Vector.market_sell_order order v)
        (l.counter + 1)
        (size s + 1)
market_sell_order-Same fuel order l v s word enough =
    subst
      (λ w.
        Answers (market_sell_order fuel order l) (Vector.market_sell_order order w) (l.counter + 1)
          (size s + 1))
      (sym s.view) (market_sell-vector fuel order l v s word enough)

abbrev best : List Order → Order
best xs = elim (Vector.back xs) [ none ↦ record { id = 0; price = 0; size = 0 } | some o ↦ o ]

best-vector : (x : Entry) (xs : List Entry) → best (vector (x ∷ xs)) ≡ x.order
best-vector x xs = rw (best, back-vector x xs) refl

top-best :
    (greater : Order → Order → Bool) (c : ℕ) (s : Side) (xs : List Entry)
    → Agrees greater c s xs
    → top s ≡ ok (best (vector xs))
unfolding top
top-best greater c s [] a = simp (top, a.side.linked.head)
top-best greater c s (x ∷ xs) a =
    simp (top, a.side.linked.head, head-load s x xs a.side) (ap ok (sym (best-vector x xs)))

pub top_of_book-Same :
    (l : ListBook) (v : VectorBook) → Same l v → top_of_book l ≡ ok (Vector.top_of_book v)
unfolding top_of_book Vector.top_of_book
top_of_book-Same l v s =
    subst (λ w. top_of_book l ≡ ok (Vector.top_of_book w)) (sym s.view)
      (rw
        (
          top-best buy_greater l.counter l.buy s.buys s.buy,
          top-best sell_greater l.counter l.sell s.sells s.sell,
        )
        refl)
