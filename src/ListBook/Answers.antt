-- ===== src/ListBook/Answers.antt =====
-- Each call of the two books, on books that hold the same.
use low_level_programming.Shared.{
  ℕ, ◌+◌, ◌<◌, ◌^◌, ◌≡◌, refl, sym, subst, ◌∙◌, ap, Bool, List, [], ◌∷◌, arith, Bool-cases, inl,
  inr, length, ok,
}
use low_level_programming.VectorBook as Vector
use low_level_programming.VectorBook.{Order, VectorBook}
use low_level_programming.ListBook.{
  ListBook, buy_greater, sell_greater, insert_buy_order, insert_sell_order, cancel_buy_order,
  cancel_sell_order,
}
use low_level_programming.ListBook.Chain.{Entry}
use low_level_programming.ListBook.Priority.{buy-IsPriority, sell-IsPriority}
use low_level_programming.ListBook.Agree.{Agrees-raise, vector, length-vector, insert_block-Agrees}
use low_level_programming.ListBook.Erase.{nowhere, among, lookup, find_erase-missing, cancel_found}
use low_level_programming.ListBook.Calls.{
  vector_book, Same, size, Answers, Answers-weaken, insert_buy_run, insert_sell_run,
}

length-place :
    (less : Order → Order → Bool) (o : Order) (xs : List Order)
    → length (Vector.place less o xs) ≡ length xs + 1
length-place less o [] = refl
length-place less o (x ∷ xs) = elim (Bool-cases (less x o)) [
  | inl past ↦ rw past (omega (arith, length-place less o xs))
  | inr here ↦ rw here (omega arith)
]

-- a vector after an insertion
length_placed :
    (less : Order → Order → Bool) (o : Order) (xs xs' : List Entry)
    → Vector.place less o (vector xs) ≡ vector xs'
    → length xs' ≡ length xs + 1
length_placed less o xs xs' at =
    sym (length-vector xs')
    ∙ ap length (sym at)
    ∙ length-place less o (vector xs)
    ∙ ap (λ n. n + 1) (length-vector xs)

pub insert_buy_order-Same :
    (fuel : ℕ) (order : Order) (l : ListBook) (v : VectorBook) (s : Same l v)
    → l.counter + 1 < 2 ^ 64
    → size s + 1 < fuel
    → Answers
        (insert_buy_order fuel order l)
        (Vector.insert_buy_order order v)
        (l.counter + 1)
        (size s + 1)
insert_buy_order-Same fuel order l v s word enough =
    let o : Order = record order { id = l.counter + 1 } in
    let (buy₁, buys₁, run, a, at) =
      insert_block-Agrees buy-IsPriority l.counter fuel o l.buy s.buys s.buy refl (omega arith) in
    let one = length_placed Vector.buy_less o s.buys buys₁ at in
    let r =
      insert_buy_run fuel l.counter order l.buy buy₁ l.sell s.buys buys₁ s.sells word run at a
        (Agrees-raise (omega arith) s.sell) (omega arith) in
    subst
      (λ v.
        Answers (insert_buy_order fuel order l) (Vector.insert_buy_order order v) (l.counter + 1)
          (size s + 1))
      (sym s.view) (Answers-weaken (omega arith) (omega arith) r)

pub insert_sell_order-Same :
    (fuel : ℕ) (order : Order) (l : ListBook) (v : VectorBook) (s : Same l v)
    → l.counter + 1 < 2 ^ 64
    → size s + 1 < fuel
    → Answers
        (insert_sell_order fuel order l)
        (Vector.insert_sell_order order v)
        (l.counter + 1)
        (size s + 1)
insert_sell_order-Same fuel order l v s word enough =
    let o : Order = record order { id = l.counter + 1 } in
    let (sell₁, sells₁, run, a, at) =
      insert_block-Agrees sell-IsPriority l.counter fuel o l.sell s.sells s.sell refl
        (omega arith) in
    let one = length_placed Vector.sell_less o s.sells sells₁ at in
    let r =
      insert_sell_run fuel l.counter order l.buy l.sell sell₁ s.buys s.sells sells₁ word run at
        (Agrees-raise (omega arith) s.buy) a (omega arith) in
    subst
      (λ v.
        Answers (insert_sell_order fuel order l) (Vector.insert_sell_order order v) (l.counter + 1)
          (size s + 1))
      (sym s.view) (Answers-weaken (omega arith) (omega arith) r)

cancel_buy-vector :
    (id : ℕ) (l : ListBook) (v : VectorBook) (s : Same l v)
    → Answers
        (cancel_buy_order id l)
        (ok (Vector.cancel_buy_order id (vector_book l.counter s.buys s.sells)))
        l.counter
        (size s)
unfolding cancel_buy_order Vector.cancel_buy_order
cancel_buy-vector id l v s = elim (lookup id s.buys) [
  | nowhere h ↦ record {
    result = 0;
    l' = l;
    v' = vector_book l.counter s.buys s.sells;
    runs = simp (cancel_buy_order, s.buy.side.index id, h);
    runs' = rw (Vector.cancel_buy_order, find_erase-missing id s.buys h) refl;
    same = record { buys = s.buys; sells = s.sells; buy = s.buy; sell = s.sell; view = refl };
    counts = omega arith;
    fewer = omega arith;
  }
  | among gs y ls split is at ↦
      let (side, xs', run, gone, a, le) =
        cancel_found buy_greater l.counter id l.buy s.buys gs y ls s.buy split is in
      record {
        result = id;
        l' = record l { buy = side };
        v' = vector_book l.counter xs' s.sells;
        runs = simp (cancel_buy_order, s.buy.side.index id, at, run);
        runs' = rw (Vector.cancel_buy_order, gone) refl;
        same = record { buys = xs'; sells = s.sells; buy = a; sell = s.sell; view = refl };
        counts = omega arith;
        fewer = omega arith;
      }
]

cancel_sell-vector :
    (id : ℕ) (l : ListBook) (v : VectorBook) (s : Same l v)
    → Answers
        (cancel_sell_order id l)
        (ok (Vector.cancel_sell_order id (vector_book l.counter s.buys s.sells)))
        l.counter
        (size s)
unfolding cancel_sell_order Vector.cancel_sell_order
cancel_sell-vector id l v s = elim (lookup id s.sells) [
  | nowhere h ↦ record {
    result = 0;
    l' = l;
    v' = vector_book l.counter s.buys s.sells;
    runs = simp (cancel_sell_order, s.sell.side.index id, h);
    runs' = rw (Vector.cancel_sell_order, find_erase-missing id s.sells h) refl;
    same = record { buys = s.buys; sells = s.sells; buy = s.buy; sell = s.sell; view = refl };
    counts = omega arith;
    fewer = omega arith;
  }
  | among gs y ls split is at ↦
      let (side, xs', run, gone, a, le) =
        cancel_found sell_greater l.counter id l.sell s.sells gs y ls s.sell split is in
      record {
        result = id;
        l' = record l { sell = side };
        v' = vector_book l.counter s.buys xs';
        runs = simp (cancel_sell_order, s.sell.side.index id, at, run);
        runs' = rw (Vector.cancel_sell_order, gone) refl;
        same = record { buys = s.buys; sells = xs'; buy = s.buy; sell = a; view = refl };
        counts = omega arith;
        fewer = omega arith;
      }
]

pub cancel_buy_order-Same :
    (id : ℕ) (l : ListBook) (v : VectorBook) (s : Same l v)
    → Answers (cancel_buy_order id l) (ok (Vector.cancel_buy_order id v)) l.counter (size s)
cancel_buy_order-Same id l v s =
    subst
      (λ w. Answers (cancel_buy_order id l) (ok (Vector.cancel_buy_order id w)) l.counter (size s))
      (sym s.view) (cancel_buy-vector id l v s)

pub cancel_sell_order-Same :
    (id : ℕ) (l : ListBook) (v : VectorBook) (s : Same l v)
    → Answers (cancel_sell_order id l) (ok (Vector.cancel_sell_order id v)) l.counter (size s)
cancel_sell_order-Same id l v s =
    subst
      (λ w.
        Answers (cancel_sell_order id l) (ok (Vector.cancel_sell_order id w)) l.counter (size s))
      (sym s.view) (cancel_sell-vector id l v s)
