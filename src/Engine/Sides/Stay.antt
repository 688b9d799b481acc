-- ===== src/Engine/Sides/Stay.antt =====
-- An order has left, and the best level of its side still holds one: the best index stays.
use low_level_programming.Shared.{
  ℕ, ◌<◌, ◌≡◌, inl, inr, List, ◌∷◌, ◌++◌, arith, ◌==◌, Bool-cases, update, ==→eq, length,
}
use low_level_programming.Engine.OrderList.Chain.{Entry}
use low_level_programming.Engine.Memory.{Book}
use low_level_programming.Engine.Sides.{IsSides}
use low_level_programming.Engine.Sides.Count.{
  buys, sells, le-total, buys-add-sells, buys-append, sells-append,
}
use low_level_programming.Engine.Sides.Change.{best_sell_pure, best_buy_pure}
use low_level_programming.Engine.Sides.Rescan.{BeforeSellScan, BeforeBuyScan}

module _ {size bo so bb bs : ℕ} {book : Book} where
  pub stay_sell :
      BeforeSellScan size bo so bb bs book
      → bs < size
      → 0 < sells (book bs)
      → IsSides size bo so bb bs book
  stay_sell w in_range held =
      let some_sell : 0 < so = omega (arith, w.sell_count, le-total sells size bs book in_range) in
      record {
        buy_count = w.buy_count;
        sell_count = w.sell_count;
        buy_top = w.buy_top;
        sell_top = w.sell_top;
        buy_best = w.buy_best;
        sell_best = λ _. held;
        no_buy = w.no_buy;
        no_sell = λ h. absurd (omega arith);
        sell_in = λ _. in_range;
        buy_in = w.buy_in;
        uncrossed = λ h _. w.apart h;
      }

  pub stay_buy :
      BeforeBuyScan size bo so bb bs book → 0 < buys (book bb) → IsSides size bo so bb bs book
  stay_buy w held =
      let some_buy : 0 < bo = omega (arith, w.buy_count, le-total buys size bb book w.buy_in) in
      record {
        buy_count = w.buy_count;
        sell_count = w.sell_count;
        buy_top = w.buy_top;
        sell_top = w.sell_top;
        buy_best = λ _. held;
        sell_best = w.sell_best;
        no_buy = λ h. absurd (omega arith);
        no_sell = w.no_sell;
        sell_in = w.sell_in;
        buy_in = w.buy_in;
        uncrossed = λ _ h. w.apart h;
      }

  -- The best level still holds an order of its side when it is another level, or is not empty.
  module _ (v : IsSides size bo so bb bs book) (i : ℕ) (xs : List Entry) (y : Entry)
      (ys : List Entry) (at_i : book i ≡ xs ++ y ∷ ys) where
    pub held_sell :
        0 < so → (i ≡ bs → 0 < length (xs ++ ys)) → 0 < sells (update book i (xs ++ ys) bs)
    held_sell some_sell full = elim (Bool-cases (i == bs)) [
      | inl here ↦
          let at_bs : book bs ≡ xs ++ y ∷ ys = rw (← ==→eq i bs here) at_i in
          let pure : buys (xs ++ y ∷ ys) ≡ 0 = rw at_bs at (best_sell_pure v some_sell) in
          rw here (
            omega (
              arith,
              pure,
              full (==→eq i bs here),
              buys-append xs (y ∷ ys),
              buys-append xs ys,
              buys-add-sells (xs ++ ys),
            ))
      | inr there ↦ rw there (v.sell_best some_sell)
    ]

    pub held_buy :
        0 < bo → (i ≡ bb → 0 < length (xs ++ ys)) → 0 < buys (update book i (xs ++ ys) bb)
    held_buy some_buy full = elim (Bool-cases (i == bb)) [
      | inl here ↦
          let at_bb : book bb ≡ xs ++ y ∷ ys = rw (← ==→eq i bb here) at_i in
          let pure : sells (xs ++ y ∷ ys) ≡ 0 = rw at_bb at (best_buy_pure v some_buy) in
          rw here (
            omega (
              arith,
              pure,
              full (==→eq i bb here),
              sells-append xs (y ∷ ys),
              sells-append xs ys,
              buys-add-sells (xs ++ ys),
            ))
      | inr there ↦ rw there (v.buy_best some_buy)
    ]
