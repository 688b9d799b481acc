-- ===== src/Engine/Sides/Change.antt =====
-- The counters and the best indices when an order is resized, leaves or joins the book.
use low_level_programming.Shared.{
  ℕ, ◌+◌, ◌-◌, ◌<◌, ◌≡◌, inl, inr, true, false, List, ◌∷◌, ◌++◌, arith, ◌==◌, if◌then◌else◌,
  Bool-cases, update, ==→eq,
}
use native.Mathlib.Decide.{dec_lt}
use low_level_programming.Engine.OrderList.Chain.{Entry}
use low_level_programming.Engine.Memory.{Book}
use low_level_programming.Engine.Sides.{IsSides}
use low_level_programming.Engine.Sides.Count.{
  is_buy, buys, sells, buys-append, sells-append, total-update, total-congr, le-total,
}
use low_level_programming.Engine.Sides.Rescan.{BeforeSellScan, BeforeBuyScan}

module _ {size bo so bb bs : ℕ} {book : Book} (v : IsSides size bo so bb bs book) where
  pub IsSides-same :
      (book' : Book)
      → ((i : ℕ) → buys (book' i) ≡ buys (book i))
      → ((i : ℕ) → sells (book' i) ≡ sells (book i))
      → IsSides size bo so bb bs book'
  IsSides-same book' b s = record {
    buy_count = omega (arith, v.buy_count, total-congr buys size book' book b);
    sell_count = omega (arith, v.sell_count, total-congr sells size book' book s);
    buy_top = λ i h k. omega (arith, b i, v.buy_top i h k);
    sell_top = λ i h. omega (arith, s i, v.sell_top i h);
    buy_best = λ h. omega (arith, b bb, v.buy_best h);
    sell_best = λ h. omega (arith, s bs, v.sell_best h);
    no_buy = v.no_buy;
    no_sell = v.no_sell;
    sell_in = v.sell_in;
    buy_in = v.buy_in;
    uncrossed = v.uncrossed;
  }

  -- At the best sell level there are sell orders alone, and so on the other side.
  pub best_sell_pure : 0 < so → buys (book bs) ≡ 0
  best_sell_pure some_sell = elim (dec_lt 0 bo) [
    | yes some_buy ↦ v.buy_top bs (v.uncrossed some_buy some_sell) (v.sell_in some_sell)
    | no none_buy ↦ omega (arith, le-total buys size bs book (v.sell_in some_sell), v.buy_count)
  ]

  pub best_buy_pure : 0 < bo → sells (book bb) ≡ 0
  best_buy_pure some_buy = elim (dec_lt 0 so) [
    | yes some_sell ↦ v.sell_top bb (v.uncrossed some_buy some_sell)
    | no none_sell ↦ omega (arith, le-total sells size bb book v.buy_in, v.sell_count)
  ]

  module _ (i : ℕ) (xs : List Entry) (y : Entry) (ys : List Entry) (in_range : i < size)
      (at_i : book i ≡ xs ++ y ∷ ys) where
    buys_at : buys (book i) ≡ buys xs + ((if is_buy y then 1 else 0) + buys ys)
    buys_at = rw at_i (buys-append xs (y ∷ ys))

    sells_at : sells (book i) ≡ sells xs + ((if is_buy y then 0 else 1) + sells ys)
    sells_at = rw at_i (sells-append xs (y ∷ ys))

    abbrev Left : Book
    Left = update book i (xs ++ ys)

    buys-left :
        (j : ℕ)
        → buys (Left j) + (if i == j then (if is_buy y then 1 else 0) else 0) ≡ buys (book j)
    buys-left j = elim (Bool-cases (i == j)) [
      | inl here ↦ rw (here, ← ==→eq i j here) (omega (arith, buys_at, buys-append xs ys))
      | inr there ↦ rw there (omega arith)
    ]

    sells-left :
        (j : ℕ)
        → sells (Left j) + (if i == j then (if is_buy y then 0 else 1) else 0) ≡ sells (book j)
    sells-left j = elim (Bool-cases (i == j)) [
      | inl here ↦ rw (here, ← ==→eq i j here) (omega (arith, sells_at, sells-append xs ys))
      | inr there ↦ rw there (omega arith)
    ]

    pub remove_sell : is_buy y ≡ false → (0 < so) × BeforeSellScan size bo (so - 1) bb bs Left
    remove_sell sell =
        let at = sells_at in
        let at' : sells (book i) ≡ sells xs + (1 + sells ys) = ground arith in
        let some_sell : 0 < so = omega (arith, le-total sells size i book in_range, v.sell_count) in
        let same_buys : (j : ℕ) → buys (Left j) ≡ buys (book j) =
          λ j. ground (arith, buys-left j) in
        (
          some_sell,
          record {
            buy_count = omega (arith, v.buy_count, total-congr buys size Left book same_buys);
            sell_count = omega (
              arith,
              v.sell_count,
              total-update sells size i book (xs ++ ys) in_range,
              sells-append xs ys,
            );
            buy_top = λ j h k. omega (arith, same_buys j, v.buy_top j h k);
            sell_top = λ j h. omega (arith, sells-left j, v.sell_top j h);
            buy_best = λ h. omega (arith, same_buys bb, v.buy_best h);
            no_buy = v.no_buy;
            buy_in = v.buy_in;
            sell_in = omega (arith, v.sell_in some_sell);
            apart = λ h. v.uncrossed h some_sell;
          },
        )

    pub remove_buy : is_buy y ≡ true → (0 < bo) × BeforeBuyScan size (bo - 1) so bb bs Left
    remove_buy buy =
        let at = buys_at in
        let at' : buys (book i) ≡ buys xs + (1 + buys ys) = ground arith in
        let some_buy : 0 < bo = omega (arith, le-total buys size i book in_range, v.buy_count) in
        let same_sells : (j : ℕ) → sells (Left j) ≡ sells (book j) =
          λ j. ground (arith, sells-left j) in
        (
          some_buy,
          record {
            buy_count = omega (
              arith,
              v.buy_count,
              total-update buys size i book (xs ++ ys) in_range,
              buys-append xs ys,
            );
            sell_count = omega (arith, v.sell_count, total-congr sells size Left book same_sells);
            buy_top = λ j h k. omega (arith, buys-left j, v.buy_top j h k);
            sell_top = λ j h. omega (arith, same_sells j, v.sell_top j h);
            sell_best = λ h. omega (arith, same_sells bs, v.sell_best h);
            no_sell = v.no_sell;
            sell_in = v.sell_in;
            buy_in = v.buy_in;
            apart = λ h. v.uncrossed some_buy h;
          },
        )
