-- ===== src/Engine/Sides/Add.antt =====
-- The counters and the best indices when an order that does not cross joins the book.
use low_level_programming.Shared.{
  ℕ, ◌+◌, ◌<◌, ◌≡◌, inl, inr, true, false, [], ◌∷◌, ◌++◌, arith, ltb, ◌==◌, if◌then◌else◌,
  Bool-cases, update, ==→eq,
}
use low_level_programming.Engine.OrderList.Chain.{Entry}
use low_level_programming.Engine.Memory.{Book}
use low_level_programming.Engine.Sides.{IsSides}
use low_level_programming.Engine.Sides.Count.{
  is_buy, buys, sells, buys-append, sells-append, total-update, total-congr,
}

module _ {size bo so bb bs : ℕ} {book : Book} (v : IsSides size bo so bb bs book) (i : ℕ)
    (z : Entry) (in_range : i < size) where
  abbrev Joined : Book
  Joined = update book i (book i ++ z ∷ [])

  buys-joined :
      (j : ℕ)
      → buys (Joined j) ≡ buys (book j) + (if i == j then (if is_buy z then 1 else 0) else 0)
  buys-joined j = elim (Bool-cases (i == j)) [
    | inl here ↦ rw (here, ← ==→eq i j here) (omega (arith, buys-append (book i) (z ∷ [])))
    | inr there ↦ rw there (omega arith)
  ]

  sells-joined :
      (j : ℕ)
      → sells (Joined j) ≡ sells (book j) + (if i == j then (if is_buy z then 0 else 1) else 0)
  sells-joined j = elim (Bool-cases (i == j)) [
    | inl here ↦ rw (here, ← ==→eq i j here) (omega (arith, sells-append (book i) (z ∷ [])))
    | inr there ↦ rw there (omega arith)
  ]

  -- A bid below the best ask.
  pub add_buy :
      is_buy z ≡ true
      → (0 < so → i < bs)
      → IsSides size (bo + 1) so (if ltb bb i then i else bb) bs Joined
  add_buy buy below =
      let same_sells : (j : ℕ) → sells (Joined j) ≡ sells (book j) =
        λ j. ground (arith, sells-joined j) in
      record {
        buy_count = omega (
          arith,
          v.buy_count,
          total-update buys size i book (book i ++ z ∷ []) in_range,
          ground_sum,
        );
        sell_count = omega (arith, v.sell_count, total-congr sells size Joined book same_sells);
        buy_top = λ j h k. ground (arith, buys-joined j, v.buy_top j);
        sell_top = λ j h. omega (arith, same_sells j, v.sell_top j h);
        buy_best = λ h. elim (Bool-cases (ltb bb i)) [
          | inl up ↦ rw up (ground (arith, buys-joined i))
          | inr stay ↦ rw stay (ground (arith, buys-joined bb, v.buy_best, v.no_buy))
        ];
        sell_best = λ h. omega (arith, same_sells bs, v.sell_best h);
        no_buy = λ h. absurd (omega arith);
        no_sell = v.no_sell;
        sell_in = v.sell_in;
        buy_in = ground (arith, v.buy_in);
        uncrossed = λ h k. ground (arith, below k, v.uncrossed, v.no_buy);
      }
    where
      ground_sum : buys (book i ++ z ∷ []) ≡ buys (book i) + 1
      ground_sum = ground (arith, buys-append (book i) (z ∷ []))

  -- An ask above the best bid.
  pub add_sell :
      is_buy z ≡ false
      → (0 < bo → bb < i)
      → IsSides size bo (so + 1) bb (if ltb i bs then i else bs) Joined
  add_sell sell above =
      let same_buys : (j : ℕ) → buys (Joined j) ≡ buys (book j) =
        λ j. ground (arith, buys-joined j) in
      record {
        buy_count = omega (arith, v.buy_count, total-congr buys size Joined book same_buys);
        sell_count = omega (
          arith,
          v.sell_count,
          total-update sells size i book (book i ++ z ∷ []) in_range,
          ground_sum,
        );
        buy_top = λ j h k. omega (arith, same_buys j, v.buy_top j h k);
        sell_top = λ j h. ground (arith, sells-joined j, v.sell_top j);
        buy_best = λ h. omega (arith, same_buys bb, v.buy_best h);
        sell_best = λ h. elim (Bool-cases (ltb i bs)) [
          | inl down ↦ rw down (ground (arith, sells-joined i))
          | inr stay ↦ rw stay (ground (arith, sells-joined bs, v.sell_best, v.no_sell))
        ];
        no_buy = v.no_buy;
        no_sell = λ h. absurd (omega arith);
        sell_in = λ h. ground (arith, v.sell_in, v.no_sell);
        buy_in = v.buy_in;
        uncrossed = λ h k. ground (arith, above h, v.uncrossed, v.no_sell);
      }
    where
      ground_sum : sells (book i ++ z ∷ []) ≡ sells (book i) + 1
      ground_sum = ground (arith, sells-append (book i) (z ∷ []))
