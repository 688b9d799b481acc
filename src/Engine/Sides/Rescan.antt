-- ===== src/Engine/Sides/Rescan.antt =====
-- The best index of a side after an order of that side has left the book.
use low_level_programming.Shared.{
  ℕ, ◌^◌, ◌<◌, ◌≤◌, ◌≡◌, refl, inl, inr, true, false, none, List, [], ◌∷◌, arith, ◌==◌, is_none,
  Bool-cases, tests, length,
}
use native.Mathlib.Decide.{dec_lt}
use low_level_programming.Engine.State.{Engine, Heap}
use low_level_programming.Engine.OrderList.Chain.{Entry, first, IsLevel}
use low_level_programming.Engine.Memory.{Book}
use low_level_programming.Engine.Match.{scan_up, scan_down, next_best_sell, next_best_buy}
use low_level_programming.Engine.Sides.{IsSides}
use low_level_programming.Engine.Sides.Count.{
  buys, sells, total, le-total, total-pos, buys-add-sells,
}
use low_level_programming.Engine.Sides.Scan.{FirstUp, FirstDown, scan_up_lem, scan_down_lem}

-- what still holds when the best sell order may be gone
pub record BeforeSellScan (size bo so best_buy best_sell : ℕ) (book : Book) : Type 0 where
  pub buy_count : bo ≡ total buys size book
  pub sell_count : so ≡ total sells size book
  pub buy_top : (i : ℕ) → best_buy < i → i < size → buys (book i) ≡ 0
  pub sell_top : (i : ℕ) → i < best_sell → sells (book i) ≡ 0
  pub buy_best : 0 < bo → 0 < buys (book best_buy)
  pub no_buy : bo ≡ 0 → best_buy ≡ 0
  pub buy_in : best_buy < size
  pub sell_in : best_sell ≤ size
  pub apart : 0 < bo → best_buy < best_sell

pub record BeforeBuyScan (size bo so best_buy best_sell : ℕ) (book : Book) : Type 0 where
  pub buy_count : bo ≡ total buys size book
  pub sell_count : so ≡ total sells size book
  pub buy_top : (i : ℕ) → best_buy < i → i < size → buys (book i) ≡ 0
  pub sell_top : (i : ℕ) → i < best_sell → sells (book i) ≡ 0
  pub sell_best : 0 < so → 0 < sells (book best_sell)
  pub no_sell : so ≡ 0 → best_sell ≡ size
  pub sell_in : 0 < so → best_sell < size
  pub buy_in : best_buy < size
  pub apart : 0 < so → best_buy < best_sell

empty_of_none :
    (m : Heap) (e : Engine) (book : Book) (i : ℕ)
    → IsLevel m (e.order_buffer i) (book i)
    → is_none (e.order_buffer i).head ≡ true
    → book i ≡ []
empty_of_none m e book i v h = go (book i) (rw (← v.head) h)
  where
    go : (xs : List Entry) → is_none (first none xs) ≡ true → xs ≡ []
    go [] k = refl
    go (x ∷ xs) k = cc

pos_of_some :
    (m : Heap) (e : Engine) (book : Book) (i : ℕ)
    → IsLevel m (e.order_buffer i) (book i)
    → is_none (e.order_buffer i).head ≡ false
    → 0 < length (book i)
pos_of_some m e book i v h = go (book i) (rw (← v.head) h)
  where
    go : (xs : List Entry) → is_none (first none xs) ≡ false → 0 < length xs
    go [] k = cc
    go (x ∷ xs) k = omega arith

module _ (size : ℕ) (small : size < 2 ^ 64) (m : Heap) (e : Engine) (book : Book)
    (links : (i : ℕ) → IsLevel m (e.order_buffer i) (book i)) where
  abbrev Sides : ℕ → ℕ → Type 0
  Sides best_buy best_sell = IsSides size e.buy_orders e.sell_orders best_buy best_sell book

  -- The index that the scan finds is below `size`, and its level holds a sell order.
  sell_found :
      (j : ℕ)
      → BeforeSellScan size e.buy_orders e.sell_orders e.best_buy_idx e.best_sell_idx book
      → 0 < e.sell_orders
      → FirstUp size e.best_sell_idx e j
      → (j < size) × (0 < sells (book j))
  sell_found j w some_sell r =
      let (i, lt, pos) = total-pos sells size book (omega (arith, w.sell_count)) in
      let j_le : j ≤ i = elim (dec_lt i j) [
        | yes early ↦ elim (dec_lt i e.best_sell_idx) [
          | yes low ↦ absurd (omega (arith, w.sell_top i low))
          | no high ↦
              let hollow =
                empty_of_none m e book i (links i) (r.empty_below i (omega arith) early) in
              absurd (ground arith)
        ]
        | no late ↦ omega arith
      ] in
      let j_in : j < size = omega arith in
      let no_buys : buys (book j) ≡ 0 = elim (dec_lt 0 e.buy_orders) [
        | yes some_buy ↦ w.buy_top j (omega (arith, w.apart some_buy, r.low)) j_in
        | no none_buy ↦ omega (arith, le-total buys size j book j_in, w.buy_count)
      ] in
      (
        j_in,
        omega (
          arith,
          no_buys,
          buys-add-sells (book j),
          pos_of_some m e book j (links j) (r.found j_in),
        ),
      )

  pub rescan_sell :
      BeforeSellScan size e.buy_orders e.sell_orders e.best_buy_idx e.best_sell_idx book
      → Sides e.best_buy_idx (next_best_sell size e).best_sell_idx
  unfolding next_best_sell
  rescan_sell w = elim (Bool-cases (e.sell_orders == 0)) [
    | inl gone ↦ rw gone (record {
      buy_count = w.buy_count;
      sell_count = w.sell_count;
      buy_top = w.buy_top;
      sell_top = λ i h. omega (tests, le-total sells size i book h, w.sell_count);
      buy_best = w.buy_best;
      sell_best = λ h. absurd (omega tests);
      no_buy = w.no_buy;
      no_sell = λ h. refl;
      sell_in = λ h. absurd (omega tests);
      buy_in = w.buy_in;
      uncrossed = λ h k. absurd (omega tests);
    })
    | inr some_sell ↦
        let j = scan_up size size e e.best_sell_idx in
        let r =
          scan_up_lem size size e e.best_sell_idx small (omega tests) w.sell_in (omega arith) in
        let (j_in, j_sells) = sell_found j w (omega tests) r in
        rw some_sell (record {
          buy_count = w.buy_count;
          sell_count = w.sell_count;
          buy_top = w.buy_top;
          sell_top = λ i h. elim (dec_lt i e.best_sell_idx) [
            | yes low ↦ w.sell_top i low
            | no high ↦
                let hollow = empty_of_none m e book i (links i) (r.empty_below i (omega arith) h) in
                ground arith
          ];
          buy_best = w.buy_best;
          sell_best = λ h. j_sells;
          no_buy = w.no_buy;
          no_sell = λ h. absurd (omega tests);
          sell_in = λ h. j_in;
          buy_in = w.buy_in;
          uncrossed = λ h k. omega (arith, w.apart h, r.low);
        })
  ]

  -- The index that the scan downwards finds holds a buy order, at level 0 too.
  buy_found :
      (j : ℕ)
      → BeforeBuyScan size e.buy_orders e.sell_orders e.best_buy_idx e.best_sell_idx book
      → 0 < e.buy_orders
      → FirstDown e.best_buy_idx e j
      → 0 < buys (book j)
  buy_found j w some_buy r =
      let (i, lt, pos) = total-pos buys size book (omega (arith, w.buy_count)) in
      let le_j : i ≤ j = elim (dec_lt j i) [
        | yes late ↦ elim (dec_lt e.best_buy_idx i) [
          | yes high ↦ absurd (omega (arith, w.buy_top i high lt))
          | no low ↦
              let hollow =
                empty_of_none m e book i (links i) (r.empty_above i late (omega arith)) in
              absurd (ground arith)
        ]
        | no early ↦ omega arith
      ] in
      elim (dec_lt 0 j) [
        | no at_zero ↦ ground arith
        | yes above ↦
            let no_sells : sells (book j) ≡ 0 = elim (dec_lt 0 e.sell_orders) [
              | yes some_sell ↦ w.sell_top j (omega (arith, w.apart some_sell, r.high))
              | no none_sell ↦ omega (
                arith,
                le-total sells size j book (omega (arith, w.buy_in, r.high)),
                w.sell_count,
              )
            ] in
            omega (
              arith,
              no_sells,
              buys-add-sells (book j),
              pos_of_some m e book j (links j) (r.found above),
            )
      ]

  pub rescan_buy :
      BeforeBuyScan size e.buy_orders e.sell_orders e.best_buy_idx e.best_sell_idx book
      → Sides (next_best_buy e).best_buy_idx e.best_sell_idx
  unfolding next_best_buy
  rescan_buy w = elim (Bool-cases (e.buy_orders == 0)) [
    | inl gone ↦ rw gone (record {
      buy_count = w.buy_count;
      sell_count = w.sell_count;
      buy_top = λ i h k. omega (tests, le-total buys size i book k, w.buy_count);
      sell_top = w.sell_top;
      buy_best = λ h. absurd (omega tests);
      sell_best = w.sell_best;
      no_buy = λ h. refl;
      no_sell = w.no_sell;
      sell_in = w.sell_in;
      buy_in = omega (arith, w.buy_in);
      uncrossed = λ h k. absurd (omega tests);
    })
    | inr some_buy ↦
        let j = scan_down e.best_buy_idx e e.best_buy_idx in
        let r =
          scan_down_lem e.best_buy_idx e e.best_buy_idx (omega (arith, w.buy_in)) (omega tests)
            (omega arith) in
        let j_buys = buy_found j w (omega tests) r in
        rw some_buy (record {
          buy_count = w.buy_count;
          sell_count = w.sell_count;
          buy_top = λ i h k. elim (dec_lt e.best_buy_idx i) [
            | yes high ↦ w.buy_top i high k
            | no low ↦
                let hollow = empty_of_none m e book i (links i) (r.empty_above i h (omega arith)) in
                ground arith
          ];
          sell_top = w.sell_top;
          buy_best = λ h. j_buys;
          sell_best = w.sell_best;
          no_buy = λ h. absurd (omega tests);
          no_sell = w.no_sell;
          sell_in = w.sell_in;
          buy_in = omega (arith, w.buy_in, r.high);
          uncrossed = λ h k. omega (arith, w.apart k, r.high);
        })
  ]
