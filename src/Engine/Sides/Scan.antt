-- ===== src/Engine/Sides/Scan.antt =====
-- The two loops that look for the next level that is not empty.
use low_level_programming.Shared.{
  ℕ, zero, suc, ◌+◌, ◌-◌, ◌^◌, ◌<◌, ◌≤◌, ◌≡◌, inl, inr, true, false, arith, ltb, ◌==◌, is_none,
  Bool-cases, lt→ltb, tests, add64, sub64,
}
use low_level_programming.Engine.State.{Engine}
use low_level_programming.Engine.Match.{scan_up, scan_down}

abbrev Empty : Engine → ℕ → Type 0
Empty e i = is_none (e.order_buffer i).head ≡ true

-- The first level from `from` on, below `size`, that is not empty; `size` if there is none.
pub record FirstUp (size from : ℕ) (e : Engine) (j : ℕ) : Type 0 where
  pub low : from ≤ j
  pub high : j ≤ size
  pub empty_below : (i : ℕ) → from ≤ i → i < j → Empty e i
  pub found : j < size → is_none (e.order_buffer j).head ≡ false

-- With rounds for the levels that are left, the loop has ended by its test.
pub scan_up_lem :
    (size fuel : ℕ) (e : Engine) (idx : ℕ)
    → size < 2 ^ 64
    → 0 < e.sell_orders
    → idx ≤ size
    → size ≤ idx + fuel
    → FirstUp size idx e (scan_up size fuel e idx)
unfolding scan_up
scan_up_lem size zero e idx small some_sell le enough = record {
  low = omega arith;
  high = le;
  empty_below = λ i h k. absurd (omega arith);
  found = λ h. absurd (omega arith);
}
scan_up_lem size (suc fuel) e idx small some_sell le enough = elim (Bool-cases (ltb idx size)) [
  | inr out ↦
      rw (out, lt→ltb 0 e.sell_orders some_sell)
        (record {
          low = omega arith;
          high = le;
          empty_below = λ i h k. absurd (omega arith);
          found = λ h. absurd (omega tests);
        })
  | inl below ↦ elim (Bool-cases (is_none (e.order_buffer idx).head)) [
    | inr full ↦
        rw (below, lt→ltb 0 e.sell_orders some_sell, full)
          (record {
            low = omega arith;
            high = le;
            empty_below = λ i h k. absurd (omega arith);
            found = λ h. full;
          })
    | inl hollow ↦
        let next : add64 idx 1 ≡ idx + 1 = omega tests in
        let r : FirstUp size (idx + 1) e (scan_up size fuel e (idx + 1)) =
          scan_up_lem size fuel e (idx + 1) small some_sell (omega tests) (omega arith) in
        rw (below, lt→ltb 0 e.sell_orders some_sell, hollow, next)
          (record {
            low = omega (arith, r.low);
            high = r.high;
            empty_below = λ i h k. elim (Bool-cases (i == idx)) [
              | inl here ↦ ground arith
              | inr there ↦ r.empty_below i (omega tests) k
            ];
            found = r.found;
          })
  ]
]

-- The first level from `from` on downwards that is not empty; 0 is not looked at.
pub record FirstDown (from : ℕ) (e : Engine) (j : ℕ) : Type 0 where
  pub high : j ≤ from
  pub empty_above : (i : ℕ) → j < i → i ≤ from → Empty e i
  pub found : 0 < j → is_none (e.order_buffer j).head ≡ false

pub scan_down_lem :
    (fuel : ℕ) (e : Engine) (idx : ℕ)
    → idx < 2 ^ 64
    → 0 < e.buy_orders
    → idx ≤ fuel
    → FirstDown idx e (scan_down fuel e idx)
unfolding scan_down
scan_down_lem zero e idx small some_buy enough = record {
  high = omega arith;
  empty_above = λ i h k. absurd (omega arith);
  found = λ h. absurd (omega arith);
}
scan_down_lem (suc fuel) e idx small some_buy enough = elim (Bool-cases (ltb 0 idx)) [
  | inr out ↦
      rw (out, lt→ltb 0 e.buy_orders some_buy)
        (record {
          high = omega arith;
          empty_above = λ i h k. absurd (omega arith);
          found = λ h. absurd (omega tests);
        })
  | inl above ↦ elim (Bool-cases (is_none (e.order_buffer idx).head)) [
    | inr full ↦
        rw (above, lt→ltb 0 e.buy_orders some_buy, full)
          (record {
            high = omega arith;
            empty_above = λ i h k. absurd (omega arith);
            found = λ h. full;
          })
    | inl hollow ↦
        let next : sub64 idx 1 ≡ idx - 1 = omega tests in
        let r : FirstDown (idx - 1) e (scan_down fuel e (idx - 1)) =
          scan_down_lem fuel e (idx - 1) (omega arith) some_buy (omega tests) in
        rw (above, lt→ltb 0 e.buy_orders some_buy, hollow, next)
          (record {
            high = omega (arith, r.high);
            empty_above = λ i h k. elim (Bool-cases (i == idx)) [
              | inl here ↦ ground arith
              | inr there ↦ r.empty_above i h (omega tests)
            ];
            found = r.found;
          })
  ]
]
