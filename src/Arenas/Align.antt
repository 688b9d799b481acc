-- ===== src/Arenas/Align.antt =====
-- `(size % ALIGN == 0) ? size : size + (ALIGN - (size % ALIGN))`, which the allocators share.
use low_level_programming.Shared.{
  ℕ, ◌+◌, ◌-◌, ◌%◌, ◌^◌, ◌<◌, ◌≤◌, ◌≡◌, ◌==◌, if◌then◌else◌, add64, arith, tests, Bool-cases, inl,
  inr,
}
use native.Mathlib.Nat.{mod-eq_of_lt}

-- `ALIGN`
abbrev pub alignment : ℕ
alignment = 16

unfoldable pub align_up : ℕ → ℕ
align_up size = if size % alignment == 0 then size else add64 size (alignment - size % alignment)

-- The size is rounded up to the next multiple of 16.
pub align_up-small :
    (size : ℕ)
    → size + 15 < 2 ^ 64
    → (size ≤ align_up size) × (align_up size < size + 16) × (align_up size % 16 ≡ 0)
unfolding align_up
align_up-small size small = elim (Bool-cases (size % 16 == 0)) [
  | inl whole ↦ rw whole (omega arith, omega arith, omega tests)
  | inr part ↦
      let e : add64 size (16 - size % 16) ≡ size + (16 - size % 16) = mod-eq_of_lt (omega tests) in
      rw (part, e) (omega arith, omega tests, omega tests)
]

-- A size of the last 15 words comes out as 0.
pub align_up-large : (size : ℕ) → 2 ^ 64 < size + 16 → size < 2 ^ 64 → align_up size ≡ 0
unfolding align_up
align_up-large size large word = ground arith
