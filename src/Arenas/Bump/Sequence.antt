-- ===== src/Arenas/Bump/Sequence.antt =====
-- The blocks that calls of `alloc_malloc` give out.
use low_level_programming.Shared.{
  ℕ, ◌+◌, ◌%◌, ◌^◌, ◌<◌, ◌≤◌, ◌≡◌, ◌⊎◌, refl, List, [], ◌∷◌, arith, inl, inr,
}
use low_level_programming.Arenas.Bump.{Bump, mallocs, IsBump, alloc_malloc-Given}

-- The blocks that are not null follow one another from `from` to `to`.
abbrev pub Follow : (from to : ℕ) → (sizes ps : List ℕ) → Type 0
Follow from to [] [] = from ≤ to
Follow from to (size ∷ sizes) (p ∷ ps) =
    ((p ≡ 0) × Follow from to sizes ps)
    ⊎ ((from ≤ p) × (p % 16 ≡ 0) × Follow (p + size) to sizes ps)
Follow from to _ _ = ⊥

abbrev pub Small : List ℕ → Type 0
Small [] = Unit
Small (size ∷ sizes) = (size + 15 < 2 ^ 64) × Small sizes

Follow-lower :
    (from from' to : ℕ) (sizes ps : List ℕ)
    → from' ≤ from
    → Follow from to sizes ps
    → Follow from' to sizes ps
Follow-lower from from' to [] [] le f = omega arith
Follow-lower from from' to [] (p ∷ ps) le f = f
Follow-lower from from' to (size ∷ sizes) [] le f = f
Follow-lower from from' to (size ∷ sizes) (p ∷ ps) le f = elim f [
  | inl null ↦ inl (null.0, Follow-lower from from' to sizes ps le null.1)
  | inr given ↦ inr (omega (arith, given.0), given.1, given.2)
]

mallocs_from :
    (sizes : List ℕ) (a : Bump)
    → IsBump a
    → Small sizes
    → (ps : List ℕ) × (a' : Bump) × (mallocs sizes a ≡ (ps, a'))
      × Follow a.ptr (a.buffer + a.buff_size) sizes ps
unfolding mallocs
mallocs_from [] a v small = ([], a, refl, v.high)
mallocs_from (size ∷ sizes) a v small = elim (alloc_malloc-Given size a v small.0) [
  | inl given ↦
      let (a', run, v', g) = given in
      let (ps, a'', runs, follow) = mallocs_from sizes a' v' small.1 in
      let same : a'.buffer + a'.buff_size ≡ a.buffer + a.buff_size =
        omega (arith, g.buffer, g.buff_size) in
      (
        a.ptr ∷ ps,
        a'',
        rw (run, runs) refl,
        inr (
          omega arith,
          g.aligned,
          Follow-lower a'.ptr (a.ptr + size) (a.buffer + a.buff_size) sizes ps g.fits
              (rw same at follow),
        ),
      )
  | inr none_left ↦
      let (ps, a'', runs, follow) = mallocs_from sizes a v small.1 in
      (0 ∷ ps, a'', rw (none_left.0, runs) refl, inl (refl, follow))
]

-- From an allocator with a 16-aligned buffer below 2^64, calls of alloc_malloc with sizes that are
-- at least 15 below 2^64 each return null or a 16-aligned block of that size in the buffer, and
-- each block starts at or after the end of the one before.
pub mallocs-Follow :
    (sizes : List ℕ) (a : Bump)
    → IsBump a
    → Small sizes
    → (ps : List ℕ) × (a' : Bump) × (mallocs sizes a ≡ (ps, a'))
      × Follow a.buffer (a.buffer + a.buff_size) sizes ps
mallocs-Follow sizes a v small =
    let (ps, a', run, follow) = mallocs_from sizes a v small in
    (ps, a', run, Follow-lower a.ptr a.buffer (a.buffer + a.buff_size) sizes ps v.low follow)
