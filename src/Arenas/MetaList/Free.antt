-- ===== src/Arenas/MetaList/Free.antt =====
-- `alloc_free` on the blocks of a list.
use low_level_programming.Shared.{
  ◌⊎◌, ℕ, zero, suc, ◌+◌, ◌-◌, ◌*◌, ◌/◌, ◌%◌, ◌^◌, ◌<◌, ◌≤◌, ◌≡◌, ◌≢◌, refl, sym, ap, subst, ◌∙◌,
  true, false, ◌||◌, List, [], ◌∷◌, ◌++◌, ◌==◌, ltb, leb, add64, sub64, update, arith, tests,
  Bool-cases, inl, inr, length, ==-refl,
}
use low_level_programming.Arenas.MetaList.{MetaList, refuses, alloc_free}
use low_level_programming.Arenas.MetaList.Layout.{Entry, total, Entries-ends}
use low_level_programming.Arenas.MetaList.Invariant.{IsMeta, Entries-middle, flagged-IsMeta}
use native.Mathlib.Nat.{mod-eq_of_lt}

pub alloc_free-IsMeta :
    (a : MetaList) (xs : List Entry) (x : Entry) (ys : List Entry)
    → IsMeta a (xs ++ x ∷ ys)
    → total xs + 16 < a.size
    → a.meta_last_ptr + 16 < 2 ^ 64
    → ((x.allocated ≡ 0) × (alloc_free (a.data_start_ptr + total xs + 16) a ≡ (1, a)))
      ⊎ ((x.allocated ≢ 0)
          × (a' : MetaList) × (alloc_free (a.data_start_ptr + total xs + 16) a ≡ (0, a'))
          × IsMeta a' (xs ++ record x { allocated = 0 } ∷ ys))
unfolding alloc_free
alloc_free-IsMeta a xs x ys v inside small =
    let mapped = v.mapped in
    let high = v.high in
    let word = v.word in
    let word_data = v.word_data in
    let (flag, payload, back, in_meta, in_data) =
      Entries-middle a.memory a.meta_start_ptr a.data_start_ptr a.meta_last_ptr v.data_end xs x ys
        v.entries in
    let p = a.data_start_ptr + total xs + 16 in
    let h = a.meta_start_ptr + 24 * length xs in
    let there : (a.meta_start_ptr == 0) ≡ false = ground arith in
    let low : add64 a.data_start_ptr 16 ≡ a.data_start_ptr + 16 = mod-eq_of_lt (omega arith) in
    let end : add64 a.data_start_ptr a.size ≡ a.data_start_ptr + a.size = mod-eq_of_lt word_data in
    let in_range : (ltb p (a.data_start_ptr + 16) || leb (a.data_start_ptr + a.size) p) ≡ false =
      ground arith in
    let back_at : sub64 p 8 ≡ a.data_start_ptr + total xs + 8 = omega arith in
    let h₁₆ : add64 h 16 ≡ h + 16 = mod-eq_of_lt (omega arith) in
    let h₈ : add64 h 8 ≡ h + 8 = mod-eq_of_lt (omega arith) in
    let above : ltb h a.meta_start_ptr ≡ false = ground arith in
    let below : leb a.meta_last_ptr h ≡ false = ground arith in
    let step : (sub64 h a.meta_start_ptr % 24 == 0) ≡ true = ground arith in
    elim (Bool-cases (x.allocated == 0)) [
      | inl free ↦ inl (
        omega tests,
        rw
            (
              there,
              low,
              end,
              in_range,
              back_at,
              back,
              above,
              below,
              step,
              h₁₆,
              payload,
              ==-refl p,
              h₈,
              flag,
              free,
            )
            refl,
      )
      | inr used ↦ inr (
        omega tests,
        record a { memory = update a.memory (h + 8) 0 },
        rw
            (
              there,
              low,
              end,
              in_range,
              back_at,
              back,
              above,
              below,
              step,
              h₁₆,
              payload,
              ==-refl p,
              h₈,
              flag,
              used,
            )
            refl,
        flagged-IsMeta a xs x ys 0 v,
      )
    ]

nth-split :
    (es : List Entry) (k : ℕ)
    → k < length es
    → (xs : List Entry) × (x : Entry) × (ys : List Entry) × (es ≡ xs ++ x ∷ ys) × (length xs ≡ k)
nth-split [] k lt = absurd (omega arith)
nth-split (x ∷ es) zero lt = ([], x, es, refl, refl)
nth-split (x ∷ es) (suc k) lt =
    let (xs, y, ys, split, len) = nth-split es k (omega arith) in
    (x ∷ xs, y, ys, ap (λ t. x ∷ t) split, omega arith)

-- the tests that a header has passed
passed :
    (h p : ℕ) (a : MetaList)
    → refuses h p a ≡ false
    → (a.meta_start_ptr ≤ h)
      × (h < a.meta_last_ptr)
      × (sub64 h a.meta_start_ptr % 24 ≡ 0)
      × (a.memory (add64 h 16) ≡ p)
      × (a.memory (add64 h 8) ≢ 0)
passed h p a e =
    (ground (arith, e), ground (arith, e), ground (arith, e), ground (arith, e), ground (arith, e))

-- On such an allocator, with 16 bytes past the last entry still below 2^64, alloc_free returns 0
-- only for the address of the payload of an allocated block of the list.
pub alloc_free-accepts :
    (a : MetaList) (es : List Entry) (p : ℕ) (a' : MetaList)
    → IsMeta a es
    → a.meta_last_ptr + 16 < 2 ^ 64
    → alloc_free p a ≡ (0, a')
    → (xs : List Entry) × (x : Entry) × (ys : List Entry) × (es ≡ xs ++ x ∷ ys)
      × (p ≡ a.data_start_ptr + total xs + 16)
      × (x.allocated ≢ 0)
unfolding alloc_free
alloc_free-accepts a es p a' v small run =
    let no : (b : MetaList) → Path (ℕ × MetaList) (1, b) (0, a') → ⊥ =
      λ b e. let one : ◌≡◌ {A = ℕ} 1 0 = ap (λ t. t.0) e in omega arith in
    elim (Bool-cases (a.meta_start_ptr == 0)) [
      | inl t ↦ absurd (no a (rw t at run))
      | inr t ↦
          elim (Bool-cases
            (ltb p (add64 a.data_start_ptr 16) || leb (add64 a.data_start_ptr a.size) p)) [
              | inl r ↦ absurd (no a (rw (t, r) at run))
              | inr r ↦ elim (Bool-cases (refuses (a.memory (sub64 p 8)) p a)) [
                | inl f ↦ absurd (no a (rw (t, r, f) at run))
                | inr f ↦
                    let h = a.memory (sub64 p 8) in
                    let (above, below, step, payload, used) = passed h p a f in
                    let word = v.word in
                    let high = v.high in
                    let (meta, data_) =
                      Entries-ends a.memory a.meta_start_ptr a.data_start_ptr a.meta_last_ptr
                        v.data_end es v.entries in
                    let k = (h - a.meta_start_ptr) / 24 in
                    let back : sub64 h a.meta_start_ptr ≡ h - a.meta_start_ptr = omega arith in
                    let place : h ≡ a.meta_start_ptr + 24 * k = omega arith in
                    let (xs, x, ys, split, len) = nth-split es k (omega arith) in
                    let w : IsMeta a (xs ++ x ∷ ys) = subst (IsMeta a) split v in
                    let (flag, paid, back', in_meta, in_data) =
                      Entries-middle a.memory a.meta_start_ptr a.data_start_ptr a.meta_last_ptr
                        w.data_end xs x ys w.entries in
                    let at : h ≡ a.meta_start_ptr + 24 * length xs = omega arith in
                    let h₁₆ : add64 h 16 ≡ a.meta_start_ptr + 24 * length xs + 16 =
                      mod-eq_of_lt (omega arith) ∙ ap (λ t. t + 16) at in
                    let h₈ : add64 h 8 ≡ a.meta_start_ptr + 24 * length xs + 8 =
                      mod-eq_of_lt (omega arith) ∙ ap (λ t. t + 8) at in
                    (
                      xs,
                      x,
                      ys,
                      split,
                      sym payload ∙ ap a.memory h₁₆ ∙ paid,
                      λ z. used (ap a.memory h₈ ∙ flag ∙ z),
                    )
              ]
            ]
    ]
