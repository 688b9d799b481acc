-- ===== src/Arenas/MetaList/Malloc.antt =====
-- `alloc_malloc` on the blocks of a list.
use low_level_programming.Shared.{
  ◌⊎◌, ℕ, ◌+◌, ◌-◌, ◌*◌, ◌/◌, ◌^◌, ◌<◌, ◌≤◌, ◌≡◌, subst, false, List, [], ◌∷◌, ◌++◌, ◌==◌, ltb,
  add64, update, All, arith, tests, Bool-cases, inl, inr, length, Outcome, ok,
}
use low_level_programming.Arenas.Align.{align_up, align_up-small}
use low_level_programming.Arenas.MetaList.{
  MetaList, add_entry, take_entry, append_block, malloc_mapped, alloc_malloc,
}
use low_level_programming.Arenas.MetaList.Layout.{
  Entry, total, Entries-ends, Misfit, search_entry-Search,
}
use native.Mathlib.Nat.{mod-eq_of_lt}
use low_level_programming.Arenas.MetaList.Invariant.{
  IsMeta, Entries-middle, flagged-IsMeta, next_block-end, added-IsMeta,
}

-- What `alloc_malloc` does: it takes the first free block that is large enough; with none it adds
-- one at the end; with no room for the block or its entry it returns null.
pub data Malloc (size : ℕ) (a : MetaList) (es : List Entry) : Outcome (ℕ × MetaList) → Type 0 where
  reused :
      (xs : List Entry) (x : Entry) (ys : List Entry) (a' : MetaList)
      → es ≡ xs ++ x ∷ ys
      → All (Misfit size) xs
      → x.allocated ≡ 0
      → size ≤ x.bytes
      → IsMeta a' (xs ++ record x { allocated = 1 } ∷ ys)
      → Malloc size a es (ok (a.data_start_ptr + total xs + 16, a'))
  grown :
      (a' : MetaList)
      → All (Misfit size) es
      → IsMeta a' (es ++ record { bytes = size; allocated = 1 } ∷ [])
      → Malloc size a es (ok (a.data_start_ptr + total es + 16, a'))
  refused :
      All (Misfit size) es
      → (a.size < total es + 16 + size) ⊎ (a.size < 24 * length es + 24)
      → Malloc size a es (ok (0, a))

-- On an allocator whose entries and blocks fill two regions that are apart, with the end of the
-- data region and the size at least 32 below 2^64 and 24 bytes past the metadata region still below
-- it, the search of alloc_malloc ends; the call takes the first free block that is large enough, or
-- with none adds an entry and a block of the rounded size at the ends, or with no room for either
-- returns null and changes nothing, and the regions are filled by entries and their blocks again.
pub alloc_malloc-IsMeta :
    (bytes : ℕ) (a : MetaList) (es : List Entry)
    → IsMeta a es
    → a.data_start_ptr + a.size + bytes + 32 < 2 ^ 64
    → a.meta_start_ptr + a.size + 24 < 2 ^ 64
    → Malloc (align_up bytes) a es (alloc_malloc bytes a)
unfolding alloc_malloc malloc_mapped append_block
alloc_malloc-IsMeta bytes a es v small small_meta =
    let size = align_up bytes in
    let mapped = v.mapped in
    let high = v.high in
    let high_data = v.high_data in
    let word = v.word in
    let (up, down, even) = align_up-small bytes (omega arith) in
    let (meta, data_) =
      Entries-ends a.memory a.meta_start_ptr a.data_start_ptr a.meta_last_ptr v.data_end es
        v.entries in
    let there : (a.meta_start_ptr == 0) ≡ false = ground arith in
    let enough : length es < (a.meta_last_ptr - a.meta_start_ptr) / 24 + 1 = omega arith in
    elim (search_entry-Search ((a.meta_last_ptr - a.meta_start_ptr) / 24 + 1) size a.memory
      a.meta_start_ptr a.data_start_ptr a.meta_last_ptr v.data_end es v.entries (omega arith)
      enough) [
        | inl (e, all) ↦
            let s₀ : add64 v.data_end 16 ≡ v.data_end + 16 = mod-eq_of_lt (omega arith) in
            let s₁ : add64 (v.data_end + 16) size ≡ v.data_end + 16 + size =
              mod-eq_of_lt (omega arith) in
            let s₂ : add64 a.meta_last_ptr 24 ≡ a.meta_last_ptr + 24 = mod-eq_of_lt (omega arith) in
            let s₃ : add64 a.data_start_ptr a.size ≡ a.data_start_ptr + a.size =
              mod-eq_of_lt (omega arith) in
            let s₄ : add64 a.meta_start_ptr a.size ≡ a.meta_start_ptr + a.size =
              mod-eq_of_lt word in
            elim (Bool-cases (ltb (a.data_start_ptr + a.size) (v.data_end + 16 + size))) [
              | inl full ↦
                  rw
                    (
                      alloc_malloc,
                      there,
                      malloc_mapped,
                      e,
                      append_block,
                      next_block-end a es v,
                      s₀,
                      s₁,
                      s₃,
                      full,
                    )
                    (refused all (inl (omega tests)))
              | inr fits ↦
                  elim (Bool-cases (ltb (a.meta_start_ptr + a.size) (add64 a.meta_last_ptr 24))) [
                    | inl full ↦
                        rw
                          (
                            alloc_malloc,
                            there,
                            malloc_mapped,
                            e,
                            append_block,
                            next_block-end a es v,
                            s₀,
                            s₁,
                            s₃,
                            fits,
                            s₄,
                            full,
                          )
                          (refused all (inr (omega tests)))
                    | inr fits_meta ↦
                        let made = added-IsMeta a es size v (omega tests) (omega tests) in
                        rw
                          (
                            alloc_malloc,
                            there,
                            malloc_mapped,
                            e,
                            append_block,
                            next_block-end a es v,
                            s₀,
                            s₁,
                            s₃,
                            fits,
                            s₄,
                            fits_meta,
                          )
                          (subst
                            (λ p. Malloc size a es (ok (p, add_entry size (v.data_end + 16) a)))
                            (omega arith) (grown _ all made))
                  ]
            ]
        | inr (xs, x, ys, split, all, free, fits, e) ↦
            let w : IsMeta a (xs ++ x ∷ ys) = subst (IsMeta a) split v in
            let (flag, payload, back, in_meta, in_data) =
              Entries-middle a.memory a.meta_start_ptr a.data_start_ptr a.meta_last_ptr w.data_end
                xs x ys w.entries in
            let s₈ : add64 (a.meta_start_ptr + 24 * length xs) 8
                ≡ a.meta_start_ptr + 24 * length xs + 8 =
              mod-eq_of_lt (omega arith) in
            let s₁₆ : add64 (a.meta_start_ptr + 24 * length xs) 16
                ≡ a.meta_start_ptr + 24 * length xs + 16 =
              mod-eq_of_lt (omega arith) in
            let read : update a.memory (a.meta_start_ptr + 24 * length xs + 8) 1
                  (a.meta_start_ptr + 24 * length xs + 16)
                ≡ a.data_start_ptr + total xs + 16 =
              ground (arith, payload) in
            rw (alloc_malloc, there, malloc_mapped, e, take_entry, s₈, s₁₆, read)
              (reused xs x ys _ split all free fits (flagged-IsMeta a xs x ys 1 w))
      ]
