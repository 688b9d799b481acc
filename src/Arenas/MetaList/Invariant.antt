-- ===== src/Arenas/MetaList/Invariant.antt =====
-- What a valid allocator is, and the changes that keep it valid.
use low_level_programming.Shared.{
  ◌⊎◌, ℕ, ◌+◌, ◌-◌, ◌*◌, ◌^◌, ◌<◌, ◌≤◌, ◌≡◌, ◌≢◌, ap, ◌∙◌, List, [], ◌∷◌, ◌++◌, ◌==◌, add64, sub64,
  update, arith, Bool-cases, inl, inr, length, ==→eq, ==→ne,
}
use low_level_programming.Arenas.MetaList.{MetaList, next_block, add_entry}
use low_level_programming.Arenas.MetaList.Layout.{
  Entry, Entries, total, Entries-ends, Entries-frame, Entries-flag, Entries-append, Entries-last,
}
use native.Mathlib.Nat.{mod-eq_of_lt}

-- The entries fill the one region up to `meta_last_ptr`, and their blocks the other up to `data_end`.
pub record IsMeta (a : MetaList) (es : List Entry) : Type 0 where
  pub data_end : ℕ
  pub mapped : 0 < a.meta_start_ptr
  pub high : a.meta_last_ptr ≤ a.meta_start_ptr + a.size
  pub high_data : data_end ≤ a.data_start_ptr + a.size
  pub word : a.meta_start_ptr + a.size < 2 ^ 64
  pub word_data : a.data_start_ptr + a.size < 2 ^ 64
  pub apart :
      (a.meta_start_ptr + a.size ≤ a.data_start_ptr)
      ⊎ (a.data_start_ptr + a.size ≤ a.meta_start_ptr)
  pub entries : Entries a.memory a.meta_start_ptr a.data_start_ptr es a.meta_last_ptr data_end

-- What the entry of a block in the list, and its header, hold.
pub Entries-middle :
    (m : ℕ → ℕ) (p d q e : ℕ) (xs : List Entry) (x : Entry) (ys : List Entry)
    → Entries m p d (xs ++ x ∷ ys) q e
    → (m (p + 24 * length xs + 8) ≡ x.allocated)
      × (m (p + 24 * length xs + 16) ≡ d + total xs + 16)
      × (m (d + total xs + 8) ≡ p + 24 * length xs)
      × (p + 24 * length xs + 24 ≤ q)
      × (d + total xs + 16 + x.bytes ≤ e)
Entries-middle m p d q e [] x ys l =
    let (a, b) = Entries-ends m (p + 24) (d + 16 + x.bytes) q e ys l.4 in
    (
      ap (λ i. m i) (omega arith) ∙ l.1,
      ap (λ i. m i) (omega arith) ∙ l.2 ∙ (omega arith),
      ap (λ i. m i) (omega arith) ∙ l.3 ∙ (omega arith),
      omega arith,
      omega arith,
    )
Entries-middle m p d q e (y ∷ xs) x ys l =
    let (flag, payload, back, in_meta, in_data) =
      Entries-middle m (p + 24) (d + 16 + y.bytes) q e xs x ys l.4 in
    (
      ap (λ i. m i) (omega arith) ∙ flag,
      ap (λ i. m i) (omega arith) ∙ payload ∙ (omega arith),
      ap (λ i. m i) (omega arith) ∙ back ∙ (omega arith),
      omega arith,
      omega arith,
    )

pub flagged-IsMeta :
    (a : MetaList) (xs : List Entry) (x : Entry) (ys : List Entry) (flag : ℕ)
    → IsMeta a (xs ++ x ∷ ys)
    → IsMeta
        (record a { memory = update a.memory (a.meta_start_ptr + 24 * length xs + 8) flag })
        (xs ++ record x { allocated = flag } ∷ ys)
flagged-IsMeta a xs x ys flag v =
    let high = v.high in
    let high_data = v.high_data in
    let apart : (a.meta_last_ptr ≤ a.data_start_ptr) ⊎ (v.data_end ≤ a.meta_start_ptr) =
      elim v.apart [ inl h ↦ inl (omega arith) | inr h ↦ inr (omega arith) ] in
    record {
      data_end = v.data_end;
      mapped = v.mapped;
      high = high;
      high_data = high_data;
      word = v.word;
      word_data = v.word_data;
      apart = v.apart;
      entries =
          Entries-flag a.memory a.meta_start_ptr a.data_start_ptr a.meta_last_ptr v.data_end xs x ys
            flag apart v.entries;
    }

pub next_block-end : (a : MetaList) (es : List Entry) (v : IsMeta a es) → next_block a ≡ v.data_end
unfolding next_block
next_block-end a es v =
    let (meta, data_) =
      Entries-ends a.memory a.meta_start_ptr a.data_start_ptr a.meta_last_ptr v.data_end es
        v.entries in
    let high = v.high in
    let high_data = v.high_data in
    let word = v.word in
    let word_data = v.word_data in
    elim (Bool-cases (a.meta_start_ptr == a.meta_last_ptr)) [
      | inl empty ↦
          rw (next_block, empty)
            (none_in es v.entries (==→eq a.meta_start_ptr a.meta_last_ptr empty))
      | inr filled ↦
          let ne : a.meta_start_ptr ≢ a.meta_last_ptr =
            ==→ne a.meta_start_ptr a.meta_last_ptr filled in
          let (room, sum) =
            Entries-last a.memory a.meta_start_ptr a.data_start_ptr a.meta_last_ptr v.data_end es
              v.entries (ground arith) in
          let back : sub64 a.meta_last_ptr 24 ≡ a.meta_last_ptr - 24 = omega arith in
          let at : add64 (a.meta_last_ptr - 24) 16 ≡ a.meta_last_ptr - 24 + 16 =
            mod-eq_of_lt (omega arith) in
          let whole : add64 (a.memory (a.meta_last_ptr - 24 + 16)) (a.memory (a.meta_last_ptr - 24))
              ≡ a.memory (a.meta_last_ptr - 24 + 16) + a.memory (a.meta_last_ptr - 24) =
            mod-eq_of_lt (omega arith) in
          rw (next_block, filled, back, at) (whole ∙ sum)
    ]
  where
    none_in :
        (es : List Entry)
        → Entries a.memory a.meta_start_ptr a.data_start_ptr es a.meta_last_ptr v.data_end
        → a.meta_start_ptr ≡ a.meta_last_ptr
        → a.data_start_ptr ≡ v.data_end
    none_in [] l e = l.1
    none_in (x ∷ es) l e =
        let (meta, _) =
          Entries-ends a.memory a.meta_start_ptr a.data_start_ptr a.meta_last_ptr v.data_end
            (x ∷ es) l in
        absurd (omega arith)

-- a new block behind the last one, with room for it and its entry
pub added-IsMeta :
    (a : MetaList) (es : List Entry) (size : ℕ) (v : IsMeta a es)
    → v.data_end + 16 + size ≤ a.data_start_ptr + a.size
    → a.meta_last_ptr + 24 ≤ a.meta_start_ptr + a.size
    → IsMeta
        (add_entry size (v.data_end + 16) a)
        (es ++ record { bytes = size; allocated = 1 } ∷ [])
added-IsMeta a es size v room room_meta =
    let word = v.word in
    let word_data = v.word_data in
    let q = a.meta_last_ptr in
    let e = v.data_end in
    let (meta, data_) = Entries-ends a.memory a.meta_start_ptr a.data_start_ptr q e es v.entries in
    let s₁ : add64 q 8 ≡ q + 8 = mod-eq_of_lt (omega arith) in
    let s₂ : add64 q 16 ≡ q + 16 = mod-eq_of_lt (omega arith) in
    let s₃ : add64 q 24 ≡ q + 24 = mod-eq_of_lt (omega arith) in
    let s₄ : sub64 (e + 16) 8 ≡ e + 8 = omega arith in
    let apart : (q + 24 ≤ a.data_start_ptr) ⊎ (e + 16 + size ≤ a.meta_start_ptr) = elim v.apart [
      | inl h ↦ inl (omega arith)
      | inr h ↦ inr (omega arith)
    ] in
    rw (s₁, s₂, s₃, s₄)
      (record {
        data_end = e + 16 + size;
        mapped = v.mapped;
        high = room_meta;
        high_data = room;
        word = word;
        word_data = word_data;
        apart = v.apart;
        entries = written a.memory a.meta_start_ptr a.data_start_ptr q e es size apart v.entries;
      })
  where
    written :
        (m : ℕ → ℕ) (p d q e : ℕ) (es : List Entry) (size : ℕ)
        → (q + 24 ≤ d) ⊎ (e + 16 + size ≤ p)
        → Entries m p d es q e
        → Entries
            (update (update (update (update m q size) (q + 8) 1) (q + 16) (e + 16)) (e + 8) q)
            p
            d
            (es ++ record { bytes = size; allocated = 1 } ∷ [])
            (q + 24)
            (e + 16 + size)
    written m p d q e es size apart l =
        let (meta, data_) = Entries-ends m p d q e es l in
        Entries-append _ p d q e es (record { bytes = size; allocated = 1 })
          (Entries-frame m _ p d q e es (λ i lo hi. ground (arith, apart))
            (λ i lo hi. ground (arith, apart)) l)
          (ground (arith, apart)) (ground (arith, apart)) (ground (arith, apart)) (ground arith)
