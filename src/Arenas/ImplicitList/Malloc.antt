-- ===== src/Arenas/ImplicitList/Malloc.antt =====
-- `alloc_malloc` and `alloc_free` on the blocks of a list.
use low_level_programming.Shared.{
  ◌⊎◌, ℕ, ◌+◌, ◌-◌, ◌/◌, ◌%◌, ◌^◌, ◌<◌, ◌≤◌, ◌≡◌, ◌≢◌, refl, sym, ap, subst, ◌∙◌, false, ◌||◌, List,
  [], ◌∷◌, ◌++◌, ◌==◌, ltb, leb, add64, sub64, update, All, All-append, All-replace, arith, tests,
  Bool-cases, inl, inr, length, Outcome, ok,
}
use low_level_programming.Arenas.Align.{align_up, align_up-small}
use low_level_programming.Arenas.ImplicitList.{
  Header, ImplicitList, parse_header, alloc_malloc, alloc_free,
}
use low_level_programming.Arenas.ImplicitList.Layout.{
  Layout, total, Layout-total, length-total, Layout-frame, Layout-flag, Layout-append, Misfit,
  search_block-Search,
}
use native.Mathlib.Nat.{mod-eq_of_lt}

-- The blocks fill the arena from its start to `last_ptr`, with sizes that are multiples of 16.
pub record IsList (a : ImplicitList) (bs : List Header) : Type 0 where
  pub mapped : 0 < a.start_ptr
  pub high : a.last_ptr ≤ a.start_ptr + a.size
  pub word : a.start_ptr + a.size < 2 ^ 64
  pub layout : Layout a.memory a.start_ptr bs a.last_ptr
  pub aligned_start : a.start_ptr % 16 ≡ 0
  pub aligned : All (λ b. b.block_size % 16 ≡ 0) bs

total-aligned : (bs : List Header) → All (λ b. b.block_size % 16 ≡ 0) bs → total bs % 16 ≡ 0
total-aligned [] h = refl
total-aligned (b ∷ bs) h = omega (arith, total-aligned bs h.1, h.0)

total-append : (xs ys : List Header) → total (xs ++ ys) ≡ total xs + total ys
total-append [] ys = omega arith
total-append (x ∷ xs) ys = omega (arith, total-append xs ys)

-- What `alloc_malloc` does: it takes the first free block that is large enough; with none it adds
-- one at the end; with no room for that it returns null.
pub data Malloc (size : ℕ) (a : ImplicitList) (bs : List Header)
    : Outcome (ℕ × ImplicitList) → Type 0 where
  reused :
      (xs : List Header) (b : Header) (ys : List Header) (a' : ImplicitList)
      → bs ≡ xs ++ b ∷ ys
      → All (Misfit size) xs
      → b.allocated ≡ 0
      → size ≤ b.block_size
      → IsList a' (xs ++ record b { allocated = 1 } ∷ ys)
      → a'.last_ptr ≡ a.last_ptr
      → Malloc size a bs (ok (a.start_ptr + total xs + 16, a'))
  grown :
      (a' : ImplicitList)
      → All (Misfit size) bs
      → IsList a' (bs ++ record { block_size = size; allocated = 1 } ∷ [])
      → Malloc size a bs (ok (a.last_ptr + 16, a'))
  refused :
      All (Misfit size) bs
      → a.start_ptr + a.size < a.last_ptr + size + 16
      → Malloc size a bs (ok (0, a))

reused-IsList :
    (a : ImplicitList) (xs : List Header) (b : Header) (ys : List Header) (flag : ℕ)
    → IsList a (xs ++ b ∷ ys)
    → IsList
        (record a { memory = update a.memory (a.start_ptr + total xs + 8) flag })
        (xs ++ record b { allocated = flag } ∷ ys)
reused-IsList a xs b ys flag v = record {
  mapped = v.mapped;
  high = v.high;
  word = v.word;
  layout = Layout-flag a.memory a.start_ptr a.last_ptr xs b ys flag v.layout;
  aligned_start = v.aligned_start;
  aligned =
      All-replace (λ c. c.block_size % 16 ≡ 0) xs b (record b { allocated = flag }) ys v.aligned
        (middle xs v.aligned);
}
  where
    middle :
        (xs : List Header) → All (λ c. c.block_size % 16 ≡ 0) (xs ++ b ∷ ys) → b.block_size % 16 ≡ 0
    middle [] h = h.0
    middle (x ∷ xs) h = middle xs h.1

grown-IsList :
    (a : ImplicitList) (bs : List Header) (size : ℕ)
    → IsList a bs
    → size % 16 ≡ 0
    → a.last_ptr + size + 16 ≤ a.start_ptr + a.size
    → IsList
        (record a {
          memory = update (update a.memory a.last_ptr size) (a.last_ptr + 8) 1;
          last_ptr = a.last_ptr + 16 + size;
        })
        (bs ++ record { block_size = size; allocated = 1 } ∷ [])
grown-IsList a bs size v even room = record {
  mapped = v.mapped;
  high = omega arith;
  word = v.word;
  layout =
      Layout-append _ a.start_ptr a.last_ptr bs (record { block_size = size; allocated = 1 })
        (Layout-frame a.memory _ a.start_ptr a.last_ptr bs (λ i lo hi. ground arith) v.layout)
        (ground arith) (ground arith);
  aligned_start = v.aligned_start;
  aligned =
      All-append (λ b. b.block_size % 16 ≡ 0) bs (record { block_size = size; allocated = 1 } ∷ [])
        v.aligned (even, tt);
}

-- On a list of blocks that fills the arena up to last_ptr, with a size at least 32 below 2^64 past
-- it, the search of alloc_malloc ends; the call takes the first free block that is large enough, or
-- with none adds a block of the rounded size at the end, or with no room for it returns null and
-- changes nothing, and the memory is a list of blocks again.
pub alloc_malloc-Malloc :
    (bytes : ℕ) (a : ImplicitList) (bs : List Header)
    → IsList a bs
    → a.last_ptr + bytes + 32 < 2 ^ 64
    → Malloc (align_up bytes) a bs (alloc_malloc bytes a)
unfolding alloc_malloc
alloc_malloc-Malloc bytes a bs v small =
    let size = align_up bytes in
    let high = v.high in
    let word = v.word in
    let (up, down, even) = align_up-small bytes (omega arith) in
    let span : a.start_ptr + total bs ≡ a.last_ptr =
      Layout-total a.memory a.start_ptr a.last_ptr bs v.layout in
    let many = length-total bs in
    let enough : length bs < (a.last_ptr - a.start_ptr) / 16 + 1 = omega arith in
    let limit : add64 a.start_ptr a.size ≡ a.start_ptr + a.size = mod-eq_of_lt word in
    elim (search_block-Search ((a.last_ptr - a.start_ptr) / 16 + 1) size a.memory a.start_ptr
      a.last_ptr bs v.layout (omega arith) enough) [
        | inl (e, all) ↦
            let s₁ : add64 a.last_ptr size ≡ a.last_ptr + size = mod-eq_of_lt (omega arith) in
            let s₂ : add64 (a.last_ptr + size) 16 ≡ a.last_ptr + size + 16 =
              mod-eq_of_lt (omega arith) in
            let s₃ : add64 a.last_ptr 16 ≡ a.last_ptr + 16 = mod-eq_of_lt (omega arith) in
            let s₄ : add64 a.last_ptr 8 ≡ a.last_ptr + 8 = mod-eq_of_lt (omega arith) in
            let s₅ : add64 (a.last_ptr + 16) size ≡ a.last_ptr + 16 + size =
              mod-eq_of_lt (omega arith) in
            elim (Bool-cases (ltb (a.start_ptr + a.size) (a.last_ptr + size + 16))) [
              | inl over ↦ rw (alloc_malloc, e, limit, s₁, s₂, over) (refused all (omega tests))
              | inr fits ↦
                  rw (alloc_malloc, e, limit, s₁, s₂, fits, s₃, s₄, s₅)
                    (grown _ all (grown-IsList a bs size v even (omega tests)))
            ]
        | inr (xs, b, ys, split, all, free, fits, e) ↦
            let w : IsList a (xs ++ b ∷ ys) = subst (IsList a) split v in
            let part : total bs ≡ total xs + (16 + b.block_size + total ys) =
              ap total split ∙ total-append xs (b ∷ ys) in
            let s₃ : add64 (a.start_ptr + total xs) 16 ≡ a.start_ptr + total xs + 16 =
              mod-eq_of_lt (omega arith) in
            let s₄ : add64 (a.start_ptr + total xs) 8 ≡ a.start_ptr + total xs + 8 =
              mod-eq_of_lt (omega arith) in
            rw (alloc_malloc, e, s₃, s₄)
              (reused xs b ys _ split all free fits (reused-IsList a xs b ys 1 w) refl)
      ]

-- On such a list alloc_free of the payload of a block, which is not an empty block at the end,
-- returns 1 and changes nothing if the block is free, and else returns 0 and leaves the same list
-- with that block free.
pub alloc_free-IsList :
    (a : ImplicitList) (xs : List Header) (b : Header) (ys : List Header)
    → IsList a (xs ++ b ∷ ys)
    → 0 < b.block_size + total ys
    → ((b.allocated ≡ 0) × (alloc_free (a.start_ptr + total xs + 16) a ≡ (1, a)))
      ⊎ ((b.allocated ≢ 0)
          × (a' : ImplicitList) × (alloc_free (a.start_ptr + total xs + 16) a ≡ (0, a'))
          × IsList a' (xs ++ record b { allocated = 0 } ∷ ys))
unfolding alloc_free
alloc_free-IsList a xs b ys v inside =
    let high = v.high in
    let word = v.word in
    let span : a.start_ptr + (total xs + (16 + b.block_size + total ys)) ≡ a.last_ptr =
      ap (λ t. a.start_ptr + t) (sym (total-append xs (b ∷ ys)))
      ∙ Layout-total a.memory a.start_ptr a.last_ptr (xs ++ b ∷ ys) v.layout in
    let p = a.start_ptr + total xs + 16 in
    let low : add64 a.start_ptr 16 ≡ a.start_ptr + 16 = mod-eq_of_lt (omega arith) in
    let in_range : (ltb p (a.start_ptr + 16) || leb a.last_ptr p) ≡ false = ground arith in
    let flag : sub64 p 8 ≡ a.start_ptr + total xs + 8 = omega arith in
    let header : a.memory (a.start_ptr + total xs + 8) ≡ b.allocated =
      flag_of a.memory a.start_ptr xs v.layout in
    elim (Bool-cases (b.allocated == 0)) [
      | inl free ↦ inl (omega tests, rw (low, in_range, parse_header, flag, header, free) refl)
      | inr used ↦ inr (
        omega tests,
        record a { memory = update a.memory (a.start_ptr + total xs + 8) 0 },
        rw (low, in_range, parse_header, flag, header, used) refl,
        reused-IsList a xs b ys 0 v,
      )
    ]
  where
    flag_of :
        (m : ℕ → ℕ) (s : ℕ) (xs : List Header)
        → Layout m s (xs ++ b ∷ ys) a.last_ptr
        → m (s + total xs + 8) ≡ b.allocated
    flag_of m s [] l = ap m (omega arith) ∙ l.1
    flag_of m s (x ∷ xs) l = ap m (omega arith) ∙ flag_of m (s + 16 + x.block_size) xs l.2
