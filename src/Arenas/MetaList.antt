-- ===== src/Arenas/MetaList.antt =====
-- 1_mem_allocator/implicit_free_list-improved/allocator.c: an entry of three words for each block in
-- one region, its size, whether it is allocated, and its payload; in the other region the blocks,
-- each behind a header whose second word leads back to the entry. The memory is the word at each
-- address.
pub mod Layout
pub mod Invariant
pub mod Malloc
pub mod Free
use low_level_programming.Shared.{
  ℕ, zero, suc, ◌+◌, ◌-◌, ◌/◌, ◌%◌, ◌^◌, Bool, true, false, not, ◌&&◌, ◌||◌, Option, none, some,
  ◌==◌, ltb, leb, if◌then◌else◌, add64, sub64, update, Outcome, ok, stuck, ◌>>=◌,
}
use low_level_programming.Arenas.Align.{align_up}

pub record MetaList : Type 0 where
  pub memory : ℕ → ℕ
  pub meta_start_ptr : ℕ
  pub meta_last_ptr : ℕ
  pub data_start_ptr : ℕ
  pub size : ℕ

-- Two regions are mapped; `none` stands for `MAP_FAILED`, the last address.
unfoldable pub alloc_init :
    (mapped_meta mapped_data : Option ℕ) → (size : ℕ) → MetaList → ℕ × MetaList
alloc_init mapped_meta mapped_data size a =
    if a.meta_start_ptr == 0
    then elim mapped_meta [
      | none ↦ (1, record a { meta_start_ptr = 2 ^ 64 - 1 })
      | some p ↦ elim mapped_data [
        | none ↦ (1, record a { meta_start_ptr = 0; data_start_ptr = 2 ^ 64 - 1 })
        | some q ↦
            (0, record a { meta_start_ptr = p; data_start_ptr = q; meta_last_ptr = p; size = size })
      ]
    ]
    else (1, a)

unfoldable pub alloc_deinit : MetaList → ℕ × MetaList
alloc_deinit a =
    if a.meta_start_ptr == 0
    then (1, a)
    else (0, record a { meta_start_ptr = 0; data_start_ptr = 0; meta_last_ptr = 0; size = 0 })

-- the loop of `alloc_malloc`: the entry of the first free block that is large enough
unfoldable pub search_entry : ℕ → (size : ℕ) → (m : ℕ → ℕ) → (current last : ℕ) → Outcome (Option ℕ)
search_entry zero size m current last = stuck
search_entry (suc fuel) size m current last =
    let rest = search_entry fuel size m (add64 current 24) last in
    if ltb current last
    then (if (m (add64 current 8) == 0) && leb size (m current) then ok (some current) else rest)
    else ok none

-- where the next block starts: after the last one
unfoldable pub next_block : MetaList → ℕ
next_block a =
    if a.meta_start_ptr == a.meta_last_ptr
    then a.data_start_ptr
    else add64 (a.memory (add64 (sub64 a.meta_last_ptr 24) 16))
        (a.memory (sub64 a.meta_last_ptr 24))

-- the four writes for a new block, and the new end of the entries
abbrev pub add_entry : (size payload : ℕ) → MetaList → MetaList
add_entry size payload a = record a {
  memory =
      update
        (update (update (update a.memory a.meta_last_ptr size) (add64 a.meta_last_ptr 8) 1)
          (add64 a.meta_last_ptr 16) payload)
        (sub64 payload 8) a.meta_last_ptr;
  meta_last_ptr = add64 a.meta_last_ptr 24;
}

-- `return *(void **)(current + 2 * sizeof(size_t))`, after the block is marked
abbrev pub take_entry : ℕ → MetaList → ℕ × MetaList
take_entry current a =
    let m = update a.memory (add64 current 8) 1 in (m (add64 current 16), record a { memory = m })

-- from the search that found nothing
unfoldable pub append_block : (size : ℕ) → MetaList → ℕ × MetaList
unfolding next_block
append_block size a =
    let payload = add64 (next_block a) 16 in
    if ltb (add64 a.data_start_ptr a.size) (add64 payload size)
    then (0, a)
    else if ltb (add64 a.meta_start_ptr a.size) (add64 a.meta_last_ptr 24)
    then (0, a)
    else (payload, add_entry size payload a)

-- what follows the test of `meta_start_ptr`; a round of the search goes on by an entry, so there is
-- a round for every 24 bytes
unfoldable pub malloc_mapped : ℕ → MetaList → Outcome (ℕ × MetaList)
malloc_mapped bytes a = do
  let size = align_up bytes
  found ←
      search_entry ((a.meta_last_ptr - a.meta_start_ptr) / 24 + 1) size a.memory a.meta_start_ptr
        a.meta_last_ptr
  ok (elim found [ some current ↦ take_entry current a | none ↦ append_block size a ])

unfoldable pub alloc_malloc : ℕ → MetaList → Outcome (ℕ × MetaList)
alloc_malloc bytes a = if a.meta_start_ptr == 0 then ok (0, a) else malloc_mapped bytes a

-- the four tests of `alloc_free` on the entry that the header leads to
abbrev pub refuses : (header p : ℕ) → MetaList → Bool
refuses header p a =
    ltb header a.meta_start_ptr
    || (leb a.meta_last_ptr header
        || (not (sub64 header a.meta_start_ptr % 24 == 0)
            || (not (a.memory (add64 header 16) == p) || (a.memory (add64 header 8) == 0))))

unfoldable pub alloc_free : ℕ → MetaList → ℕ × MetaList
alloc_free p a =
    if a.meta_start_ptr == 0
    then (1, a)
    else if ltb p (add64 a.data_start_ptr 16) || leb (add64 a.data_start_ptr a.size) p
    then (1, a)
    else let header = a.memory (sub64 p 8) in
      if refuses header p a
      then (1, a)
      else (0, record a { memory = update a.memory (add64 header 8) 0 })

unfoldable pub alloc_reset : MetaList → ℕ × MetaList
alloc_reset a =
    if a.meta_start_ptr == 0 then (1, a) else (0, record a { meta_last_ptr = a.meta_start_ptr })
