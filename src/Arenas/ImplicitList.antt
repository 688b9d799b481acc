-- ===== src/Arenas/ImplicitList.antt =====
-- 1_mem_allocator/implicit_free_list/allocator.c: blocks one after the other, each behind a header
-- of two words, its size and whether it is allocated. The memory is the word at each address.
pub mod Layout
pub mod Malloc
use low_level_programming.Shared.{
  ℕ, zero, suc, ◌+◌, ◌-◌, ◌/◌, ◌^◌, Bool, true, false, ◌&&◌, ◌||◌, Option, none, some, ◌==◌, ltb,
  leb, if◌then◌else◌, add64, sub64, update, Outcome, ok, stuck, ◌>>=◌,
}
use low_level_programming.Arenas.Align.{align_up}

pub record Header : Type 0 where
  pub block_size : ℕ
  pub allocated : ℕ

pub record ImplicitList : Type 0 where
  pub memory : ℕ → ℕ
  pub start_ptr : ℕ
  pub last_ptr : ℕ
  pub size : ℕ

unfoldable pub parse_header : (ℕ → ℕ) → ℕ → Header
parse_header m p = record { block_size = m (sub64 p 16); allocated = m (sub64 p 8) }

-- `none` stands for `MAP_FAILED`, the last address.
unfoldable pub alloc_init : (mapped : Option ℕ) → (size : ℕ) → ImplicitList → ℕ × ImplicitList
alloc_init mapped size a =
    if a.start_ptr == 0
    then elim mapped [
      | none ↦ (1, record a { start_ptr = 2 ^ 64 - 1 })
      | some p ↦ (0, record a { start_ptr = p; last_ptr = p; size = size })
    ]
    else (1, a)

unfoldable pub alloc_deinit : ImplicitList → ℕ × ImplicitList
alloc_deinit a =
    if a.start_ptr == 0 then (1, a) else (0, record a { start_ptr = 0; last_ptr = 0; size = 0 })

-- the loop of `alloc_malloc`: `found` and `current`
unfoldable pub search_block : ℕ → (size : ℕ) → (m : ℕ → ℕ) → (current last : ℕ) → Outcome (Bool × ℕ)
unfolding parse_header
search_block zero size m current last = stuck
search_block (suc fuel) size m current last =
    let payload = add64 current 16 in
    let header = parse_header m payload in
    let rest = search_block fuel size m (add64 payload header.block_size) last in
    if ltb current last
    then (if (header.allocated == 0) && leb size header.block_size
        then ok (true, sub64 payload 16)
        else rest)
    else ok (false, current)

-- A round goes on by a header, so there is a round for every 16 bytes.
unfoldable pub alloc_malloc : ℕ → ImplicitList → Outcome (ℕ × ImplicitList)
unfolding search_block
alloc_malloc bytes a = do
  let size = align_up bytes
  let m = a.memory
  (found, current) ←
      search_block ((a.last_ptr - a.start_ptr) / 16 + 1) size m a.start_ptr a.last_ptr
  let taken : ImplicitList = record a { memory = update m (add64 current 8) 1 }
  let grown : ImplicitList = record a {
    memory = update (update m current size) (add64 current 8) 1;
    last_ptr = add64 (add64 current 16) size;
  }
  if found
      then ok (add64 current 16, taken)
      else if ltb (add64 a.start_ptr a.size) (add64 (add64 current size) 16)
      then ok (0, a)
      else ok (add64 current 16, grown)

unfoldable pub alloc_free : ℕ → ImplicitList → ℕ × ImplicitList
unfolding parse_header
alloc_free p a =
    if ltb p (add64 a.start_ptr 16) || leb a.last_ptr p
    then (1, a)
    else if (parse_header a.memory p).allocated == 0
    then (1, a)
    else (0, record a { memory = update a.memory (sub64 p 8) 0 })

unfoldable pub alloc_reset : ImplicitList → ℕ × ImplicitList
alloc_reset a = if a.start_ptr == 0 then (1, a) else (0, record a { last_ptr = a.start_ptr })
