-- ===== src/Arenas/Tests.antt =====
-- Small arenas: sizes that fit, one that does not, and a block that is taken again.
use low_level_programming.Shared.{
  inl, update, ◌++◌, ◌⊎◌, ℕ, ◌+◌, ◌-◌, ◌*◌, ◌^◌, ◌<◌, ◌≤◌, ◌≡◌, ◌≢◌, refl, List, [], ◌∷◌, arith,
  ◌==◌, if◌then◌else◌,
}
use low_level_programming.Arenas.Align.{align_up}
use low_level_programming.Arenas.Bump.{Bump, IsBump, alloc_malloc, mallocs, alloc_malloc-overflow}
use low_level_programming.Arenas.Bump.Sequence.{Follow, mallocs-Follow}
use low_level_programming.Arenas.Arena.{Arena, IsArena, alloc, alloc-IsArena}
use low_level_programming.Arenas.ImplicitList as Implicit
use low_level_programming.Arenas.ImplicitList.{
  Header, ImplicitList, alloc_free, search_block, parse_header,
}
use low_level_programming.Arenas.ImplicitList.Malloc.{
  IsList, Malloc, alloc_malloc-Malloc, alloc_free-IsList,
}
use low_level_programming.Arenas.MetaList as MetaDefs
use low_level_programming.Arenas.MetaList.{MetaList}
use low_level_programming.Arenas.MetaList.Layout as MetaLayout
use low_level_programming.Arenas.MetaList.Layout.{Entry}
use low_level_programming.Arenas.MetaList.Malloc as Meta
use low_level_programming.Arenas.MetaList.Invariant.{IsMeta}
use low_level_programming.Arenas.MetaList.Malloc.{alloc_malloc-IsMeta}
use low_level_programming.Arenas.MetaList.Free.{alloc_free-accepts}

abbrev bump : Bump
bump = record { buffer = 4096; ptr = 4112; buff_size = 64 }

bump-IsBump : IsBump bump
bump-IsBump = record {
  mapped = omega arith;
  low = omega arith;
  high = omega arith;
  word = omega arith;
  aligned = refl;
  aligned_buffer = refl;
}

mallocs_output :
    mallocs (5 ∷ 20 ∷ 1 ∷ []) bump
    ≡ (4112 ∷ 4128 ∷ 0 ∷ [], record { buffer = 4096; ptr = 4160; buff_size = 64 })
unfolding mallocs alloc_malloc align_up
mallocs_output = refl

mallocs-Follow_example :
    (ps : List ℕ) × (a' : Bump) × (mallocs (5 ∷ 20 ∷ 1 ∷ []) bump ≡ (ps, a'))
    × Follow 4096 (4096 + 64) (5 ∷ 20 ∷ 1 ∷ []) ps
mallocs-Follow_example =
    mallocs-Follow (5 ∷ 20 ∷ 1 ∷ []) bump bump-IsBump
      (omega arith, (omega arith, (omega arith, tt)))

alloc_malloc-overflow_example : alloc_malloc (2 ^ 64 - 1) bump ≡ (4112, bump)
alloc_malloc-overflow_example =
    alloc_malloc-overflow (2 ^ 64 - 1) bump bump-IsBump (omega arith) (omega arith)

abbrev arena : Arena
arena = record { size = 64; start_ptr = 4096; curr_ptr = 4096 }

arena-IsArena : IsArena arena
arena-IsArena = record {
  mapped = omega arith;
  low = omega arith;
  high = omega arith;
  word = omega arith;
  aligned = refl;
  aligned_start = refl;
}

alloc-IsArena_example :
    ((a' : Arena) × (alloc 4 3 arena ≡ (4096, a'))
      × IsArena a'
      × (4096 + 3 * 4 ≤ a'.curr_ptr)
      × (a'.curr_ptr < 4096 + 3 * 4 + 16)
      × (a'.start_ptr ≡ 4096)
      × (a'.size ≡ 64))
    ⊎ ((alloc 4 3 arena ≡ (0, arena)) × (4096 + 64 < 4096 + 3 * 4 + 15))
alloc-IsArena_example = alloc-IsArena 4 3 arena arena-IsArena (omega arith)

-- one free block of 32 bytes and one of 16 that is in use
abbrev two_blocks : ImplicitList
two_blocks = record {
  memory = λ i. if i == 4096 then 32 else if i == 4144 then 16 else if i == 4152 then 1 else 0;
  start_ptr = 4096;
  last_ptr = 4176;
  size = 256;
}

abbrev free_block : Header
free_block = record { block_size = 32; allocated = 0 }

abbrev used_block : Header
used_block = record { block_size = 16; allocated = 1 }

two_blocks-IsList : IsList two_blocks (free_block ∷ used_block ∷ [])
two_blocks-IsList = record {
  mapped = omega arith;
  high = omega arith;
  word = omega arith;
  layout = (refl, refl, (refl, refl, refl));
  aligned_start = refl;
  aligned = (refl, (refl, tt));
}

alloc_malloc-Malloc_example :
    Malloc
      (align_up 20)
      two_blocks
      (free_block ∷ used_block ∷ [])
      (Implicit.alloc_malloc 20 two_blocks)
alloc_malloc-Malloc_example =
    alloc_malloc-Malloc 20 two_blocks (free_block ∷ used_block ∷ []) two_blocks-IsList (omega arith)

alloc_free-IsList_example :
    ((used_block.allocated ≡ 0) × (alloc_free 4160 two_blocks ≡ (1, two_blocks)))
    ⊎ ((used_block.allocated ≢ 0)
        × (a' : ImplicitList) × (alloc_free 4160 two_blocks ≡ (0, a'))
        × IsList a' (free_block ∷ record used_block { allocated = 0 } ∷ []))
alloc_free-IsList_example =
    alloc_free-IsList two_blocks (free_block ∷ []) used_block [] two_blocks-IsList (omega arith)

-- one block of 32 bytes that is in use, in a region of its own
abbrev one_entry : MetaList
one_entry = record {
  memory = λ i.
      if i == 4096
      then 32
      else if i == 4104
      then 1
      else if i == 4112
      then 8208
      else if i == 8200
      then 4096
      else 0;
  meta_start_ptr = 4096;
  meta_last_ptr = 4120;
  data_start_ptr = 8192;
  size = 256;
}

abbrev entry : Entry
entry = record { bytes = 32; allocated = 1 }

one_entry-IsMeta : IsMeta one_entry (entry ∷ [])
one_entry-IsMeta = record {
  data_end = 8240;
  mapped = omega arith;
  high = omega arith;
  high_data = omega arith;
  word = omega arith;
  word_data = omega arith;
  apart = inl (omega arith);
  entries = (refl, refl, refl, refl, (refl, refl));
}

alloc_malloc-IsMeta_example :
    Meta.Malloc (align_up 20) one_entry (entry ∷ []) (MetaDefs.alloc_malloc 20 one_entry)
alloc_malloc-IsMeta_example =
    alloc_malloc-IsMeta 20 one_entry (entry ∷ []) one_entry-IsMeta (omega arith) (omega arith)

abbrev freed : MetaList
freed = record one_entry { memory = update one_entry.memory 4104 0 }

freed_output : MetaDefs.alloc_free 8208 one_entry ≡ (0, freed)
unfolding MetaDefs.alloc_free
freed_output = refl

alloc_free-accepts_example :
    (xs : List Entry) × (x : Entry) × (ys : List Entry) × (entry ∷ [] ≡ xs ++ x ∷ ys)
    × (8208 ≡ 8192 + MetaLayout.total xs + 16)
    × (x.allocated ≢ 0)
alloc_free-accepts_example =
    alloc_free-accepts one_entry (entry ∷ []) 8208 freed one_entry-IsMeta (omega arith) freed_output
