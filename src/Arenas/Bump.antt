-- ===== src/Arenas/Bump.antt =====
-- 1_mem_allocator/bump_allocator/allocator.c: the next block is the next piece of the buffer.
pub mod Sequence
use low_level_programming.Shared.{
  ℕ, ◌+◌, ◌-◌, ◌%◌, ◌^◌, ◌<◌, ◌≤◌, ◌≡◌, ◌⊎◌, refl, ap, false, Option, none, some, List, [], ◌∷◌,
  ◌==◌, ltb, if◌then◌else◌, add64, sub64, arith, tests, Bool-cases, inl, inr,
}
use low_level_programming.Arenas.Align.{align_up, align_up-small, align_up-large}
use native.Mathlib.Nat.{mod-eq_of_lt}

pub record Bump : Type 0 where
  pub buffer : ℕ
  pub ptr : ℕ
  pub buff_size : ℕ

-- Each operation returns its result and the allocator. `mapped` is what `mmap` returns; `none`
-- stands for `MAP_FAILED`, the last address.
unfoldable pub alloc_init : (mapped : Option ℕ) → (size : ℕ) → Bump → ℕ × Bump
alloc_init mapped size a =
    if a.ptr == 0
    then elim mapped [
      | none ↦ (1, record a { buffer = 2 ^ 64 - 1 })
      | some p ↦ (0, record { buffer = p; ptr = p; buff_size = size })
    ]
    else (1, a)

unfoldable pub alloc_deinit : Bump → ℕ × Bump
alloc_deinit a = if a.ptr == 0 then (1, a) else (0, record a { ptr = 0; buff_size = 0 })

unfoldable pub alloc_malloc : ℕ → Bump → ℕ × Bump
alloc_malloc size a =
    if a.ptr == 0
    then (0, a)
    else if ltb (sub64 (add64 a.buffer a.buff_size) a.ptr) (align_up size)
    then (0, a)
    else (a.ptr, record a { ptr = add64 a.ptr (align_up size) })

unfoldable pub alloc_free : ℕ → Bump → ℕ × Bump
alloc_free p a = (0, a)

unfoldable pub alloc_reset : Bump → ℕ × Bump
alloc_reset a = if a.ptr == 0 then (1, a) else (0, record a { ptr = a.buffer })

-- An allocator with a buffer: `ptr` is a multiple of 16 in the buffer or at its end.
pub record IsBump (a : Bump) : Type 0 where
  pub mapped : 0 < a.buffer
  pub low : a.buffer ≤ a.ptr
  pub high : a.ptr ≤ a.buffer + a.buff_size
  pub word : a.buffer + a.buff_size < 2 ^ 64
  pub aligned : a.ptr % 16 ≡ 0
  pub aligned_buffer : a.buffer % 16 ≡ 0

pub alloc_init-IsBump :
    (p size : ℕ) (a : Bump)
    → a.ptr ≡ 0
    → 0 < p
    → p % 16 ≡ 0
    → p + size < 2 ^ 64
    → (a' : Bump) × (alloc_init (some p) size a ≡ (0, a'))
      × IsBump a'
      × (a'.ptr ≡ p)
      × (a'.buffer ≡ p)
      × (a'.buff_size ≡ size)
unfolding alloc_init
alloc_init-IsBump p size a fresh pos even word = (
  record { buffer = p; ptr = p; buff_size = size },
  rw fresh refl,
  record {
    mapped = pos;
    low = omega arith;
    high = omega arith;
    word = word;
    aligned = even;
    aligned_buffer = even;
  },
  refl,
  refl,
  refl,
)

-- Room is what is left of the buffer.
room :
    (a : Bump)
    → IsBump a
    → sub64 (add64 a.buffer a.buff_size) a.ptr ≡ a.buffer + a.buff_size - a.ptr
room a v =
    let low = v.low in
    let high = v.high in
    let word = v.word in
    let sum : add64 a.buffer a.buff_size ≡ a.buffer + a.buff_size = mod-eq_of_lt word in
    rw sum (omega arith)

-- What a call that found room does: the block from p to the new `ptr` is in the buffer.
pub record Given (size p : ℕ) (a a' : Bump) : Type 0 where
  pub starts : p ≡ a.ptr
  pub inside : a'.ptr ≤ a.buffer + a.buff_size
  pub fits : p + size ≤ a'.ptr
  pub tight : a'.ptr < p + size + 16
  pub aligned : p % 16 ≡ 0
  pub buffer : a'.buffer ≡ a.buffer
  pub buff_size : a'.buff_size ≡ a.buff_size

pub alloc_malloc-Given :
    (size : ℕ) (a : Bump)
    → IsBump a
    → size + 15 < 2 ^ 64
    → (((a' : Bump) × (alloc_malloc size a ≡ (a.ptr, a')) × IsBump a' × Given size a.ptr a a')
        ⊎ ((alloc_malloc size a ≡ (0, a)) × (a.buffer + a.buff_size < a.ptr + size + 15)))
unfolding alloc_malloc
alloc_malloc-Given size a v small =
    let mapped = v.mapped in
    let low = v.low in
    let high = v.high in
    let word = v.word in
    let even = v.aligned in
    let (up, down, whole) = align_up-small size small in
    let there : (a.ptr == 0) ≡ false = ground arith in
    elim (Bool-cases (ltb (a.buffer + a.buff_size - a.ptr) (align_up size))) [
      | inl full ↦ inr (rw (there, room a v, full) refl, omega tests)
      | inr space ↦
          let next : add64 a.ptr (align_up size) ≡ a.ptr + align_up size =
            mod-eq_of_lt (omega tests) in
          inl (
            record a { ptr = a.ptr + align_up size },
            rw (there, room a v, space, next) refl,
            record {
              mapped = mapped;
              low = omega arith;
              high = omega tests;
              word = word;
              aligned = omega arith;
              aligned_buffer = v.aligned_buffer;
            },
            record {
              starts = refl;
              inside = omega tests;
              fits = omega arith;
              tight = omega arith;
              aligned = even;
              buffer = refl;
              buff_size = refl;
            },
          )
    ]

-- A call per size, with the pointers they return.
unfoldable pub mallocs : List ℕ → Bump → List ℕ × Bump
unfolding alloc_malloc
mallocs [] a = ([], a)
mallocs (size ∷ sizes) a =
    let (p, a') = alloc_malloc size a in let (ps, a'') = mallocs sizes a' in (p ∷ ps, a'')

-- On an allocator with a buffer, alloc_malloc of a 64-bit size above 2^64 - 16 returns the current
-- pointer, which is not null, and reserves nothing.
pub alloc_malloc-overflow :
    (size : ℕ) (a : Bump)
    → IsBump a
    → 2 ^ 64 < size + 16
    → size < 2 ^ 64
    → alloc_malloc size a ≡ (a.ptr, a)
unfolding alloc_malloc
alloc_malloc-overflow size a v large word =
    let mapped = v.mapped in
    let low = v.low in
    let high = v.high in
    let bound = v.word in
    let there : (a.ptr == 0) ≡ false = ground arith in
    let next : add64 a.ptr 0 ≡ a.ptr = omega arith in
    let fits : ltb (sub64 (add64 a.buffer a.buff_size) a.ptr) 0 ≡ false = ground arith in
    rw (there, align_up-large size large word, fits) (ap (λ p. (a.ptr, record a { ptr = p })) next)
