-- ===== src/Arenas/Arena.antt =====
-- `Arena` of 2_cpp_basics/0_bump_allocator/allocator.h and allocator.cpp. `alloc<T>(count)` takes the
-- size of T as a parameter.
use low_level_programming.Shared.{
  ℕ, ◌+◌, ◌*◌, ◌%◌, ◌^◌, ◌<◌, ◌≤◌, ◌≡◌, ◌⊎◌, refl, Option, none, some, ltb, if◌then◌else◌, add64,
  u64, arith, tests, Bool-cases, inl, inr,
}
use low_level_programming.Arenas.Align.{align_up, align_up-small}
use native.Mathlib.Nat.{mod-eq_of_lt}

pub record Arena : Type 0 where
  pub size : ℕ
  pub start_ptr : ℕ
  pub curr_ptr : ℕ

-- the constructor, which ends the process when `mmap` fails
unfoldable pub new : (mapped : Option ℕ) → (size : ℕ) → Option Arena
new none size = none
new (some p) size = some (record { size = size; start_ptr = p; curr_ptr = p })

unfoldable pub alloc : (size_of : ℕ) → (count : ℕ) → Arena → ℕ × Arena
alloc size_of count a =
    let aligned = align_up (u64 (count * size_of)) in
    if ltb (add64 a.start_ptr a.size) (add64 a.curr_ptr aligned)
    then (0, a)
    else (a.curr_ptr, record a { curr_ptr = add64 a.curr_ptr aligned })

unfoldable pub dealloc : ℕ → Arena → ℕ × Arena
dealloc p a = (0, a)

unfoldable pub reset : Arena → ℕ × Arena
reset a = (0, record a { curr_ptr = a.start_ptr })

pub record IsArena (a : Arena) : Type 0 where
  pub mapped : 0 < a.start_ptr
  pub low : a.start_ptr ≤ a.curr_ptr
  pub high : a.curr_ptr ≤ a.start_ptr + a.size
  pub word : a.start_ptr + a.size < 2 ^ 64
  pub aligned : a.curr_ptr % 16 ≡ 0
  pub aligned_start : a.start_ptr % 16 ≡ 0

-- On a valid arena, when the end of the objects is at least 15 below 2^64, alloc returns the
-- current pointer, moves it past them by less than 16 more, and leaves a valid arena with the
-- current pointer aligned and in range, or it returns null and changes nothing, and the bytes that
-- are left are fewer than those of the objects and 15 more.
pub alloc-IsArena :
    (size_of count : ℕ) (a : Arena)
    → IsArena a
    → a.curr_ptr + count * size_of + 15 < 2 ^ 64
    → (((a' : Arena) × (alloc size_of count a ≡ (a.curr_ptr, a'))
          × IsArena a'
          × (a.curr_ptr + count * size_of ≤ a'.curr_ptr)
          × (a'.curr_ptr < a.curr_ptr + count * size_of + 16)
          × (a'.start_ptr ≡ a.start_ptr)
          × (a'.size ≡ a.size))
        ⊎ ((alloc size_of count a ≡ (0, a))
            × (a.start_ptr + a.size < a.curr_ptr + count * size_of + 15)))
unfolding alloc
alloc-IsArena size_of count a v small =
    let mapped = v.mapped in
    let low = v.low in
    let high = v.high in
    let word = v.word in
    let even = v.aligned in
    let bytes = count * size_of in
    let (up, down, whole) = align_up-small bytes (omega arith) in
    let wide : u64 bytes ≡ bytes = mod-eq_of_lt (omega arith) in
    let sum : add64 a.start_ptr a.size ≡ a.start_ptr + a.size = mod-eq_of_lt word in
    let next : add64 a.curr_ptr (align_up bytes) ≡ a.curr_ptr + align_up bytes =
      mod-eq_of_lt (omega arith) in
    elim (Bool-cases (ltb (a.start_ptr + a.size) (a.curr_ptr + align_up bytes))) [
      | inl full ↦ inr (rw (wide, sum, next, full) refl, omega tests)
      | inr space ↦ inl (
        record a { curr_ptr = a.curr_ptr + align_up bytes },
        rw (wide, sum, next, space) refl,
        record {
          mapped = mapped;
          low = omega arith;
          high = omega tests;
          word = word;
          aligned = omega arith;
          aligned_start = v.aligned_start;
        },
        omega arith,
        omega arith,
        refl,
        refl,
      )
    ]
