-- ===== src/Allocator.antt =====
-- `Allocator` of 4_order_book_proj/src/allocator.hpp: a pool of `Size` slots in one mapped region.
-- A pointer is the index of a slot, `none` the null pointer. A slot holds either the link of the
-- free list or a `T`, which share its bytes: to read a link out of a `T`, or to follow the null
-- pointer, is undefined. `mmap` is outside: `mapped` says whether it succeeded.
pub mod FreeList
pub mod Pool
mod Tests
use low_level_programming.Shared.{
  ℕ, zero, suc, ◌-◌, Bool, Option, none, some, is_none, if◌then◌else◌, Outcome, ok, fault, thrown,
  update,
}

abbrev pub Pointer : Type 0
Pointer = Option ℕ

pub data Slot {ℓ} (A : Type ℓ) : Type ℓ where
  free : (next : Pointer) → Slot A
  used : A → Slot A

pub record Allocator {ℓ} (A : Type ℓ) : Type ℓ where
  pub slots : ℕ → Slot A
  pub free_head : Pointer

module _ {ℓ} {A : Type ℓ} where
  -- `while (current > buffer)`: the slot below gets a link to the one at `current`
  unfoldable pub link_down : ℕ → (ℕ → Slot A) → ℕ → Slot A
  link_down zero slots = slots
  link_down (suc current) slots =
      link_down current (update slots current (free (some (suc current))))

  -- the constructor; a fresh mapping is all zero
  unfoldable pub new : (mapped : Bool) (size : ℕ) → Outcome (Allocator A)
  unfolding link_down
  new mapped size =
      if mapped
      then ok (record {
        slots = link_down (size - 1) (update (λ _. free none) (size - 1) (free none));
        free_head = some 0;
      })
      else thrown

  abbrev pub full : Allocator A → Bool
  full a = is_none a.free_head

  abbrev pub take_head : Allocator A → Pointer → Outcome (Pointer × Allocator A)
  take_head a none = fault
  take_head a (some head) = elim (a.slots head) [
    | free next ↦ ok (some head, record a { free_head = next })
    | used _ ↦ fault
  ]

  unfoldable pub allocate : Allocator A → Outcome (Pointer × Allocator A)
  allocate a = if full a then ok (none, a) else take_head a a.free_head

  unfoldable pub deallocate : Allocator A → Pointer → Outcome (Allocator A)
  deallocate a none = fault
  deallocate a (some node) =
      ok (record a { slots = update a.slots node (free a.free_head); free_head = some node })
