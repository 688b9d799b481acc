-- ===== src/Allocator/FreeList.antt =====
-- The free list: from `free_head` the links lead through distinct slots to null.
use low_level_programming.Shared.{
  ℕ, ◌≡◌, refl, ◌∙◌, inl, inr, Bool, true, false, ◌||◌, none, some, List, [], ◌∷◌, arith, ◌==◌,
  Bool-cases, update,
}
use low_level_programming.Allocator.{Pointer, Slot, free, used}

abbrev pub has : ℕ → List ℕ → Bool
has p [] = false
has p (x ∷ xs) = (x == p) || has p xs

-- the first pointer of a list
abbrev pub first : List ℕ → Pointer
first [] = none
first (x ∷ xs) = some x

module _ {ℓ} {A : Type ℓ} where
  abbrev pub FreeList : (ℕ → Slot A) → List ℕ → Type ℓ
  FreeList m [] = Unit
  FreeList m (x ∷ xs) = (m x ≡ free (first xs)) × (has x xs ≡ false) × FreeList m xs

  -- A write outside the list leaves it as it is.
  pub FreeList-update :
      (m : ℕ → Slot A) (xs : List ℕ) (p : ℕ) (s : Slot A)
      → has p xs ≡ false
      → FreeList m xs
      → FreeList (update m p s) xs
  FreeList-update m [] p s out f = tt
  FreeList-update m (x ∷ xs) p s out f =
      (ground arith, f.1, FreeList-update m xs p s (ground arith) f.2)

  -- So does any change that spares the slots on the list.
  pub FreeList-frame :
      (m m' : ℕ → Slot A) (xs : List ℕ)
      → ((q : ℕ) → has q xs ≡ true → m' q ≡ m q)
      → FreeList m xs
      → FreeList m' xs
  FreeList-frame m m' [] same f = tt
  FreeList-frame m m' (x ∷ xs) same f =
      (same x (ground arith) ∙ f.0, f.1, FreeList-frame m m' xs (λ q h. same q (ground arith)) f.2)

  -- A slot that is in use is not on the free list.
  pub not-has_of_used :
      (m : ℕ → Slot A) (xs : List ℕ) (p : ℕ) (a : A)
      → m p ≡ used a
      → FreeList m xs
      → has p xs ≡ false
  not-has_of_used m [] p a u f = refl
  not-has_of_used m (x ∷ xs) p a u f = elim (Bool-cases (x == p)) [
    | inl e ↦ ground arith
    | inr ne ↦ rw ne (not-has_of_used m xs p a u f.2)
  ]
