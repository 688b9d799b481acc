-- ===== src/ListBook/Links.antt =====
-- A linked side, and what its addresses are after a change.
pub mod Unlink
pub mod Insert
use low_level_programming.Shared.{
  ℕ, ◌<◌, ◌≡◌, refl, sym, ◌∙◌, ap, true, false, ◌||◌, none, some, List, [], ◌∷◌, ◌++◌, arith, ◌==◌,
  update, update_self, Bool-cases, inl, inr, ok,
}
use low_level_programming.ListBook.{
  Pointer, Block, Heap, Side, link_next, link_prev, link_before, link_last, unlink,
}
use low_level_programming.ListBook.Chain.{
  Entry, has, first, last, block_of, Chain, Apart, has-append, first-append, last-append,
  Chain-frame, Chain-split, Chain-join, load-at, set_next-at, set_prev-at, link_next-Chain,
  link_prev-Chain,
}

pub record IsLinked (s : Side) (xs : List Entry) : Type 0 where
  pub head : s.head ≡ first none xs
  pub tail : s.tail ≡ last none xs
  pub chain : Chain s.blocks none xs none
  pub below : (q : ℕ) → has q xs ≡ true → q < s.fresh

pub Apart-swap : (xs ys : List Entry) → Apart xs ys → (q : ℕ) → has q ys ≡ true → has q xs ≡ false
Apart-swap xs ys apart q h = elim (Bool-cases (has q xs)) [
  | inl yes_x ↦ ground (arith, apart q yes_x)
  | inr no_x ↦ no_x
]

pub has-drop :
    (q : ℕ) (xs : List Entry) (y : Entry) (ys : List Entry)
    → has q (xs ++ ys) ≡ true
    → has q (xs ++ y ∷ ys) ≡ true
has-drop q xs y ys h = ground (arith, has-append q xs ys, has-append q xs (y ∷ ys))

pub has-insert :
    (q : ℕ) (xs : List Entry) (x : Entry) (ys : List Entry)
    → has q (xs ++ x ∷ ys) ≡ true
    → has q (xs ++ ys) ≡ false
    → x.ptr ≡ q
has-insert q xs x ys h k = ground (arith, has-append q xs ys, has-append q xs (x ∷ ys))

-- An address outside of a list is at none of its parts.
pub has-parts :
    (q : ℕ) (xs : List Entry) (y : Entry) (ys : List Entry)
    → has q (xs ++ y ∷ ys) ≡ false
    → ((q == y.ptr) ≡ false) × ((y.ptr == q) ≡ false) × (has q xs ≡ false) × (has q ys ≡ false)
has-parts q xs y ys h =
    let e : (has q xs || ((y.ptr == q) || has q ys)) ≡ false = sym (has-append q xs (y ∷ ys)) ∙ h in
    (ground (arith, e), ground (arith, e), ground (arith, e), ground (arith, e))

-- The addresses of a list with a new node are below `fresh`.
pub below_insert :
    (s : Side) (xs : List Entry) (x : Entry) (ys : List Entry)
    → ((q : ℕ) → has q (xs ++ ys) ≡ true → q < s.fresh)
    → x.ptr < s.fresh
    → (q : ℕ) → has q (xs ++ x ∷ ys) ≡ true
    → q < s.fresh
below_insert s xs x ys b old q h = elim (Bool-cases (has q (xs ++ ys))) [
  | inl yes_q ↦ b q yes_q
  | inr no_q ↦ omega (arith, has-insert q xs x ys h no_q)
]
