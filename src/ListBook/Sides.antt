-- ===== src/ListBook/Sides.antt =====
-- A side of the list book, its links and its index, as the list of its orders.
pub mod Insert
use low_level_programming.Shared.{
  ℕ, zero, suc, ◌<◌, ◌≡◌, ◌≢◌, refl, sym, subst, ◌∙◌, ap, Bool, false, none, some, List, [], ◌∷◌,
  ◌++◌, append-nil, arith, ◌==◌, ==→eq, if◌then◌else◌, update, update_self, Bool-cases, inl, inr,
  ok, length,
}
use low_level_programming.VectorBook.{Order, place}
use low_level_programming.ListBook.{Pointer, Heap, Side, seek, new_block, insert_block}
use low_level_programming.ListBook.Chain.{
  Entry, orders, has, find, first, block_of, Chain, Chain-frame, load-at,
}
use low_level_programming.ListBook.Links.{IsLinked}

-- no two orders with one identifier
abbrev pub Distinct : List Entry → Type 0
Distinct [] = Unit
Distinct (x ∷ xs) = (find x.order.id xs ≡ none) × Distinct xs

pub record IsSide (s : Side) (xs : List Entry) : Type 0 where
  pub linked : IsLinked s xs
  pub index : (id : ℕ) → s.index id ≡ find id xs
  pub distinct : Distinct xs

pub find-insert :
    (id : ℕ) (xs : List Entry) (y : Entry) (ys : List Entry)
    → find y.order.id (xs ++ ys) ≡ none
    → find id (xs ++ y ∷ ys) ≡ (if y.order.id == id then some y.ptr else find id (xs ++ ys))
find-insert id [] y ys h = refl
find-insert id (x ∷ xs) y ys h = elim (Bool-cases (x.order.id == y.order.id)) [
  | inl same ↦ absurd (ground arith)
  | inr other ↦
      let rest : find y.order.id (xs ++ ys) ≡ none = rw other at h in
      ground (arith, find-insert id xs y ys rest)
]

pub Distinct-insert :
    (xs : List Entry) (y : Entry) (ys : List Entry)
    → Distinct (xs ++ ys)
    → find y.order.id (xs ++ ys) ≡ none
    → Distinct (xs ++ y ∷ ys)
Distinct-insert [] y ys d h = (h, d)
Distinct-insert (x ∷ xs) y ys d h = elim (Bool-cases (x.order.id == y.order.id)) [
  | inl same ↦ absurd (ground arith)
  | inr other ↦
      let rest : find y.order.id (xs ++ ys) ≡ none = rw other at h in
      (find-insert x.order.id xs y ys rest ∙ (ground arith), Distinct-insert xs y ys d.1 rest)
]

find-drop :
    (id : ℕ) (xs : List Entry) (y : Entry) (ys : List Entry)
    → find id (xs ++ y ∷ ys) ≡ none
    → find id (xs ++ ys) ≡ none
find-drop id [] y ys h = ground arith
find-drop id (x ∷ xs) y ys h = elim (Bool-cases (x.order.id == id)) [
  | inl same ↦ absurd (ground arith)
  | inr other ↦ rw other (find-drop id xs y ys (rw other at h))
]

find-middle :
    (xs : List Entry) (y : Entry) (ys : List Entry) → find y.order.id (xs ++ y ∷ ys) ≢ none
find-middle [] y ys h = ground arith
find-middle (x ∷ xs) y ys h = elim (Bool-cases (x.order.id == y.order.id)) [
  | inl same ↦ ground arith
  | inr other ↦ find-middle xs y ys (rw other at h)
]

pub Distinct-drop :
    (xs : List Entry) (y : Entry) (ys : List Entry)
    → Distinct (xs ++ y ∷ ys)
    → Distinct (xs ++ ys) × (find y.order.id (xs ++ ys) ≡ none)
Distinct-drop [] y ys d = (d.1, d.0)
Distinct-drop (x ∷ xs) y ys d = elim (Bool-cases (x.order.id == y.order.id)) [
  | inl same ↦
      let e : x.order.id ≡ y.order.id = ==→eq x.order.id y.order.id same in
      absurd (find-middle xs y ys (subst (λ i. find i (xs ++ y ∷ ys) ≡ none) e d.0))
  | inr other ↦
      let (rest, out) = Distinct-drop xs y ys d.1 in
      ((find-drop x.order.id xs y ys d.0, rest), rw other out)
]
