-- ===== src/Engine/Listed.antt =====
-- The orders that the book holds at a pointer, for the map from keys to blocks.
use low_level_programming.Shared.{
  ℕ, ◌≡◌, ◌≢◌, refl, sym, ◌∙◌, ap, inl, inr, true, false, Option, none, some, List, [], ◌∷◌, ◌++◌,
  arith, ◌==◌, if◌then◌else◌, Bool-cases, update, ==→eq,
}
use low_level_programming.Allocator.{Allocator}
use low_level_programming.Engine.State.{OrderBlock, OrderList}
use low_level_programming.Engine.OrderList.Chain.{Entry, has, Chain-split, has-append}
use low_level_programming.Engine.OrderList.Laws.{Apart-swap}
use low_level_programming.Engine.Memory.{Book, Memory, level_unique}

abbrev pub find : ℕ → List Entry → Option Entry
find p [] = none
find p (x ∷ xs) = if x.ptr == p then some x else find p xs

-- Some level holds an order at `p` whose key is `k`.
abbrev pub Listed : Book → ℕ → ℕ → Type 0
Listed book k p = (i : ℕ) × (x : Entry) × (find p (book i) ≡ some x) × (x.key ≡ k)

pub has-find : (p : ℕ) (xs : List Entry) (x : Entry) → find p xs ≡ some x → has p xs ≡ true
has-find p [] x h = cc
has-find p (y ∷ xs) x h = ground (arith, has-find p xs x)

find-remove :
    (p : ℕ) (xs : List Entry) (y : Entry) (ys : List Entry)
    → y.ptr ≢ p
    → find p (xs ++ ys) ≡ find p (xs ++ y ∷ ys)
find-remove p [] y ys ne = ground arith
find-remove p (x ∷ xs) y ys ne = ground (arith, find-remove p xs y ys ne)

find-middle :
    (xs : List Entry) (y : Entry) (ys : List Entry)
    → has y.ptr xs ≡ false
    → find y.ptr (xs ++ y ∷ ys) ≡ some y
find-middle [] y ys out = ground arith
find-middle (x ∷ xs) y ys out = ground (arith, find-middle xs y ys)

-- Where an order stands in its level.
pub find-split :
    (p : ℕ) (zs : List Entry) (y : Entry)
    → find p zs ≡ some y
    → (xs : List Entry) × (ys : List Entry) × (zs ≡ xs ++ y ∷ ys)
      × (y.ptr ≡ p)
      × (has y.ptr xs ≡ false)
find-split p [] y h = cc
find-split p (z ∷ zs) y h = elim (Bool-cases (z.ptr == p)) [
  | inl here ↦
      let e : z ≡ y = ground arith in
      ([], zs, ap (λ t. t ∷ zs) e, ground (arith, ap Entry.ptr e), refl)
  | inr there ↦
      let (xs, ys, e, at, out) = find-split p zs y (rw there at h) in
      (z ∷ xs, ys, ap (λ t. z ∷ t) e, at, ground arith)
]

find-replace :
    (p : ℕ) (xs : List Entry) (y z : Entry) (ys : List Entry) (x : Entry)
    → z.ptr ≡ y.ptr
    → z.key ≡ y.key
    → find p (xs ++ y ∷ ys) ≡ some x
    → (x' : Entry) × (find p (xs ++ z ∷ ys) ≡ some x') × (x'.key ≡ x.key)
find-replace p [] y z ys x same_ptr same_key h = elim (Bool-cases (y.ptr == p)) [
  | inl here ↦ let e : y ≡ x = ground arith in (z, ground arith, same_key ∙ ap Entry.key e)
  | inr there ↦ (x, ground arith, refl)
]
find-replace p (w ∷ xs) y z ys x same_ptr same_key h = elim (Bool-cases (w.ptr == p)) [
  | inl here ↦ (x, ground arith, refl)
  | inr there ↦
      let (x', f, k) = find-replace p xs y z ys x same_ptr same_key (rw there at h) in
      (x', rw there f, k)
]

find-append :
    (p : ℕ) (xs ys : List Entry) (x : Entry) → find p xs ≡ some x → find p (xs ++ ys) ≡ some x
find-append p [] ys x h = cc
find-append p (y ∷ xs) ys x h = ground (arith, find-append p xs ys x)

module _ {pool : Allocator OrderBlock} {levels : ℕ → OrderList} {book : Book} {fs : List ℕ}
    (v : Memory pool levels book fs) (i : ℕ) where
  module _ (xs : List Entry) (y : Entry) (ys : List Entry) (at_i : book i ≡ xs ++ y ∷ ys) where
    y_not_before : has y.ptr xs ≡ false
    y_not_before =
        let (cx, cy, apart) =
          Chain-split pool.slots none xs (y ∷ ys) none (rw at_i at (v.links i).chain) in
        Apart-swap xs (y ∷ ys) apart y.ptr (ground arith)

    pub y_in_level : has y.ptr (book i) ≡ true
    y_in_level = rw at_i (ground (arith, has-append y.ptr xs (y ∷ ys)))

    -- An order with another key is still listed when `y` has left.
    pub Listed-remove :
        (k p : ℕ) → y.key ≢ k → Listed book k p → Listed (update book i (xs ++ ys)) k p
    Listed-remove k p other (j, x, f, e) =
        let away : y.ptr ≢ p = λ at.
          let j_i : i ≡ j = level_unique v i j p (rw at at y_in_level) (has-find p (book j) x f) in
          let f_i : find y.ptr (book i) ≡ some x = rw (at, j_i) f in
          let f_y : find y.ptr (book i) ≡ some y = rw at_i (find-middle xs y ys y_not_before) in
          let x_y : x ≡ y = ground arith in other (ap Entry.key (sym x_y) ∙ e) in
        (
          j,
          x,
          (elim (Bool-cases (i == j)) [
            | inl here ↦ rw (here, find-remove p xs y ys away, ← at_i, ==→eq i j here) f
            | inr there ↦ rw there f
          ]),
          e,
        )

    -- A new entry for the same block and key keeps every order listed.
    pub Listed-replace :
        (z : Entry) (k p : ℕ)
        → z.ptr ≡ y.ptr
        → z.key ≡ y.key
        → Listed book k p
        → Listed (update book i (xs ++ z ∷ ys)) k p
    Listed-replace z k p same_ptr same_key (j, x, f, e) = elim (Bool-cases (i == j)) [
      | inl here ↦
          let f_i : find p (xs ++ y ∷ ys) ≡ some x = rw (← at_i, ==→eq i j here) f in
          let (x', f', k') = find-replace p xs y z ys x same_ptr same_key f_i in
          (j, x', rw here f', k' ∙ e)
      | inr there ↦ (j, x, rw there f, e)
    ]

pub Listed-append :
    (book : Book) (i : ℕ) (z : Entry) (k p : ℕ)
    → Listed book k p
    → Listed (update book i (book i ++ z ∷ [])) k p
Listed-append book i z k p (j, x, f, e) = elim (Bool-cases (i == j)) [
  | inl here ↦ (j, x, rw here (find-append p (book i) (z ∷ []) x (rw (==→eq i j here) f)), e)
  | inr there ↦ (j, x, rw there f, e)
]

pub Listed-new :
    (book : Book) (i : ℕ) (z : Entry)
    → has z.ptr (book i) ≡ false
    → Listed (update book i (book i ++ z ∷ [])) z.key z.ptr
Listed-new book i z out = (i, z, (ground (arith, find-middle (book i) z [] out)), refl)
