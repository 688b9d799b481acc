-- ===== src/ListBook/Agree.antt =====
-- A side of the list book beside a vector of the sorted vector book: the same orders, reversed.
use low_level_programming.Shared.{
  ℕ, suc, ◌+◌, ◌-◌, ◌<◌, ◌≤◌, ◌≡◌, ◌≢◌, refl, sym, ◌∙◌, ap, Bool, false, none, some, List, [], ◌∷◌,
  ◌++◌, reverse, arith, All, Bool-cases, inl, inr, ◌==◌, length, ok, length-reverse,
}
use low_level_programming.VectorBook.{Order, place, back, pop_back, set_back, fill_back}
use low_level_programming.ListBook.{Side, insert_block, reduce, remove, remove_filled}
use low_level_programming.ListBook.Chain.{Entry, orders, find}
use low_level_programming.ListBook.Sides.{IsSide}
use low_level_programming.ListBook.Sides.Insert.{insert_block-IsSide}
use low_level_programming.ListBook.Leave.{
  remove-IsSide, reduce-IsSide, remove_filled-IsSide, less_by, without_filled,
}
use low_level_programming.ListBook.Priority.{
  IsPriority, Sorted, reverse-cons, All-map, All-place, place-Sorted, place-reverse,
}

-- The side stands for `xs`, best first, with identifiers up to the counter.
pub record Agrees (greater : Order → Order → Bool) (counter : ℕ) (s : Side) (xs : List Entry)
    : Type 0 where
  pub side : IsSide s xs
  pub sorted : Sorted greater (orders xs)
  pub ids : All (λ o. o.id ≤ counter) (orders xs)

-- the vector that a side agrees with
abbrev pub vector : List Entry → List Order
vector xs = reverse (orders xs)

pub length-vector : (xs : List Entry) → length (vector xs) ≡ length xs
length-vector xs = length-reverse (orders xs) ∙ length-orders xs
  where
    length-orders : (xs : List Entry) → length (orders xs) ≡ length xs
    length-orders [] = refl
    length-orders (x ∷ xs) = ap suc (length-orders xs)

back-snoc : (ys : List Order) (x : Order) → back (ys ++ x ∷ []) ≡ some x
back-snoc [] x = refl
back-snoc (y ∷ []) x = refl
back-snoc (y ∷ z ∷ ys) x = back-snoc (z ∷ ys) x

pop_back-snoc : (ys : List Order) (x : Order) → pop_back (ys ++ x ∷ []) ≡ ys
pop_back-snoc [] x = refl
pop_back-snoc (y ∷ []) x = refl
pop_back-snoc (y ∷ z ∷ ys) x = ap (λ t. y ∷ t) (pop_back-snoc (z ∷ ys) x)

set_back-snoc :
    (ys : List Order) (x : Order) (n : ℕ)
    → set_back (ys ++ x ∷ []) n ≡ ys ++ record x { size = n } ∷ []
set_back-snoc [] x n = refl
set_back-snoc (y ∷ []) x n = refl
set_back-snoc (y ∷ z ∷ ys) x n = ap (λ t. y ∷ t) (set_back-snoc (z ∷ ys) x n)

-- The head of the side is the back of the vector.
pub back-vector : (x : Entry) (xs : List Entry) → back (vector (x ∷ xs)) ≡ some x.order
back-vector x xs = ap back (reverse-cons x.order (orders xs)) ∙ back-snoc (vector xs) x.order

pub pop_back-vector : (x : Entry) (xs : List Entry) → pop_back (vector (x ∷ xs)) ≡ vector xs
pop_back-vector x xs =
    ap pop_back (reverse-cons x.order (orders xs)) ∙ pop_back-snoc (vector xs) x.order

pub set_back-vector :
    (x : Entry) (xs : List Entry) (fill : ℕ)
    → set_back (vector (x ∷ xs)) (x.order.size - fill) ≡ vector (less_by fill x ∷ xs)
set_back-vector x xs fill =
    ap (λ t. set_back t (x.order.size - fill)) (reverse-cons x.order (orders xs))
    ∙ set_back-snoc (vector xs) x.order (x.order.size - fill)
    ∙ sym (reverse-cons (record x.order { size = x.order.size - fill }) (orders xs))

pub fill_back-vector :
    (x : Entry) (xs : List Entry) (fill : ℕ)
    → fill_back (vector (x ∷ xs)) x.order fill ≡ vector (without_filled (less_by fill x) xs)
fill_back-vector x xs fill = elim (Bool-cases (x.order.size - fill == 0)) [
  | inl empty ↦ rw empty (pop_back-vector x xs)
  | inr left ↦ rw left (set_back-vector x xs fill)
]

find_fresh : (id : ℕ) (xs : List Entry) → All (λ o. o.id < id) (orders xs) → find id xs ≡ none
find_fresh id [] h = refl
find_fresh id (x ∷ xs) h = rw (lt-ne x.order.id id h.0) (find_fresh id xs h.1)
  where
    lt-ne : (a b : ℕ) → a < b → (a == b) ≡ false
    lt-ne a b h = ground arith

pub Agrees-raise :
    {greater : Order → Order → Bool} {c c' : ℕ} {s : Side} {xs : List Entry}
    → c ≤ c'
    → Agrees greater c s xs
    → Agrees greater c' s xs
Agrees-raise {xs = xs} le a = record {
  side = a.side;
  sorted = a.sorted;
  ids = All-map (λ o h. omega arith) (orders xs) a.ids;
}

module _ {greater less : Order → Order → Bool} (pr : IsPriority greater less) (c : ℕ) where
  -- A new order, with the next identifier, goes to the same place of both.
  pub insert_block-Agrees :
      (fuel : ℕ) (o : Order) (s : Side) (xs : List Entry)
      → Agrees greater c s xs
      → o.id ≡ c + 1
      → length xs < fuel
      → (s' : Side) × (xs' : List Entry) × (insert_block fuel greater o s ≡ ok s')
        × Agrees greater (c + 1) s' xs'
        × (place less o (vector xs) ≡ vector xs')
  insert_block-Agrees fuel o s xs a is enough =
      let (s', xs', run, side, at) =
        insert_block-IsSide fuel greater o s xs a.side
          (find_fresh o.id xs (All-map (λ y h. omega arith) (orders xs) a.ids)) enough in
      let ne : All (λ y. y.id ≢ o.id) (orders xs) =
        All-map (λ y h e. omega arith) (orders xs) a.ids in
      (
        s',
        xs',
        run,
        record {
          side = side;
          sorted = rw at (place-Sorted pr o (orders xs) a.sorted ne);
          ids = rw at (
              All-place (λ y. y.id ≤ c + 1) greater o (orders xs) (omega arith)
                (All-map (λ y h. omega arith) (orders xs) a.ids));
        },
        place-reverse pr o (orders xs) a.sorted ne ∙ ap reverse (sym at),
      )

  pub reduce-Agrees :
      (s : Side) (fill : ℕ) (x : Entry) (xs : List Entry)
      → Agrees greater c s (x ∷ xs)
      → (s' : Side) × (reduce (some x.ptr) fill s ≡ ok s')
        × Agrees greater c s' (less_by fill x ∷ xs)
  reduce-Agrees s fill x xs a =
      let (s', run, side) = reduce-IsSide s fill x xs a.side in
      (
        s',
        run,
        record {
          side = side;
          sorted = (
            All-map (λ y h. pr.resize x.order y (x.order.size - fill) ∙ h) (orders xs) a.sorted.0,
            a.sorted.1,
          );
          ids = a.ids;
        },
      )

  pub remove-Agrees :
      (s : Side) (x : Entry) (xs : List Entry)
      → Agrees greater c s (x ∷ xs)
      → (s' : Side) × (remove (some x.ptr) s ≡ ok s') × Agrees greater c s' xs
  remove-Agrees s x xs a =
      let (s', run, side) = remove-IsSide s [] x xs a.side in
      (s', run, record { side = side; sorted = a.sorted.1; ids = a.ids.1 })

  pub remove_filled-Agrees :
      (s : Side) (x : Entry) (xs : List Entry)
      → Agrees greater c s (x ∷ xs)
      → (s' : Side) × (remove_filled (some x.ptr) s ≡ ok s')
        × Agrees greater c s' (without_filled x xs)
  remove_filled-Agrees s x xs a =
      let (s', run, side) = remove_filled-IsSide s x xs a.side in
      (
        s',
        run,
        elim (Bool-cases (x.order.size == 0)) [
          | inl empty ↦
              rw empty (record { side = rw empty at side; sorted = a.sorted.1; ids = a.ids.1 })
          | inr left ↦ rw left (record { side = rw left at side; sorted = a.sorted; ids = a.ids })
        ],
      )
