-- ===== src/ListBook/Erase.antt =====
-- The order with an identifier, in a side and in a vector.
use low_level_programming.Shared.{
  ℕ, ◌≤◌, ◌≡◌, refl, sym, subst, ◌∙◌, ap, Bool, true, false, none, some, List, [], ◌∷◌, ◌++◌,
  reverse, reverse-append, append_assoc, arith, All, All-drop, Bool-cases, inl, inr, ◌==◌, ==→eq,
  ==-refl, length, length-append, ok,
}
use low_level_programming.VectorBook.{Order, find_erase}
use low_level_programming.ListBook.{Side, cancel_block}
use low_level_programming.ListBook.Chain.{Entry, orders, find}
use low_level_programming.ListBook.Sides.{Distinct, Distinct-drop}
use low_level_programming.ListBook.Leave.{cancel_block-IsSide}
use low_level_programming.ListBook.Priority.{Sorted, reverse-cons, All-reverse}
use low_level_programming.ListBook.Agree.{Agrees, vector}

orders-append : (xs ys : List Entry) → orders (xs ++ ys) ≡ orders xs ++ orders ys
orders-append [] ys = refl
orders-append (x ∷ xs) ys = ap (λ t. x.order ∷ t) (orders-append xs ys)

vector-append : (xs ys : List Entry) → vector (xs ++ ys) ≡ vector ys ++ vector xs
vector-append xs ys = ap reverse (orders-append xs ys) ∙ reverse-append (orders xs) (orders ys)

vector-middle :
    (xs : List Entry) (y : Entry) (ys : List Entry)
    → vector (xs ++ y ∷ ys) ≡ vector ys ++ y.order ∷ vector xs
vector-middle xs y ys =
    vector-append xs (y ∷ ys)
    ∙ ap (λ t. t ++ vector xs) (reverse-cons y.order (orders ys))
    ∙ append_assoc (vector ys) (y.order ∷ []) (vector xs)

abbrev Other : ℕ → Order → Type 0
Other id o = (o.id == id) ≡ false

find-Other : (id : ℕ) (xs : List Entry) → find id xs ≡ none → All (Other id) (orders xs)
find-Other id [] h = tt
find-Other id (x ∷ xs) h = elim (Bool-cases (x.order.id == id)) [
  | inl same ↦ absurd (ground arith)
  | inr other ↦ (other, find-Other id xs (rw other at h))
]

find_erase-none : (id : ℕ) (xs : List Order) → All (Other id) xs → find_erase id xs ≡ none
find_erase-none id [] h = refl
find_erase-none id (x ∷ xs) h = rw (h.0, find_erase-none id xs h.1) refl

find_erase-middle :
    (xs : List Order) (y : Order) (ys : List Order)
    → All (Other y.id) xs
    → find_erase y.id (xs ++ y ∷ ys) ≡ some (xs ++ ys)
find_erase-middle [] y ys h = rw (==-refl y.id) refl
find_erase-middle (x ∷ xs) y ys h = rw (h.0, find_erase-middle xs y ys h.1) refl

All-right {ℓ κ} : {A : Type ℓ} (P : A → Type κ) (xs ys : List A) → All P (xs ++ ys) → All P ys
All-right P [] ys h = h
All-right P (x ∷ xs) ys h = All-right P xs ys h.1

Sorted-drop :
    (greater : Order → Order → Bool) (xs : List Order) (y : Order) (ys : List Order)
    → Sorted greater (xs ++ y ∷ ys)
    → Sorted greater (xs ++ ys)
Sorted-drop greater [] y ys s = s.1
Sorted-drop greater (x ∷ xs) y ys s =
    (All-drop (λ z. greater x z ≡ true) xs y ys s.0, Sorted-drop greater xs y ys s.1)

-- What an identifier leads to.
pub data Found (id : ℕ) (xs : List Entry) : Type 0 where
  nowhere : find id xs ≡ none → Found id xs
  among :
      (gs : List Entry) (y : Entry) (ls : List Entry)
      → xs ≡ gs ++ y ∷ ls
      → y.order.id ≡ id
      → find id xs ≡ some y.ptr
      → Found id xs

pub lookup : (id : ℕ) (xs : List Entry) → Found id xs
lookup id [] = nowhere refl
lookup id (x ∷ xs) = elim (Bool-cases (x.order.id == id)) [
  | inl same ↦ among [] x xs refl (==→eq x.order.id id same) (rw same refl)
  | inr other ↦ elim (lookup id xs) [
    | nowhere h ↦ nowhere (rw other h)
    | among gs y ls split is at ↦ among (x ∷ gs) y ls (ap (λ t. x ∷ t) split) is (rw other at)
  ]
]

pub find_erase-missing :
    (id : ℕ) (xs : List Entry) → find id xs ≡ none → find_erase id (vector xs) ≡ none
find_erase-missing id xs h =
    find_erase-none id (vector xs) (All-reverse (Other id) (orders xs) (find-Other id xs h))

find_erase-vector :
    (gs : List Entry) (y : Entry) (ls : List Entry)
    → Distinct (gs ++ y ∷ ls)
    → find_erase y.order.id (vector (gs ++ y ∷ ls)) ≡ some (vector (gs ++ ls))
find_erase-vector gs y ls d =
    let out : find y.order.id (gs ++ ls) ≡ none = (Distinct-drop gs y ls d).1 in
    let apart : All (Other y.order.id) (orders ls) =
      All-right (Other y.order.id) (orders gs) (orders ls)
        (rw (orders-append gs ls) at (find-Other y.order.id (gs ++ ls) out)) in
    ap (find_erase y.order.id) (vector-middle gs y ls)
    ∙ find_erase-middle (vector ls) y.order (vector gs)
        (All-reverse (Other y.order.id) (orders ls) apart)
    ∙ ap some (sym (vector-append gs ls))

cancel_block-Agrees :
    (greater : Order → Order → Bool) (c : ℕ) (s : Side) (gs : List Entry) (y : Entry)
    (ls : List Entry)
    → Agrees greater c s (gs ++ y ∷ ls)
    → (s' : Side) × (cancel_block y.order.id (some y.ptr) s ≡ ok s')
      × Agrees greater c s' (gs ++ ls)
cancel_block-Agrees greater c s gs y ls a =
    let (s', run, side) = cancel_block-IsSide s gs y ls a.side in
    let split = orders-append gs (y ∷ ls) in
    let joined = orders-append gs ls in
    (
      s',
      run,
      record {
        side = side;
        sorted = subst (Sorted greater) (sym joined) (
            Sorted-drop greater (orders gs) y.order (orders ls)
              (subst (Sorted greater) split a.sorted));
        ids = subst (All (λ o. o.id ≤ c)) (sym joined) (
            All-drop (λ o. o.id ≤ c) (orders gs) y.order (orders ls)
              (subst (All (λ o. o.id ≤ c)) split a.ids));
      },
    )

-- The order of an identifier that is found leaves both.
pub cancel_found :
    (greater : Order → Order → Bool) (c id : ℕ) (s : Side) (xs gs : List Entry) (y : Entry)
    (ls : List Entry)
    → Agrees greater c s xs
    → xs ≡ gs ++ y ∷ ls
    → y.order.id ≡ id
    → (s' : Side) × (xs' : List Entry) × (cancel_block id (some y.ptr) s ≡ ok s')
      × (find_erase id (vector xs) ≡ some (vector xs'))
      × Agrees greater c s' xs'
      × (length xs' ≤ length xs)
cancel_found greater c id s xs gs y ls a split is =
    let b : Agrees greater c s (gs ++ y ∷ ls) = subst (Agrees greater c s) split a in
    let (s', run, a') = cancel_block-Agrees greater c s gs y ls b in
    (
      s',
      gs ++ ls,
      subst (λ i. cancel_block i (some y.ptr) s ≡ ok s') is run,
      ap (λ t. find_erase id (vector t)) split
          ∙ subst (λ i. find_erase i (vector (gs ++ y ∷ ls)) ≡ some (vector (gs ++ ls))) is
              (find_erase-vector gs y ls b.side.distinct),
      a',
      omega (arith, ap length split, length-append gs (y ∷ ls), length-append gs ls),
    )
