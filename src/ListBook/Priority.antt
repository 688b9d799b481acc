-- ===== src/ListBook/Priority.antt =====
-- The two orders of base.hpp, best first, and the insertion by either of them.
use low_level_programming.Shared.{
  ℕ, ◌≡◌, ◌≢◌, refl, sym, ◌∙◌, ap, Bool, true, false, List, [], ◌∷◌, ◌++◌, reverse, reverse-append,
  arith, All, All-append, Bool-cases, inl, inr,
}
use low_level_programming.VectorBook.{Order, place, buy_less, sell_less}
use low_level_programming.ListBook.{buy_greater, sell_greater}

-- `greater` is a strict total order of the orders with distinct identifiers, blind to the size, and
-- `less` is its converse.
pub record IsPriority (greater less : Order → Order → Bool) : Type 0 where
  pub resize : (o o2 : Order) (n : ℕ) → greater (record o { size = n }) o2 ≡ greater o o2
  pub converse : (o o2 : Order) → less o o2 ≡ greater o2 o
  pub total : (o o2 : Order) → o.id ≢ o2.id → greater o o2 ≡ false → greater o2 o ≡ true
  pub asymmetric : (o o2 : Order) → greater o o2 ≡ true → greater o2 o ≡ false
  pub transitive :
      (o o2 o3 : Order) → greater o o2 ≡ true → greater o2 o3 ≡ true → greater o o3 ≡ true

pub buy-IsPriority : IsPriority buy_greater buy_less
unfolding buy_greater buy_less
buy-IsPriority = record {
  resize = λ o o2 n. refl;
  converse = λ o o2. ground arith;
  total = λ o o2 ne h. ground arith;
  asymmetric = λ o o2 h. ground arith;
  transitive = λ o o2 o3 h k. ground arith;
}

pub sell-IsPriority : IsPriority sell_greater sell_less
unfolding sell_greater sell_less
sell-IsPriority = record {
  resize = λ o o2 n. refl;
  converse = λ o o2. ground arith;
  total = λ o o2 ne h. ground arith;
  asymmetric = λ o o2 h. ground arith;
  transitive = λ o o2 o3 h k. ground arith;
}

-- each order comes before all that follow it
abbrev pub Sorted : (greater : Order → Order → Bool) → List Order → Type 0
Sorted greater [] = Unit
Sorted greater (x ∷ xs) = All (λ y. greater x y ≡ true) xs × Sorted greater xs

pub reverse-cons {ℓ} : {A : Type ℓ} (x : A) (xs : List A) → reverse (x ∷ xs) ≡ reverse xs ++ x ∷ []
reverse-cons x xs = reverse-append (x ∷ []) xs

pub All-map {ℓ κ κ'} :
    {A : Type ℓ} {P : A → Type κ} {Q : A → Type κ'} (f : (x : A) → P x → Q x) (xs : List A)
    → All P xs
    → All Q xs
All-map f [] h = tt
All-map f (x ∷ xs) h = (f x h.0, All-map f xs h.1)

pub All-reverse {ℓ κ} : {A : Type ℓ} (P : A → Type κ) (xs : List A) → All P xs → All P (reverse xs)
All-reverse P [] h = tt
All-reverse P (x ∷ xs) h =
    rw (reverse-cons x xs) (All-append P (reverse xs) (x ∷ []) (All-reverse P xs h.1) (h.0, tt))

pub All-place {κ} :
    (P : Order → Type κ) (less : Order → Order → Bool) (o : Order) (xs : List Order)
    → P o
    → All P xs
    → All P (place less o xs)
All-place P less o [] p h = (p, tt)
All-place P less o (x ∷ xs) p h = elim (Bool-cases (less x o)) [
  | inl past ↦ rw past (h.0, All-place P less o xs p h.1)
  | inr here ↦ rw here (p, h)
]

module _ {greater less : Order → Order → Bool} (pr : IsPriority greater less) where
  pub place-Sorted :
      (o : Order) (xs : List Order)
      → Sorted greater xs
      → All (λ x. x.id ≢ o.id) xs
      → Sorted greater (place greater o xs)
  place-Sorted o [] s ne = (tt, tt)
  place-Sorted o (x ∷ xs) s ne = elim (Bool-cases (greater x o)) [
    | inl past ↦
        rw past
          (All-place (λ y. greater x y ≡ true) greater o xs past s.0, place-Sorted o xs s.1 ne.1)
    | inr here ↦
        let ox : greater o x ≡ true = pr.total x o ne.0 here in
        rw here ((ox, All-map (λ y xy. pr.transitive o x y ox xy) xs s.0), s)
  ]

  place_before_last :
      (o x : Order) (ys : List Order)
      → less x o ≡ false
      → place less o (ys ++ x ∷ []) ≡ place less o ys ++ x ∷ []
  place_before_last o x [] h = rw h refl
  place_before_last o x (y ∷ ys) h = elim (Bool-cases (less y o)) [
    | inl past ↦ rw past (ap (λ t. y ∷ t) (place_before_last o x ys h))
    | inr here ↦ rw here refl
  ]

  place_last :
      (o : Order) (ys : List Order) → All (λ y. less y o ≡ true) ys → place less o ys ≡ ys ++ o ∷ []
  place_last o [] h = refl
  place_last o (y ∷ ys) h = rw h.0 (ap (λ t. y ∷ t) (place_last o ys h.1))

  -- An insertion from the back among the lesser is one from the front among the greater.
  pub place-reverse :
      (o : Order) (xs : List Order)
      → Sorted greater xs
      → All (λ x. x.id ≢ o.id) xs
      → place less o (reverse xs) ≡ reverse (place greater o xs)
  place-reverse o [] s ne = refl
  place-reverse o (x ∷ xs) s ne = elim (Bool-cases (greater x o)) [
    | inl past ↦ rw past (
        ap (place less o) (reverse-cons x xs)
        ∙ place_before_last o x (reverse xs) (pr.converse x o ∙ pr.asymmetric x o past)
        ∙ ap (λ t. t ++ x ∷ []) (place-reverse o xs s.1 ne.1)
        ∙ sym (reverse-cons x (place greater o xs)))
    | inr here ↦
        let ox : greater o x ≡ true = pr.total x o ne.0 here in
        let lesser : All (λ y. less y o ≡ true) (x ∷ xs) = (
          pr.converse x o ∙ ox,
          All-map (λ y xy. pr.converse y o ∙ pr.transitive o x y ox xy) xs s.0,
        ) in
        rw here (
          place_last o (reverse (x ∷ xs)) (All-reverse (λ y. less y o ≡ true) (x ∷ xs) lesser)
          ∙ sym (reverse-cons o (x ∷ xs)))
  ]
