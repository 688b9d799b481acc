-- ===== src/Network/Uring/Lists.antt =====
-- Counts over the requests in flight, and what taking one out leaves.
use low_level_programming.Shared.{
  ℕ, ◌+◌, ◌≡◌, refl, Bool, true, false, ◌&&◌, some, List, [], ◌∷◌, ◌++◌, ◌==◌, if◌then◌else◌, arith,
  All, Bool-cases, ==→eq, Option-cases, inl, inr, subst, ◌⊎◌,
}
use low_level_programming.Network.Uring.{EventType, accept, read, write, Owned}
use low_level_programming.Network.Uring.Completion.{take_flight}

abbrev pub one_if : Bool → ℕ
one_if b = if b then 1 else 0

abbrev pub count_if {ℓ} : {A : Type ℓ} → (A → Bool) → List A → ℕ
count_if test [] = 0
count_if test (x ∷ xs) = one_if (test x) + count_if test xs

abbrev pub is_accept : EventType → Bool
is_accept accept = true
is_accept read = false
is_accept write = false

abbrev pub is_read : EventType → Bool
is_read accept = false
is_read read = true
is_read write = false

abbrev pub accepts_on : ℕ → Owned → Bool
accepts_on fd o = is_accept o.request.event && o.request.listen_fd == fd

abbrev pub reads_from : ℕ → Owned → Bool
reads_from fd o = is_read o.request.event && o.request.client_fd == fd

abbrev pub is_at : ℕ → Owned → Bool
is_at p o = o.pointer == p

abbrev pub is_number : ℕ → ℕ → Bool
is_number n m = m == n

pub record Taken (p : ℕ) (os : List Owned) (o : Owned) (rest : List Owned) : Type 1 where
  pub pointer : o.pointer ≡ p
  pub count : (test : Owned → Bool) → count_if test os ≡ one_if (test o) + count_if test rest
  pub all : (P : Owned → Type 0) → All P os → P o × All P rest

pub take_flight-Taken :
    (p : ℕ) (os : List Owned) (o : Owned) (rest : List Owned)
    → take_flight p os ≡ some (o, rest)
    → Taken p os o rest
unfolding take_flight
take_flight-Taken p [] o rest h = cc
take_flight-Taken p (x ∷ os) o rest h = elim (Bool-cases (x.pointer == p)) [
  | inl here ↦
      let e : (x, os) ≡ (o, rest) = ground arith in
      subst (λ (pair : Owned × List Owned). Taken p (x ∷ os) pair.0 pair.1) e
        (record { pointer = ==→eq x.pointer p here; count = λ test. refl; all = λ P h. h })
  | inr further ↦ elim (Option-cases (take_flight p os)) [
    | inl missing ↦ ground arith
    | inr ((found, rest'), there) ↦
        let t : Taken p os found rest' = take_flight-Taken p os found rest' there in
        let e : (found, x ∷ rest') ≡ (o, rest) = ground arith in
        subst (λ (pair : Owned × List Owned). Taken p (x ∷ os) pair.0 pair.1) e
          (record {
            pointer = t.pointer;
            count = λ test. omega (arith, t.count test);
            all = λ P h. ((t.all P h.1).0, (h.0, (t.all P h.1).1));
          })
  ]
]

-- What holds of all requests but one at pointer p does not depend on p.
pub All-others :
    (P Q : Owned → Type 0) (p : ℕ) (os : List Owned)
    → ((o : Owned) → (o.pointer == p) ≡ false → P o → Q o)
    → count_if (is_at p) os ≡ 0
    → All P os
    → All Q os
All-others P Q p [] keep none_at h = tt
All-others P Q p (o ∷ os) keep none_at h = elim (Bool-cases (o.pointer == p)) [
  | inl at ↦ absurd (ground arith)
  | inr other ↦ (keep o other h.0, All-others P Q p os keep (ground arith) h.1)
]

-- A request that is in the list is counted.
pub count-all_false :
    (test : Owned → Bool) (os : List Owned) → All (λ o. test o ≡ false) os → count_if test os ≡ 0
count-all_false test [] h = refl
count-all_false test (o ∷ os) h = ground (arith, h.0, count-all_false test os h.1)

pub EventType-cases : (e : EventType) → (e ≡ accept) ⊎ ((e ≡ read) ⊎ (e ≡ write))
EventType-cases accept = inl refl
EventType-cases read = inr (inl refl)
EventType-cases write = inr (inr refl)

pub count-append {ℓ} :
    {A : Type ℓ} (test : A → Bool) (xs ys : List A)
    → count_if test (xs ++ ys) ≡ count_if test xs + count_if test ys
count-append test [] ys = omega arith
count-append test (x ∷ xs) ys = omega (arith, count-append test xs ys)
