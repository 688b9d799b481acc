-- ===== src/Engine/OrderList/Laws.antt =====
-- `unlink` and `append_list` on the lists that the links stand for.
use low_level_programming.Shared.{
  ℕ, ◌≡◌, refl, sym, ◌∙◌, ap, inl, inr, true, false, none, some, List, [], ◌∷◌, ◌++◌, arith,
  if◌then◌else◌, is_none, Bool-cases, update, update_self, Outcome, ok, ◌>>=◌,
}
use low_level_programming.Allocator.{Pointer, used}
use low_level_programming.Engine.State.{OrderBlock, OrderList, Heap}
use low_level_programming.Engine.OrderList.{load, set_next, set_prev, unlink, append_list}
use low_level_programming.Engine.OrderList.Chain.{
  Entry, block_of, has, first, last, Chain, IsLevel, SameOutside, Apart, has-append, first-append,
  last-append, Chain-frame, Chain-split, Chain-join, set_next-Chain, set_prev-Chain,
}

-- Both functions end a list by such a write: through the last block, or at the head.
abbrev link_next : Pointer → Pointer → Heap → OrderList → Outcome (Heap × OrderList)
link_next p q m list =
    if is_none p then ok (m, record list { head = q }) else do m' ← set_next m p q; ok (m', list)

abbrev link_prev : Pointer → Pointer → Heap → OrderList → Outcome (Heap × OrderList)
link_prev n p m list =
    if is_none n then ok (m, record list { tail = p }) else do m' ← set_prev m n p; ok (m', list)

last-some : (p : ℕ) (xs : List Entry) → is_none (last (some p) xs) ≡ false
last-some p [] = refl
last-some p (x ∷ xs) = last-some x.ptr xs

link_next-Chain :
    (m : Heap) (list : OrderList) (xs : List Entry) (stop q : Pointer)
    → list.head ≡ first stop xs
    → Chain m none xs stop
    → (m' : Heap) × (link_next (last none xs) q m list ≡ ok (m', record list { head = first q xs }))
      × Chain m' none xs q
      × SameOutside xs m m'
link_next-Chain m list [] stop q h c = (m, refl, tt, λ r _. refl)
link_next-Chain m list (x ∷ xs) stop q h c =
    let (m', e, c', same) = set_next-Chain m none x xs stop q c in
    (m', rw (last-some x.ptr xs, e) (ap (λ hd. ok (m', record list { head = hd })) h), c', same)

link_prev-Chain :
    (m : Heap) (list : OrderList) (prev p : Pointer) (ys : List Entry)
    → list.tail ≡ last prev ys
    → Chain m prev ys none
    → (m' : Heap) × (link_prev (first none ys) p m list ≡ ok (m', record list { tail = last p ys }))
      × Chain m' p ys none
      × SameOutside ys m m'
link_prev-Chain m list prev p [] h c = (m, refl, tt, λ r _. refl)
link_prev-Chain m list prev p (y ∷ ys) h c =
    let (m', e, c', same) = set_prev-Chain m prev y ys none p c in
    (m', rw e (ap (λ t. ok (m', record list { tail = t })) h), c', same)

pub Apart-swap : (xs ys : List Entry) → Apart xs ys → (q : ℕ) → has q ys ≡ true → has q xs ≡ false
Apart-swap xs ys apart q h = elim (Bool-cases (has q xs)) [
  | inl yes_x ↦ ground (arith, apart q yes_x)
  | inr no_x ↦ no_x
]

pub load-used : (m : Heap) (p : ℕ) (b : OrderBlock) → m p ≡ used b → load m (some p) ≡ ok b
unfolding load
load-used m p b h = rw (h, load)

set_next-used :
    (m : Heap) (p : ℕ) (b : OrderBlock) (q : Pointer)
    → m p ≡ used b
    → set_next m (some p) q ≡ ok (update m p (used (record b { next = q })))
unfolding set_next
set_next-used m p b q h = rw (load-used m p b h)

set_prev-used :
    (m : Heap) (p : ℕ) (b : OrderBlock) (q : Pointer)
    → m p ≡ used b
    → set_prev m (some p) q ≡ ok (update m p (used (record b { prev = q })))
unfolding set_prev
set_prev-used m p b q h = rw (load-used m p b h)

unlink_run :
    (m m₁ m₂ : Heap) (list list₁ list₂ : OrderList) (y : ℕ) (b : OrderBlock)
    → m y ≡ used b
    → link_next b.prev b.next m list ≡ ok (m₁, list₁)
    → m₁ y ≡ used b
    → link_prev b.next b.prev m₁ list₁ ≡ ok (m₂, list₂)
    → m₂ y ≡ used b
    → unlink (some y) m list
      ≡ ok (
        update
            (update m₂ y (used (record b { prev = none })))
            y
            (used (record b { prev = none; next = none })),
        list₂,
      )
unfolding unlink
unlink_run m m₁ m₂ list list₁ list₂ y b h e₁ h₁ e₂ h₂ = rw (
  load-used m y b h,
  e₁,
  load-used m₁ y b h₁,
  e₂,
  set_prev-used m₂ y b none h₂,
  set_next-used (update m₂ y (used (record b { prev = none }))) y (record b { prev = none }) none
      (update_self m₂ y _),
)

-- On a doubly linked level that stands for xs, y, ys, unlinking the block of y does not fault,
-- leaves a level that stands for xs, ys, and writes no block outside the level.
pub unlink-IsLevel :
    (m : Heap) (list : OrderList) (xs : List Entry) (y : Entry) (ys : List Entry)
    → IsLevel m list (xs ++ y ∷ ys)
    → (m' : Heap) × (list' : OrderList) × (unlink (some y.ptr) m list ≡ ok (m', list'))
      × IsLevel m' list' (xs ++ ys)
      × SameOutside (xs ++ y ∷ ys) m m'
unfolding unlink
unlink-IsLevel m list xs y ys v =
    let (cx, cy, apart) = Chain-split m none xs (y ∷ ys) none v.chain in
    let y_out : has y.ptr xs ≡ false = Apart-swap xs (y ∷ ys) apart y.ptr (ground arith) in
    let p = last none xs in
    let n = first none ys in
    let (m₁, e₁, c₁, same₁) =
      link_next-Chain m list xs (some y.ptr) n (v.head ∙ first-append none xs (y ∷ ys)) cx in
    let cy₁ : Chain m₁ (some y.ptr) ys none =
      Chain-frame m m₁ (some y.ptr) ys none
        (λ q h. same₁ q (Apart-swap xs (y ∷ ys) apart q (ground arith))) cy.2 in
    let (m₂, e₂, c₂, same₂) =
      link_prev-Chain m₁ (record list { head = first n xs }) (some y.ptr) p ys
        (v.tail ∙ last-append none xs (y ∷ ys)) cy₁ in
    let y₁ : m₁ y.ptr ≡ used (block_of y p n) = same₁ y.ptr y_out ∙ cy.0 in
    let y₂ : m₂ y.ptr ≡ used (block_of y p n) = same₂ y.ptr cy.1 ∙ y₁ in
    let m₃ : Heap = update m₂ y.ptr (used (block_of y none n)) in
    let m₄ : Heap = update m₃ y.ptr (used (block_of y none none)) in
    (
      m₄,
      record { head = first n xs; tail = last p ys },
      unlink_run m m₁ m₂ list _ _ y.ptr (block_of y p n) cy.0 e₁ y₁ e₂ y₂,
      record {
        head = sym (first-append none xs ys);
        tail = sym (last-append none xs ys);
        chain =
            Chain-join m₄ none xs ys none
              (Chain-frame m₁ m₄ none xs n
                (λ q h. ground (arith, same₂ q (ground (arith, apart q h)), apart q h)) c₁)
              (Chain-frame m₂ m₄ p ys none (λ q h. ground arith) c₂)
              (λ q h. ground (arith, apart q h));
      },
      λ q h. ground (arith, has-append q xs (y ∷ ys), same₁ q, same₂ q),
    )

append_run :
    (m m₃ : Heap) (list list₃ : OrderList) (p : ℕ) (b : OrderBlock)
    → m p ≡ used b
    → link_next list.tail
        (some p)
        (update
          (update m p (used (record b { next = none })))
          p
          (used (record b { next = none; prev = list.tail })))
        list
      ≡ ok (m₃, list₃)
    → append_list (some p) m list ≡ ok (m₃, record list₃ { tail = some p })
unfolding append_list
append_run m m₃ list list₃ p b h e = rw (
  set_next-used m p b none h,
  set_prev-used (update m p (used (record b { next = none }))) p (record b { next = none })
      list.tail (update_self m p _),
  e,
)

-- Appending a block in use that is not in the level does not fault, leaves a level that stands for
-- the old orders followed by the new one, and writes no other block outside the level.
pub append_list-IsLevel :
    (m : Heap) (list : OrderList) (xs : List Entry) (x : Entry) (p n : Pointer)
    → IsLevel m list xs
    → m x.ptr ≡ used (block_of x p n)
    → has x.ptr xs ≡ false
    → (m' : Heap) × (list' : OrderList) × (append_list (some x.ptr) m list ≡ ok (m', list'))
      × IsLevel m' list' (xs ++ x ∷ [])
      × SameOutside (xs ++ x ∷ []) m m'
append_list-IsLevel m list xs x p n v h out =
    let m₁ : Heap = update m x.ptr (used (block_of x p none)) in
    let m₂ : Heap = update m₁ x.ptr (used (block_of x list.tail none)) in
    let c₂ : Chain m₂ none xs none = Chain-frame m m₂ none xs none (λ q k. ground arith) v.chain in
    let (m₃, e, c₃, same) = link_next-Chain m₂ list xs none (some x.ptr) v.head c₂ in
    let x₃ : m₃ x.ptr ≡ used (block_of x (last none xs) none) =
      same x.ptr out ∙ update_self m₁ x.ptr _ ∙ ap (λ t. used (block_of x t none)) v.tail in
    (
      m₃,
      record { head = first (some x.ptr) xs; tail = some x.ptr },
      append_run m m₃ list _ x.ptr (block_of x p n) h (rw (← v.tail) at e),
      record {
        head = sym (first-append none xs (x ∷ []));
        tail = sym (last-append none xs (x ∷ []));
        chain = Chain-join m₃ none xs (x ∷ []) none c₃ (x₃, refl, tt) (λ q k. ground arith);
      },
      λ q k. ground (arith, has-append q xs (x ∷ []), same q),
    )
