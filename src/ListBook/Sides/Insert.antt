-- ===== src/ListBook/Sides/Insert.antt =====
-- A new order on a side.
use low_level_programming.Shared.{
  ℕ, zero, suc, ◌<◌, ◌≡◌, refl, sym, subst, ◌∙◌, ap, Bool, false, none, some, List, [], ◌∷◌, ◌++◌,
  append-nil, arith, ◌==◌, if◌then◌else◌, update, update_self, Bool-cases, inl, inr, ok, length,
}
use low_level_programming.VectorBook.{Order, place}
use low_level_programming.ListBook.{Pointer, Heap, Side, seek, new_block, insert_block}
use low_level_programming.ListBook.Chain.{
  Entry, orders, has, find, first, block_of, Chain, Chain-frame, load-at,
}
use low_level_programming.ListBook.Links.{IsLinked}
use low_level_programming.ListBook.Links.Insert.{link_before-IsLinked, link_last-IsLinked}
use low_level_programming.ListBook.Sides.{Distinct, IsSide, find-insert, Distinct-insert}

-- Where `seek` stops, and what the list is with the new order there.
seek-place :
    (fuel : ℕ) (greater : Order → Order → Bool) (o : Order) (m : Heap) (prev : Pointer)
    (xs : List Entry)
    → Chain m prev xs none
    → length xs < fuel
    → (gs ls : List Entry) × (seek fuel greater o m (first none xs) ≡ ok (first none ls))
      × (xs ≡ gs ++ ls)
      × ((p : ℕ) → orders (gs ++ record { ptr = p; order = o } ∷ ls) ≡ place greater o (orders xs))
unfolding seek
seek-place zero greater o m prev xs c enough = absurd (omega arith)
seek-place (suc fuel) greater o m prev [] c enough = ([], [], refl, refl, λ p. refl)
seek-place (suc fuel) greater o m prev (x ∷ xs) c enough = elim (Bool-cases (greater x.order o)) [
  | inl yes_g ↦
      let (gs, ls, e, split, put) = seek-place fuel greater o m (some x.ptr) xs c.2 (omega arith) in
      (
        x ∷ gs,
        ls,
        rw (seek, load-at m x.ptr (block_of x prev (first none xs)) c.0, yes_g) e,
        ap (λ t. x ∷ t) split,
        λ p. rw yes_g (ap (λ t. x.order ∷ t) (put p)),
      )
  | inr no_g ↦ (
    [],
    x ∷ xs,
    rw (seek, load-at m x.ptr (block_of x prev (first none xs)) c.0, no_g) refl,
    refl,
    λ p. rw no_g refl,
  )
]

new_block-IsLinked :
    (s : Side) (o : Order) (xs : List Entry)
    → IsLinked s xs
    → IsLinked (new_block o s) xs × (has s.fresh xs ≡ false)
new_block-IsLinked s o xs v =
    let out : has s.fresh xs ≡ false = elim (Bool-cases (has s.fresh xs)) [
      | inl yes_h ↦ absurd (omega (arith, v.below s.fresh yes_h))
      | inr no_h ↦ no_h
    ] in
    (
      record {
        head = v.head;
        tail = v.tail;
        chain = Chain-frame s.blocks _ none xs none (λ q h. ground arith) v.chain;
        below = λ q h. omega (arith, v.below q h);
      },
      out,
    )

placed :
    (fuel : ℕ) (greater : Order → Order → Bool) (o : Order) (s : Side) (xs gs ls : List Entry)
    → IsLinked (new_block o s) (gs ++ ls)
    → has s.fresh (gs ++ ls) ≡ false
    → seek fuel greater o (new_block o s).blocks (new_block o s).head ≡ ok (first none ls)
    → ((id : ℕ)
        → update s.index o.id (some s.fresh) id
          ≡ find id (gs ++ record { ptr = s.fresh; order = o } ∷ ls))
    → Distinct (gs ++ record { ptr = s.fresh; order = o } ∷ ls)
    → ((p : ℕ) → orders (gs ++ record { ptr = p; order = o } ∷ ls) ≡ place greater o (orders xs))
    → (s' : Side) × (xs' : List Entry) × (insert_block fuel greater o s ≡ ok s')
      × IsSide s' xs'
      × (orders xs' ≡ place greater o (orders xs))
unfolding insert_block
placed fuel greater o s xs gs [] l out e index distinct put =
    let l' : IsLinked (new_block o s) gs = subst (IsLinked (new_block o s)) (append-nil gs) l in
    let (m, hd, tl, run, ok_links) =
      link_last-IsLinked (new_block o s) gs (record { ptr = s.fresh; order = o }) l'
        (update_self s.blocks s.fresh _) (ap (has s.fresh) (sym (append-nil gs)) ∙ out)
        (omega arith) in
    (
      _,
      gs ++ record { ptr = s.fresh; order = o } ∷ [],
      rw (e, run) refl,
      record {
        linked = record {
          head = ok_links.head;
          tail = ok_links.tail;
          chain = ok_links.chain;
          below = ok_links.below;
        };
        index = index;
        distinct = distinct;
      },
      put s.fresh,
    )
placed fuel greater o s xs gs (y ∷ ls) l out e index distinct put =
    let (m, hd, run, ok_links) =
      link_before-IsLinked (new_block o s) gs y ls (record { ptr = s.fresh; order = o }) l
        (update_self s.blocks s.fresh _) out (omega arith) in
    (
      _,
      gs ++ record { ptr = s.fresh; order = o } ∷ y ∷ ls,
      rw (e, run) refl,
      record {
        linked = record {
          head = ok_links.head;
          tail = ok_links.tail;
          chain = ok_links.chain;
          below = ok_links.below;
        };
        index = index;
        distinct = distinct;
      },
      put s.fresh,
    )

-- With fuel for all its orders a side takes a new one, before the first that is not greater.
pub insert_block-IsSide :
    (fuel : ℕ) (greater : Order → Order → Bool) (o : Order) (s : Side) (xs : List Entry)
    → IsSide s xs
    → find o.id xs ≡ none
    → length xs < fuel
    → (s' : Side) × (xs' : List Entry) × (insert_block fuel greater o s ≡ ok s')
      × IsSide s' xs'
      × (orders xs' ≡ place greater o (orders xs))
unfolding insert_block
insert_block-IsSide fuel greater o s xs v new enough =
    let s₁ = new_block o s in
    let (l₁, out) = new_block-IsLinked s o xs v.linked in
    let (gs, ls, e, split, put) = seek-place fuel greater o s₁.blocks none xs l₁.chain enough in
    let e' : seek fuel greater o s₁.blocks s₁.head ≡ ok (first none ls) =
      ap (seek fuel greater o s₁.blocks) l₁.head ∙ e in
    let x : Entry = record { ptr = s.fresh; order = o } in
    let index : (id : ℕ) → update s.index o.id (some s.fresh) id ≡ find id (gs ++ x ∷ ls) = λ id.
      (elim (Bool-cases (o.id == id)) [
        | inl same ↦ rw same refl
        | inr other ↦ rw other (v.index id)
      ])
      ∙ ap (λ t. if o.id == id then some s.fresh else find id t) split
      ∙ sym (find-insert id gs x ls (ap (find o.id) (sym split) ∙ new)) in
    let distinct : Distinct (gs ++ x ∷ ls) =
      Distinct-insert gs x ls (subst Distinct split v.distinct)
        (ap (find o.id) (sym split) ∙ new) in
    let l₂ : IsLinked s₁ (gs ++ ls) = subst (IsLinked s₁) split l₁ in
    let out₂ : has s.fresh (gs ++ ls) ≡ false = ap (has s.fresh) (sym split) ∙ out in
    placed fuel greater o s xs gs ls l₂ out₂ e' index distinct put
