-- ===== src/ListBook/Links/Insert.antt =====
-- The links of a side after a new node.
use low_level_programming.Shared.{
  ℕ, ◌<◌, ◌≡◌, refl, sym, ◌∙◌, ap, true, false, none, some, List, [], ◌∷◌, ◌++◌, arith, ◌==◌,
  update, update_self, ok,
}
use low_level_programming.ListBook.{Pointer, Block, Heap, Side, link_next, link_before, link_last}
use low_level_programming.ListBook.Chain.{
  Entry, has, first, last, block_of, Chain, has-append, first-append, last-append, Chain-frame,
  Chain-split, Chain-join, load-at, set_next-at, set_prev-at, link_next-Chain,
}
use low_level_programming.ListBook.Links.{IsLinked, Apart-swap, has-parts, below_insert}

link_before_run :
    (s : Side) (x y : ℕ) (bx by : Block) (m₃ : Heap) (hd : Pointer)
    → s.blocks x ≡ some bx
    → s.blocks y ≡ some by
    → (x == y) ≡ false
    → link_next by.prev (some x) (record s {
      blocks =
          update
            (update s.blocks x (some (record bx { next = some y })))
            x
            (some (record bx { next = some y; prev = by.prev }));
    })
      ≡ ok (record s { blocks = m₃; head = hd })
    → m₃ y ≡ some (record by { prev = by.prev })
    → link_before (some x) (some y) s
      ≡ ok (record s { blocks = update m₃ y (some (record by { prev = some x })); head = hd })
unfolding link_before
link_before_run s x y bx by m₃ hd hx hy ne e h₃ = rw (
  set_next-at s x bx (some y) hx,
  load-at (update s.blocks x (some (record bx { next = some y }))) y by (ground arith),
  set_prev-at (record s { blocks = update s.blocks x (some (record bx { next = some y })) }) x
      (record bx { next = some y }) by.prev (update_self s.blocks x _),
  e,
  set_prev-at (record s { blocks = m₃; head = hd }) y by (some x) h₃,
)

-- A node that is not in the list goes before the node of y.
pub link_before-IsLinked :
    (s : Side) (xs : List Entry) (y : Entry) (ys : List Entry) (x : Entry)
    → IsLinked s (xs ++ y ∷ ys)
    → s.blocks x.ptr ≡ some (block_of x none none)
    → has x.ptr (xs ++ y ∷ ys) ≡ false
    → x.ptr < s.fresh
    → (m : Heap) × (hd : Pointer) × (link_before (some x.ptr) (some y.ptr) s
        ≡ ok (record s { blocks = m; head = hd }))
      × IsLinked (record s { blocks = m; head = hd }) (xs ++ x ∷ y ∷ ys)
link_before-IsLinked s xs y ys x v h out old =
    let (cx, cy, apart) = Chain-split s.blocks none xs (y ∷ ys) none v.chain in
    let (ne, ne', out_x, out_y) = has-parts x.ptr xs y ys out in
    let p = last none xs in
    let n = first none ys in
    let m₁ : Heap = update s.blocks x.ptr (some (block_of x none (some y.ptr))) in
    let m₂ : Heap = update m₁ x.ptr (some (block_of x p (some y.ptr))) in
    let y_out : has y.ptr xs ≡ false = Apart-swap xs (y ∷ ys) apart y.ptr (ground arith) in
    let cx₂ : Chain m₂ none xs (some y.ptr) =
      Chain-frame s.blocks m₂ none xs (some y.ptr) (λ q k. ground arith) cx in
    let (m₃, e, c₃, same) =
      link_next-Chain (record s { blocks = m₂ }) xs (some y.ptr) (some x.ptr)
        (v.head ∙ first-append none xs (y ∷ ys)) cx₂ in
    let apart_ys : (q : ℕ) → has q ys ≡ true → has q xs ≡ false =
      λ q k. Apart-swap xs (y ∷ ys) apart q (ground arith) in
    let y₃ : m₃ y.ptr ≡ some (block_of y p n) = same y.ptr y_out ∙ (ground arith) ∙ cy.0 in
    let m₄ : Heap = update m₃ y.ptr (some (block_of y (some x.ptr) n)) in
    let kept : (q : ℕ) → has q ys ≡ true → m₄ q ≡ s.blocks q =
      λ q k. ground (arith, same q (apart_ys q k)) in
    let x₄ : m₄ x.ptr ≡ some (block_of x p (some y.ptr)) =
      (ground arith) ∙ same x.ptr (ground arith) ∙ update_self m₁ x.ptr _ in
    (
      m₄,
      first (some x.ptr) xs,
      link_before_run s x.ptr y.ptr (block_of x none none) (block_of y p n) m₃ _ h cy.0 ne e y₃,
      record {
        head = sym (first-append none xs (x ∷ y ∷ ys));
        tail = v.tail ∙ last-append none xs (y ∷ ys) ∙ sym (last-append none xs (x ∷ y ∷ ys));
        chain =
            Chain-join m₄ none xs (x ∷ y ∷ ys) none
              (Chain-frame m₃ m₄ none xs (some x.ptr) (λ q k. ground arith) c₃)
              (
                x₄,
                rw ne' out_y,
                (
                  update_self m₃ y.ptr _,
                  cy.1,
                  Chain-frame s.blocks m₄ (some y.ptr) ys none (λ q k. kept q k) cy.2,
                ),
              )
              (λ q k. ground (arith, apart q k));
        below = below_insert s xs x (y ∷ ys) v.below old;
      },
    )

link_last_run :
    (s : Side) (x : ℕ) (b : Block) (m₃ : Heap) (hd : Pointer)
    → s.blocks x ≡ some b
    → link_next s.tail (some x) (record s {
      blocks =
          update
            (update s.blocks x (some (record b { prev = s.tail })))
            x
            (some (record b { prev = s.tail; next = none }));
    })
      ≡ ok (record s { blocks = m₃; head = hd })
    → link_last (some x) s ≡ ok (record s { blocks = m₃; head = hd; tail = some x })
unfolding link_last
link_last_run s x b m₃ hd h e = rw (
  set_prev-at s x b s.tail h,
  set_next-at (record s { blocks = update s.blocks x (some (record b { prev = s.tail })) }) x
      (record b { prev = s.tail }) none (update_self s.blocks x _),
  e,
)

-- A node that is not in the list goes to its end.
pub link_last-IsLinked :
    (s : Side) (xs : List Entry) (x : Entry)
    → IsLinked s xs
    → s.blocks x.ptr ≡ some (block_of x none none)
    → has x.ptr xs ≡ false
    → x.ptr < s.fresh
    → (m : Heap) × (hd tl : Pointer) × (link_last (some x.ptr) s
        ≡ ok (record s { blocks = m; head = hd; tail = tl }))
      × IsLinked (record s { blocks = m; head = hd; tail = tl }) (xs ++ x ∷ [])
link_last-IsLinked s xs x v h out old =
    let m₁ : Heap = update s.blocks x.ptr (some (block_of x s.tail none)) in
    let m₂ : Heap = update m₁ x.ptr (some (block_of x s.tail none)) in
    let c₂ : Chain m₂ none xs none =
      Chain-frame s.blocks m₂ none xs none (λ q k. ground arith) v.chain in
    let (m₃, e, c₃, same) =
      link_next-Chain (record s { blocks = m₂ }) xs none (some x.ptr) v.head c₂ in
    let x₃ : m₃ x.ptr ≡ some (block_of x (last none xs) none) =
      same x.ptr out ∙ update_self m₁ x.ptr _ ∙ ap (λ t. some (block_of x t none)) v.tail in
    (
      m₃,
      first (some x.ptr) xs,
      some x.ptr,
      link_last_run s x.ptr (block_of x none none) m₃ _ h (rw (← v.tail) at e),
      record {
        head = sym (first-append none xs (x ∷ []));
        tail = sym (last-append none xs (x ∷ []));
        chain = Chain-join m₃ none xs (x ∷ []) none c₃ (x₃, refl, tt) (λ q k. ground arith);
        below = λ q k. ground (arith, v.below q, has-append q xs (x ∷ []));
      },
    )
