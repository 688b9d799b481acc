-- ===== src/ListBook/Links/Unlink.antt =====
-- The links of a side after `unlink`.
use low_level_programming.Shared.{
  ℕ, ◌≡◌, sym, ◌∙◌, false, none, some, List, ◌∷◌, ◌++◌, arith, update, update_self, ok,
}
use low_level_programming.ListBook.{Pointer, Block, Heap, Side, link_next, link_prev, unlink}
use low_level_programming.ListBook.Chain.{
  Entry, has, first, last, block_of, Chain, has-append, first-append, last-append, Chain-frame,
  Chain-split, Chain-join, load-at, set_next-at, set_prev-at, link_next-Chain, link_prev-Chain,
}
use low_level_programming.ListBook.Links.{IsLinked, Apart-swap, has-drop}

unlink_run :
    (s : Side) (y : ℕ) (b : Block) (m₁ m₂ : Heap) (hd tl : Pointer)
    → s.blocks y ≡ some b
    → link_next b.prev b.next s ≡ ok (record s { blocks = m₁; head = hd })
    → m₁ y ≡ some b
    → link_prev b.next b.prev (record s { blocks = m₁; head = hd })
      ≡ ok (record s { blocks = m₂; head = hd; tail = tl })
    → m₂ y ≡ some b
    → unlink (some y) s
      ≡ ok (record s {
        blocks =
            update
              (update m₂ y (some (record b { next = none })))
              y
              (some (record b { next = none; prev = none }));
        head = hd;
        tail = tl;
      })
unfolding unlink
unlink_run s y b m₁ m₂ hd tl h e₁ h₁ e₂ h₂ = rw (
  load-at s.blocks y b h,
  e₁,
  load-at m₁ y b h₁,
  e₂,
  set_next-at (record s { blocks = m₂; head = hd; tail = tl }) y b none h₂,
  set_prev-at
      (record s { blocks = update m₂ y (some (record b { next = none })); head = hd; tail = tl }) y
      (record b { next = none }) none (update_self m₂ y _),
)

-- The node leaves the list; its block stays, with no links.
pub unlink-IsLinked :
    (s : Side) (xs : List Entry) (y : Entry) (ys : List Entry)
    → IsLinked s (xs ++ y ∷ ys)
    → (m : Heap) × (hd tl : Pointer) × (unlink (some y.ptr) s
        ≡ ok (record s { blocks = m; head = hd; tail = tl }))
      × IsLinked (record s { blocks = m; head = hd; tail = tl }) (xs ++ ys)
      × (m y.ptr ≡ some (block_of y none none))
      × (has y.ptr (xs ++ ys) ≡ false)
unlink-IsLinked s xs y ys v =
    let (cx, cy, apart) = Chain-split s.blocks none xs (y ∷ ys) none v.chain in
    let y_out : has y.ptr xs ≡ false = Apart-swap xs (y ∷ ys) apart y.ptr (ground arith) in
    let p = last none xs in
    let n = first none ys in
    let (m₁, e₁, c₁, same₁) =
      link_next-Chain s xs (some y.ptr) n (v.head ∙ first-append none xs (y ∷ ys)) cx in
    let cy₁ : Chain m₁ (some y.ptr) ys none =
      Chain-frame s.blocks m₁ (some y.ptr) ys none
        (λ q h. same₁ q (Apart-swap xs (y ∷ ys) apart q (ground arith))) cy.2 in
    let (m₂, e₂, c₂, same₂) =
      link_prev-Chain (record s { blocks = m₁; head = first n xs }) (some y.ptr) p ys
        (v.tail ∙ last-append none xs (y ∷ ys)) cy₁ in
    let y₁ : m₁ y.ptr ≡ some (block_of y p n) = same₁ y.ptr y_out ∙ cy.0 in
    let y₂ : m₂ y.ptr ≡ some (block_of y p n) = same₂ y.ptr cy.1 ∙ y₁ in
    let m₃ : Heap = update m₂ y.ptr (some (block_of y p none)) in
    let m₄ : Heap = update m₃ y.ptr (some (block_of y none none)) in
    (
      m₄,
      first n xs,
      last p ys,
      unlink_run s y.ptr (block_of y p n) m₁ m₂ _ _ cy.0 e₁ y₁ e₂ y₂,
      record {
        head = sym (first-append none xs ys);
        tail = sym (last-append none xs ys);
        chain =
            Chain-join m₄ none xs ys none
              (Chain-frame m₁ m₄ none xs n
                (λ q h. ground (arith, same₂ q (ground (arith, apart q h)), apart q h)) c₁)
              (Chain-frame m₂ m₄ p ys none (λ q h. ground arith) c₂)
              (λ q h. ground (arith, apart q h));
        below = λ q h. v.below q (has-drop q xs y ys h);
      },
      update_self m₃ y.ptr _,
      ground (arith, has-append y.ptr xs ys),
    )
