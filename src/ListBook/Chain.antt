-- ===== src/ListBook/Chain.antt =====
-- The orders that a linked side stands for: its blocks from the head to the tail.
use low_level_programming.Shared.{
  ℕ, ◌≡◌, refl, sym, ◌∙◌, ap, Bool, true, false, ◌||◌, none, some, List, [], ◌∷◌, ◌++◌, map, arith,
  ◌==◌, if◌then◌else◌, update, update_self, ok, is_none,
}
use low_level_programming.VectorBook.{Order}
use low_level_programming.ListBook.{
  Pointer, Block, Heap, Side, load, set_block, set_next, set_prev, link_next, link_prev,
}

-- A resting order and the address of its block.
pub record Entry : Type 0 where
  pub ptr : ℕ
  pub order : Order

abbrev pub orders : List Entry → List Order
orders xs = map Entry.order xs

abbrev pub has : ℕ → List Entry → Bool
has p [] = false
has p (x ∷ xs) = (x.ptr == p) || has p xs

-- the block of the first order with an identifier
abbrev pub find : ℕ → List Entry → Pointer
find id [] = none
find id (x ∷ xs) = if x.order.id == id then some x.ptr else find id xs

abbrev pub first : Pointer → List Entry → Pointer
first stop [] = stop
first stop (x ∷ xs) = some x.ptr

abbrev pub last : Pointer → List Entry → Pointer
last prev [] = prev
last prev (x ∷ xs) = last (some x.ptr) xs

abbrev pub block_of : Entry → Pointer → Pointer → Block
block_of x p n = record { order = x.order; next = n; prev = p }

-- `xs` are distinct blocks, linked both ways, between `prev` and `stop`.
abbrev pub Chain : Heap → Pointer → List Entry → Pointer → Type 0
Chain m prev [] stop = Unit {0}
Chain m prev (x ∷ xs) stop =
    (m x.ptr ≡ some (block_of x prev (first stop xs)))
    × (has x.ptr xs ≡ false)
    × Chain m (some x.ptr) xs stop

abbrev pub Same : (q : ℕ) → Heap → Heap → Type 0
Same q m m' = m' q ≡ m q

abbrev pub Apart : List Entry → List Entry → Type 0
Apart xs ys = (q : ℕ) → has q xs ≡ true → has q ys ≡ false

pub has-append : (q : ℕ) (xs ys : List Entry) → has q (xs ++ ys) ≡ (has q xs || has q ys)
has-append q [] ys = refl
has-append q (x ∷ xs) ys = ground (arith, has-append q xs ys)

pub first-append :
    (stop : Pointer) (xs ys : List Entry) → first stop (xs ++ ys) ≡ first (first stop ys) xs
first-append stop [] ys = refl
first-append stop (x ∷ xs) ys = refl

pub last-append :
    (prev : Pointer) (xs ys : List Entry) → last prev (xs ++ ys) ≡ last (last prev xs) ys
last-append prev [] ys = refl
last-append prev (x ∷ xs) ys = last-append (some x.ptr) xs ys

pub last-some : (p : ℕ) (xs : List Entry) → is_none (last (some p) xs) ≡ false
last-some p [] = refl
last-some p (x ∷ xs) = last-some x.ptr xs

pub Chain-frame :
    (m m' : Heap) (prev : Pointer) (xs : List Entry) (stop : Pointer)
    → ((q : ℕ) → has q xs ≡ true → Same q m m')
    → Chain m prev xs stop
    → Chain m' prev xs stop
Chain-frame m m' prev [] stop same c = tt
Chain-frame m m' prev (x ∷ xs) stop same c = (
  same x.ptr (ground arith) ∙ c.0,
  c.1,
  Chain-frame m m' (some x.ptr) xs stop (λ q h. same q (ground arith)) c.2,
)

pub Chain-split :
    (m : Heap) (prev : Pointer) (xs ys : List Entry) (stop : Pointer)
    → Chain m prev (xs ++ ys) stop
    → Chain m prev xs (first stop ys) × Chain m (last prev xs) ys stop × Apart xs ys
Chain-split m prev [] ys stop c = (tt, c, λ q h. cc)
Chain-split m prev (x ∷ xs) ys stop c =
    let rest = Chain-split m (some x.ptr) xs ys stop c.2 in
    let out = c.1 in
    let out' = has-append x.ptr xs ys in
    (
      (c.0 ∙ ap (λ n. some (block_of x prev n)) (first-append stop xs ys), ground arith, rest.0),
      rest.1,
      λ q h. ground (arith, rest.2 q),
    )

pub Chain-join :
    (m : Heap) (prev : Pointer) (xs ys : List Entry) (stop : Pointer)
    → Chain m prev xs (first stop ys)
    → Chain m (last prev xs) ys stop
    → Apart xs ys
    → Chain m prev (xs ++ ys) stop
Chain-join m prev [] ys stop c d apart = d
Chain-join m prev (x ∷ xs) ys stop c d apart = (
  c.0 ∙ ap (λ n. some (block_of x prev n)) (sym (first-append stop xs ys)),
  ground (arith, has-append x.ptr xs ys, apart x.ptr),
  Chain-join m (some x.ptr) xs ys stop c.2 d (λ q h. apart q (ground arith)),
)

pub load-at : (m : Heap) (p : ℕ) (b : Block) → m p ≡ some b → load m (some p) ≡ ok b
unfolding load
load-at m p b h = rw (h, load)

pub set_next-at :
    (s : Side) (p : ℕ) (b : Block) (q : Pointer)
    → s.blocks p ≡ some b
    → set_next (some p) q s
      ≡ ok (record s { blocks = update s.blocks p (some (record b { next = q })) })
unfolding set_next set_block
set_next-at s p b q h = rw (load-at s.blocks p b h)

pub set_prev-at :
    (s : Side) (p : ℕ) (b : Block) (q : Pointer)
    → s.blocks p ≡ some b
    → set_prev (some p) q s
      ≡ ok (record s { blocks = update s.blocks p (some (record b { prev = q })) })
unfolding set_prev set_block
set_prev-at s p b q h = rw (load-at s.blocks p b h)

abbrev pub SameOutside : List Entry → Heap → Heap → Type 0
SameOutside xs m m' = (q : ℕ) → has q xs ≡ false → Same q m m'

set_next-Chain :
    (s : Side) (prev : Pointer) (x : Entry) (xs : List Entry) (stop q : Pointer)
    → Chain s.blocks prev (x ∷ xs) stop
    → (m : Heap) × (set_next (last prev (x ∷ xs)) q s ≡ ok (record s { blocks = m }))
      × Chain m prev (x ∷ xs) q
      × SameOutside (x ∷ xs) s.blocks m
set_next-Chain s prev x [] stop q c = (
  update s.blocks x.ptr (some (block_of x prev q)),
  set_next-at s x.ptr _ q c.0,
  (update_self s.blocks x.ptr _, refl, tt),
  λ r h. ground arith,
)
set_next-Chain s prev x (y ∷ xs) stop q c =
    let (m, e, c', same) = set_next-Chain s (some x.ptr) y xs stop q c.2 in
    (m, e, (same x.ptr c.1 ∙ c.0, c.1, c'), λ r h. same r (ground arith))

-- A write of what follows a chain: in its last block, or in the head.
pub link_next-Chain :
    (s : Side) (xs : List Entry) (stop q : Pointer)
    → s.head ≡ first stop xs
    → Chain s.blocks none xs stop
    → (m : Heap) × (link_next (last none xs) q s ≡ ok (record s { blocks = m; head = first q xs }))
      × Chain m none xs q
      × SameOutside xs s.blocks m
link_next-Chain s [] stop q h c = (s.blocks, refl, tt, λ r _. refl)
link_next-Chain s (x ∷ xs) stop q h c =
    let (m, e, c', same) = set_next-Chain s none x xs stop q c in
    (m, rw (last-some x.ptr xs, e) (ap (λ hd. ok (record s { blocks = m; head = hd })) h), c', same)

-- A write of what stands before a chain: in its first block, or in the tail.
pub link_prev-Chain :
    (s : Side) (prev p : Pointer) (ys : List Entry)
    → s.tail ≡ last prev ys
    → Chain s.blocks prev ys none
    → (m : Heap) × (link_prev (first none ys) p s ≡ ok (record s { blocks = m; tail = last p ys }))
      × Chain m p ys none
      × SameOutside ys s.blocks m
link_prev-Chain s prev p [] h c = (s.blocks, refl, tt, λ r _. refl)
link_prev-Chain s prev p (y ∷ ys) h c = (
  update s.blocks y.ptr (some (block_of y p (first none ys))),
  set_prev-at s y.ptr _ p c.0
      ∙ ap
          (λ t. ok (record s {
            blocks = update s.blocks y.ptr (some (block_of y p (first none ys)));
            tail = t;
          }))
          h,
  (
    update_self s.blocks y.ptr _,
    c.1,
    Chain-frame s.blocks _ (some y.ptr) ys none (λ q h. ground arith) c.2,
  ),
  λ r h. ground arith,
)
