-- ===== src/Engine/OrderList/Chain.antt =====
-- What a doubly linked `OrderList` stands for: its blocks in order, oldest first.
use low_level_programming.Shared.{
  ℕ, ◌≡◌, refl, sym, ◌∙◌, ap, Bool, true, false, ◌||◌, none, some, List, [], ◌∷◌, ◌++◌, arith, ◌==◌,
  update, update_self, ok, ◌>>=◌,
}
use low_level_programming.Allocator.{Pointer, used}
use low_level_programming.Messages.Bytes.{Buffer}
use low_level_programming.Engine.State.{OrderBlock, OrderList, Heap}
use low_level_programming.Engine.OrderList.{load, set_next, set_prev}

-- A resting order: its slot and what its block holds, links aside.
pub record Entry : Type 0 where
  pub ptr : ℕ
  pub raw : Buffer
  pub curr_qty : ℕ
  pub id : ℕ
  pub key : ℕ

abbrev pub block_of : Entry → Pointer → Pointer → OrderBlock
block_of x p n = record {
  raw = x.raw;
  curr_qty = x.curr_qty;
  id = x.id;
  key = x.key;
  prev = p;
  next = n;
}

abbrev pub has : ℕ → List Entry → Bool
has p [] = false
has p (x ∷ xs) = (x.ptr == p) || has p xs

-- the first and the last block, or the pointer that stands for none
abbrev pub first : Pointer → List Entry → Pointer
first stop [] = stop
first stop (x ∷ xs) = some x.ptr

abbrev pub last : Pointer → List Entry → Pointer
last prev [] = prev
last prev (x ∷ xs) = last (some x.ptr) xs

-- `xs` are distinct blocks, linked both ways; `prev` stands before them and `stop` after them
abbrev pub Chain : Heap → Pointer → List Entry → Pointer → Type 0
Chain m prev [] stop = Unit {0}
Chain m prev (x ∷ xs) stop =
    (m x.ptr ≡ used (block_of x prev (first stop xs)))
    × (has x.ptr xs ≡ false)
    × Chain m (some x.ptr) xs stop

pub record IsLevel (m : Heap) (list : OrderList) (xs : List Entry) : Type 0 where
  pub head : list.head ≡ first none xs
  pub tail : list.tail ≡ last none xs
  pub chain : Chain m none xs none

abbrev pub SameOutside : List Entry → Heap → Heap → Type 0
SameOutside xs m m' = (q : ℕ) → has q xs ≡ false → m' q ≡ m q

abbrev pub Apart : List Entry → List Entry → Type 0
Apart xs ys = (q : ℕ) → has q xs ≡ true → has q ys ≡ false

pub has-append : (q : ℕ) (xs ys : List Entry) → has q (xs ++ ys) ≡ (has q xs || has q ys)
has-append q [] ys = refl
has-append q (x ∷ xs) ys = ground (arith, has-append q xs ys)

pub first-append :
    (stop : Pointer) (xs ys : List Entry) → first stop (xs ++ ys) ≡ first (first stop ys) xs
first-append stop [] ys = refl
first-append stop (x ∷ xs) ys = refl

pub last-append :
    (prev : Pointer) (xs ys : List Entry) → last prev (xs ++ ys) ≡ last (last prev xs) ys
last-append prev [] ys = refl
last-append prev (x ∷ xs) ys = last-append (some x.ptr) xs ys

-- A change of the heap that spares the blocks of a chain spares the chain.
pub Chain-frame :
    (m m' : Heap) (prev : Pointer) (xs : List Entry) (stop : Pointer)
    → ((q : ℕ) → has q xs ≡ true → m' q ≡ m q)
    → Chain m prev xs stop
    → Chain m' prev xs stop
Chain-frame m m' prev [] stop same c = tt
Chain-frame m m' prev (x ∷ xs) stop same c = (
  same x.ptr (ground arith) ∙ c.0,
  c.1,
  Chain-frame m m' (some x.ptr) xs stop (λ q h. same q (ground arith)) c.2,
)

pub IsLevel-frame :
    (m m' : Heap) (list : OrderList) (xs : List Entry)
    → ((q : ℕ) → has q xs ≡ true → m' q ≡ m q)
    → IsLevel m list xs
    → IsLevel m' list xs
IsLevel-frame m m' list xs same v = record {
  head = v.head;
  tail = v.tail;
  chain = Chain-frame m m' none xs none same v.chain;
}

pub Chain-split :
    (m : Heap) (prev : Pointer) (xs ys : List Entry) (stop : Pointer)
    → Chain m prev (xs ++ ys) stop
    → Chain m prev xs (first stop ys) × Chain m (last prev xs) ys stop × Apart xs ys
Chain-split m prev [] ys stop c = (tt, c, λ q h. cc)
Chain-split m prev (x ∷ xs) ys stop c =
    let rest = Chain-split m (some x.ptr) xs ys stop c.2 in
    let out = c.1 in
    let out' = has-append x.ptr xs ys in
    (
      (c.0 ∙ ap (λ n. used (block_of x prev n)) (first-append stop xs ys), ground arith, rest.0),
      rest.1,
      λ q h. ground (arith, rest.2 q),
    )

pub Chain-join :
    (m : Heap) (prev : Pointer) (xs ys : List Entry) (stop : Pointer)
    → Chain m prev xs (first stop ys)
    → Chain m (last prev xs) ys stop
    → Apart xs ys
    → Chain m prev (xs ++ ys) stop
Chain-join m prev [] ys stop c d apart = d
Chain-join m prev (x ∷ xs) ys stop c d apart = (
  c.0 ∙ ap (λ n. used (block_of x prev n)) (sym (first-append stop xs ys)),
  ground (arith, has-append x.ptr xs ys, apart x.ptr),
  Chain-join m (some x.ptr) xs ys stop c.2 d (λ q h. apart q (ground arith)),
)

-- Setting `next` of the last block moves the end of a chain.
pub set_next-Chain :
    (m : Heap) (prev : Pointer) (x : Entry) (xs : List Entry) (stop q : Pointer)
    → Chain m prev (x ∷ xs) stop
    → (m' : Heap) × (set_next m (last prev (x ∷ xs)) q ≡ ok m')
      × Chain m' prev (x ∷ xs) q
      × SameOutside (x ∷ xs) m m'
unfolding set_next
set_next-Chain m prev x [] stop q c = (
  update m x.ptr (used (block_of x prev q)),
  rw c.0,
  (update_self m x.ptr _, refl, tt),
  λ r h. ground arith,
)
set_next-Chain m prev x (y ∷ xs) stop q c =
    let (m', e, c', same) = set_next-Chain m (some x.ptr) y xs stop q c.2 in
    (m', e, (same x.ptr c.1 ∙ c.0, c.1, c'), λ r h. same r (ground arith))

-- Setting `prev` of the first block moves its start.
pub set_prev-Chain :
    (m : Heap) (prev : Pointer) (x : Entry) (xs : List Entry) (stop p : Pointer)
    → Chain m prev (x ∷ xs) stop
    → (m' : Heap) × (set_prev m (some x.ptr) p ≡ ok m')
      × Chain m' p (x ∷ xs) stop
      × SameOutside (x ∷ xs) m m'
unfolding set_prev
set_prev-Chain m prev x xs stop p c = (
  update m x.ptr (used (block_of x p (first stop xs))),
  rw (c.0, set_prev, load, ◌>>=◌),
  (update_self m x.ptr _, c.1, Chain-frame m _ (some x.ptr) xs stop (λ q h. ground arith) c.2),
  λ r h. ground arith,
)
