-- ===== src/Engine/Memory.antt =====
-- The heap of blocks and the levels, against the lists of resting orders that they stand for.
pub mod Append
use low_level_programming.Shared.{
  ℕ, suc, ◌+◌, ◌<◌, ◌≡◌, ◌≢◌, refl, sym, subst, ◌∙◌, ap, inl, inr, Bool, true, false, ◌||◌, none,
  some, List, [], ◌∷◌, ◌++◌, arith, ◌==◌, if◌then◌else◌, is_none, Bool-cases, update, update_self,
  update_ne, Outcome, ok, ◌>>=◌, All, All-append, All-drop, All-replace, All-middle, ==→eq, ==→ne,
  ltb,
}
use low_level_programming.Allocator
use low_level_programming.Allocator.{Pointer, Slot, free, used, Allocator, deallocate, allocate}
use low_level_programming.Allocator.FreeList
use low_level_programming.Allocator.FreeList.{
  FreeList, FreeList-update, FreeList-frame, not-has_of_used,
}
use low_level_programming.Messages.EnterRequestView
use low_level_programming.Engine.State.{OrderBlock, OrderList, Heap}
use low_level_programming.Engine.OrderList.{load, store, unlink, append_list}
use low_level_programming.Engine.OrderList.Chain.{
  Entry, block_of, has, first, last, first-append, last-append, Chain, IsLevel, SameOutside, Apart,
  IsLevel-frame, has-append, Chain-frame, Chain-split, Chain-join,
}
use low_level_programming.Engine.OrderList.Laws.{unlink-IsLevel, append_list-IsLevel, Apart-swap}

abbrev pub price_of : Entry → ℕ
price_of x = EnterRequestView.price x.raw

abbrev pub Book : Type 0
Book = ℕ → List Entry

-- Level i holds the orders `book i`, which all have the price i, and `fs` are the free slots.
pub record Memory (pool : Allocator OrderBlock) (levels : ℕ → OrderList) (book : Book) (fs : List ℕ)
    : Type 0 where
  pub links : (i : ℕ) → IsLevel pool.slots (levels i) (book i)
  pub priced : (i : ℕ) → All (λ x. price_of x ≡ i) (book i)
  pub head : pool.free_head ≡ FreeList.first fs
  pub unused : FreeList pool.slots fs

-- a block of a level is in use, and knows its price
pub used_of_has :
    (m : Heap) (prev : Pointer) (xs : List Entry) (stop : Pointer) (i p : ℕ)
    → Chain m prev xs stop
    → All (λ x. price_of x ≡ i) xs
    → has p xs ≡ true
    → (b : OrderBlock) × (m p ≡ used b) × (EnterRequestView.price b.raw ≡ i)
used_of_has m prev [] stop i p c a h = cc
used_of_has m prev (x ∷ xs) stop i p c a h = elim (Bool-cases (x.ptr == p)) [
  | inl e ↦ (block_of x prev (first stop xs), ap m (sym (==→eq x.ptr p e)) ∙ c.0, a.0)
  | inr ne ↦ used_of_has m (some x.ptr) xs stop i p c.2 a.1 (ground arith)
]

module _ {pool : Allocator OrderBlock} {levels : ℕ → OrderList} {book : Book} {fs : List ℕ}
    (v : Memory pool levels book fs) where
  pub used_of_level :
      (i p : ℕ)
      → has p (book i) ≡ true
      → (b : OrderBlock) × (pool.slots p ≡ used b) × (EnterRequestView.price b.raw ≡ i)
  used_of_level i p h =
      used_of_has pool.slots none (book i) none i p (v.links i).chain (v.priced i) h

  -- No block is at two levels.
  pub level_unique : (i j p : ℕ) → has p (book i) ≡ true → has p (book j) ≡ true → i ≡ j
  level_unique i j p hi hj =
      let (b, ui, pi) = used_of_level i p hi in
      let (c, uj, pj) = used_of_level j p hj in ground arith

  pub not-has_level : (i j p : ℕ) → i ≢ j → has p (book i) ≡ true → has p (book j) ≡ false
  not-has_level i j p ne h = elim (Bool-cases (has p (book j))) [
    | inl y ↦ absurd (ne (level_unique i j p h y))
    | inr n ↦ n
  ]

  -- A free slot is at no level.
  pub not-has_of_free : (i p : ℕ) → FreeList.has p fs ≡ true → has p (book i) ≡ false
  not-has_of_free i p h = elim (Bool-cases (has p (book i))) [
    | inl y ↦
        let (b, u, _) = used_of_level i p y in
        ground (arith, not-has_of_used pool.slots fs p b u v.unused)
    | inr n ↦ n
  ]

  -- A block that leaves its level for the free list, through `unlink` and `deallocate`.
  pub Memory-remove :
      (i : ℕ) (xs : List Entry) (y : Entry) (ys : List Entry)
      → book i ≡ xs ++ y ∷ ys
      → (m' : Heap) × (list' : OrderList) × (unlink (some y.ptr) pool.slots (levels i)
          ≡ ok (m', list'))
        × Memory
            (record { slots = update m' y.ptr (free pool.free_head); free_head = some y.ptr })
            (update levels i list')
            (update book i (xs ++ ys))
            (y.ptr ∷ fs)
  Memory-remove i xs y ys e =
      let v_i : IsLevel pool.slots (levels i) (xs ++ y ∷ ys) = rw e at (v.links i) in
      let (m', list', run, v', same) = unlink-IsLevel pool.slots (levels i) xs y ys v_i in
      let m'' : Heap = update m' y.ptr (free pool.free_head) in
      let (cx, cy, apart) = Chain-split pool.slots none xs (y ∷ ys) none v_i.chain in
      let y_in : has y.ptr (book i) ≡ true = rw e (ground (arith, has-append y.ptr xs (y ∷ ys))) in
      let y_xs : has y.ptr xs ≡ false = Apart-swap xs (y ∷ ys) apart y.ptr (ground arith) in
      let y_out : has y.ptr (xs ++ ys) ≡ false = ground (arith, has-append y.ptr xs ys, cy.1) in
      let y_free : FreeList.has y.ptr fs ≡ false =
        not-has_of_used pool.slots fs y.ptr _ cy.0 v.unused in
      let spared : (q : ℕ) → has q (book i) ≡ false → m'' q ≡ pool.slots q =
        λ q h. ground (arith, same q (rw (← e) h), y_in) in
      (
        m',
        list',
        run,
        record {
          links = λ j. elim (Bool-cases (i == j)) [
            | inl here ↦ rw here (IsLevel-frame m' m'' list' (xs ++ ys) (λ q h. ground arith) v')
            | inr there ↦ rw there (
                IsLevel-frame pool.slots m'' (levels j) (book j)
                  (λ q h. spared q (not-has_level j i q (λ k. ==→ne i j there (sym k)) h))
                  (v.links j))
          ];
          priced = λ j. elim (Bool-cases (i == j)) [
            | inl here ↦ rw here (
                rw (==→eq i j here) at
                  (All-drop (λ x. price_of x ≡ i) xs y ys (rw e at (v.priced i))))
            | inr there ↦ rw there (v.priced j)
          ];
          head = refl;
          unused = (
            update_self m' y.ptr _ ∙ ap free v.head,
            y_free,
            FreeList-frame pool.slots m'' fs (λ q h. spared q (not-has_of_free i q h)) v.unused,
          );
        },
      )

  -- A new size for an order that keeps its place.
  pub Memory-resize :
      (i q : ℕ) (xs : List Entry) (y : Entry) (ys : List Entry)
      → book i ≡ xs ++ y ∷ ys
      → (pool.slots y.ptr ≡ used (block_of y (last none xs) (first none ys)))
        × Memory
            (record pool {
              slots =
                  update pool.slots y.ptr
                    (used (record (block_of y (last none xs) (first none ys)) { curr_qty = q }));
            })
            levels
            (update book i (xs ++ record y { curr_qty = q } ∷ ys))
            fs
  Memory-resize i q xs y ys e =
      let z : Entry = record y { curr_qty = q } in
      let b : OrderBlock = block_of y (last none xs) (first none ys) in
      let m' : Heap = update pool.slots y.ptr (used (record b { curr_qty = q })) in
      let v_i : IsLevel pool.slots (levels i) (xs ++ y ∷ ys) = rw e at (v.links i) in
      let (cx, cy, apart) = Chain-split pool.slots none xs (y ∷ ys) none v_i.chain in
      let y_in : has y.ptr (book i) ≡ true = rw e (ground (arith, has-append y.ptr xs (y ∷ ys))) in
      let y_xs : has y.ptr xs ≡ false = Apart-swap xs (y ∷ ys) apart y.ptr (ground arith) in
      let y_free : FreeList.has y.ptr fs ≡ false =
        not-has_of_used pool.slots fs y.ptr _ cy.0 v.unused in
      let v' : IsLevel m' (levels i) (xs ++ z ∷ ys) = record {
        head = v_i.head ∙ first-append none xs (y ∷ ys) ∙ sym (first-append none xs (z ∷ ys));
        tail = v_i.tail ∙ last-append none xs (y ∷ ys) ∙ sym (last-append none xs (z ∷ ys));
        chain =
            Chain-join m' none xs (z ∷ ys) none
              (Chain-frame pool.slots m' none xs (some y.ptr) (λ r h. ground arith) cx)
              (
                update_self pool.slots y.ptr _,
                cy.1,
                Chain-frame pool.slots m' (some y.ptr) ys none (λ r h. ground arith) cy.2,
              )
              (λ r h. apart r h);
      } in
      (
        cy.0,
        record {
          links = λ j. elim (Bool-cases (i == j)) [
            | inl here ↦ rw here (rw (==→eq i j here) at v')
            | inr there ↦ rw there (
                IsLevel-frame pool.slots m' (levels j) (book j)
                  (λ r h.
                    ground (arith, y_in, not-has_level j i r (λ k. ==→ne i j there (sym k)) h))
                  (v.links j))
          ];
          priced = λ j. elim (Bool-cases (i == j)) [
            | inl here ↦ rw here (
                rw (==→eq i j here) at (
                  All-replace (λ x. price_of x ≡ i) xs y z ys (rw e at (v.priced i))
                    (All-middle (λ x. price_of x ≡ i) xs y ys (rw e at (v.priced i)))))
            | inr there ↦ rw there (v.priced j)
          ];
          head = v.head;
          unused = FreeList-update pool.slots fs y.ptr _ y_free v.unused;
        },
      )
