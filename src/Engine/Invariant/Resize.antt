-- ===== src/Engine/Invariant/Resize.antt =====
-- A resting order that keeps its place and gets another size.
use low_level_programming.Shared.{
  ℕ, ◌<◌, ◌≡◌, refl, inl, inr, none, List, ◌∷◌, ◌++◌, arith, ◌==◌, Bool-cases, update, ==→eq,
  All-replace, IsU32,
}
use low_level_programming.Allocator.{used}
use low_level_programming.Engine.State.{Heap, Engine}
use low_level_programming.Engine.OrderList.Chain.{Entry, block_of, first, last}
use low_level_programming.Engine.Memory.{Book, Memory-resize}
use low_level_programming.Engine.Sides.Count.{buys-append, sells-append}
use low_level_programming.Engine.Sides.Change.{IsSides-same}
use low_level_programming.Engine.Invariant.{IsOpen, core, IsBook}
use low_level_programming.Engine.Listed.{Listed-replace}

module _ (size pool_size : ℕ) (book : Book) (fs : List ℕ) where
  -- A resting order with a new size, above 0: the invariant holds for the same book but for it.
  pub resize-IsBook :
      (e : Engine) (i q : ℕ) (xs : List Entry) (y : Entry) (ys : List Entry)
      → IsBook size pool_size (core e) book fs
      → i < size
      → book i ≡ xs ++ y ∷ ys
      → 0 < q
      → IsU32 q
      → let slots : Heap =
          update e.allocator.slots y.ptr
            (used (record (block_of y (last none xs) (first none ys)) { curr_qty = q })) in
        (e.allocator.slots y.ptr ≡ used (block_of y (last none xs) (first none ys)))
        × IsBook size pool_size
            (core (record e { allocator = record e.allocator { slots = slots } }))
            (update book i (xs ++ record y { curr_qty = q } ∷ ys))
            fs
  resize-IsBook e i q xs y ys v in_range at_i pos small =
      let z : Entry = record y { curr_qty = q } in
      let book' : Book = update book i (xs ++ z ∷ ys) in
      let (holds, m) = Memory-resize v.memory i q xs y ys at_i in
      (
        holds,
        record {
          memory = m;
          sides =
              IsSides-same v.sides book'
                (λ j. elim (Bool-cases (i == j)) [
                  | inl here ↦
                      rw (here, ← ==→eq i j here, at_i)
                        (omega (arith, buys-append xs (z ∷ ys), buys-append xs (y ∷ ys)))
                  | inr there ↦ rw there
                ])
                (λ j. elim (Bool-cases (i == j)) [
                  | inl here ↦
                      rw (here, ← ==→eq i j here, at_i)
                        (omega (arith, sells-append xs (z ∷ ys), sells-append xs (y ∷ ys)))
                  | inr there ↦ rw there
                ]);
          beyond = λ j h. ground (arith, v.beyond j);
          open_orders = λ j. elim (Bool-cases (i == j)) [
            | inl here ↦
                rw here (All-replace IsOpen xs y z ys (rw at_i at (v.open_orders i)) (pos, small))
            | inr there ↦ rw there (v.open_orders j)
          ];
          room = v.room;
          mapped = λ k p h. Listed-replace v.memory i xs y ys at_i z k p refl refl (v.mapped k p h);
          size_small = v.size_small;
          pool_small = v.pool_small;
        },
      )
