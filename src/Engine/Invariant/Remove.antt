-- ===== src/Engine/Invariant/Remove.antt =====
-- `remove_block` on a valid state.
use low_level_programming.Shared.{
  ℕ, ◌<◌, ◌≤◌, ◌≡◌, inl, inr, none, some, List, [], ◌∷◌, ◌++◌, arith, ◌==◌, Bool-cases, update,
  ==→ne, lt→ltb, ok, All, All-drop,
}
use low_level_programming.Allocator.{free, deallocate}
use low_level_programming.Engine.State.{OrderList, Heap, Engine}
use low_level_programming.Engine.OrderList.Chain.{Entry}
use low_level_programming.Engine.Memory.{Book, Memory, Memory-remove}
use low_level_programming.Engine.Match.{remove_block}
use low_level_programming.Engine.Invariant.{IsOpen}
use low_level_programming.Engine.Listed.{Listed, Listed-remove}

-- the state after the removal, with the heap and the level that `unlink` leaves
abbrev pub removed : ℕ → ℕ → ℕ → Heap → OrderList → Engine → Engine
removed i p key m list e = record e {
  order_blocks_map = update e.order_blocks_map key none;
  order_buffer = update e.order_buffer i list;
  allocator = record { slots = update m p (free e.allocator.free_head); free_head = some p };
}

module _ (size i : ℕ) (e : Engine) (book : Book) (fs : List ℕ) (xs : List Entry) (y : Entry)
    (ys : List Entry) (in_range : i < size) (at_i : book i ≡ xs ++ y ∷ ys) where
  -- No fault, whatever the counters, and the heap and the levels stand for the book without that
  -- order.
  pub remove_block-Memory :
      Memory e.allocator e.order_buffer book fs
      → (m : Heap) × (list : OrderList) × ((bo so : ℕ)
          → remove_block size i (some y.ptr) y.key (record e { buy_orders = bo; sell_orders = so })
            ≡ ok (removed i y.ptr y.key m list (record e { buy_orders = bo; sell_orders = so })))
        × Memory
            (removed i y.ptr y.key m list e).allocator
            (removed i y.ptr y.key m list e).order_buffer
            (update book i (xs ++ ys))
            (y.ptr ∷ fs)
  unfolding remove_block deallocate
  remove_block-Memory v =
      let (m, list, run, v') = Memory-remove v i xs y ys at_i in
      (m, list, λ bo so. rw (lt→ltb i size in_range, run), v')

  pub beyond-remove :
      ((j : ℕ) → size ≤ j → book j ≡ []) → (j : ℕ) → size ≤ j → update book i (xs ++ ys) j ≡ []
  beyond-remove b j h = ground (arith, b j)

  pub IsOpen-remove :
      ((j : ℕ) → All IsOpen (book j)) → (j : ℕ) → All IsOpen (update book i (xs ++ ys) j)
  IsOpen-remove o j = elim (Bool-cases (i == j)) [
    | inl here ↦ rw here (All-drop IsOpen xs y ys (rw at_i at (o i)))
    | inr there ↦ rw there (o j)
  ]

  pub mapped-remove :
      Memory e.allocator e.order_buffer book fs
      → ((k p : ℕ) → e.order_blocks_map k ≡ some p → Listed book k p)
      → (k p : ℕ) → update e.order_blocks_map y.key none k ≡ some p
      → Listed (update book i (xs ++ ys)) k p
  mapped-remove v mapped k p h = elim (Bool-cases (y.key == k)) [
    | inl same ↦ ground arith
    | inr other ↦
        Listed-remove v i xs y ys at_i k p (==→ne y.key k other) (mapped k p (ground arith))
  ]
