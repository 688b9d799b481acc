-- ===== src/Engine/Invariant/Refresh.antt =====
-- `refresh_best` after a cancelled order has left the book.
use low_level_programming.Shared.{
  ℕ, ◌<◌, ◌≡◌, refl, inl, inr, true, false, none, some, List, [], ◌∷◌, ◌++◌, arith, ◌==◌, is_none,
  Bool-cases, update, update_self, ◌⊎◌, ==→ne, ok, length,
}
use low_level_programming.Engine.State.{OrderList, Heap, Engine}
use low_level_programming.Engine.OrderList.Chain.{Entry, first}
use low_level_programming.Engine.Memory.{Book, Memory}
use low_level_programming.Engine.Match.{next_best_sell, next_best_buy, remove_block}
use low_level_programming.Engine.Cancel.{refresh_best, count_out}
use low_level_programming.Engine.Sides.Count.{is_buy}
use low_level_programming.Engine.Sides.Stay.{stay_sell, stay_buy, held_sell, held_buy}
use low_level_programming.Engine.Invariant.{core, IsBook}
use low_level_programming.Engine.Invariant.Remove.{removed}
use low_level_programming.Engine.Invariant.Leave.{less_sell, less_buy, sell_leaves, buy_leaves}

-- a level whose head is a block is not empty
full_level : (zs : List Entry) → is_none (first none zs) ≡ false → 0 < length zs
full_level [] h = cc
full_level (z ∷ zs) h = omega arith

-- What `refresh_best` does for either side: the scan, or nothing.
pub refresh_buy :
    (size i : ℕ) (e : Engine)
    → (refresh_best size true i e ≡ next_best_buy e)
      ⊎ ((i ≡ e.best_buy_idx → is_none (e.order_buffer i).head ≡ false)
          × (refresh_best size true i e ≡ e))
unfolding refresh_best
refresh_buy size i e = elim (Bool-cases (is_none (e.order_buffer i).head)) [
  | inr full ↦ inr (λ _. full, rw full refl)
  | inl empty ↦ elim (Bool-cases (i == e.best_buy_idx)) [
    | inl best ↦ inl (rw (empty, best) refl)
    | inr other ↦ inr (λ at. absurd (==→ne i e.best_buy_idx other at), rw (empty, other) refl)
  ]
]

pub refresh_sell :
    (size i : ℕ) (e : Engine)
    → (refresh_best size false i e ≡ next_best_sell size e)
      ⊎ ((i ≡ e.best_sell_idx → is_none (e.order_buffer i).head ≡ false)
          × (refresh_best size false i e ≡ e))
unfolding refresh_best
refresh_sell size i e = elim (Bool-cases (is_none (e.order_buffer i).head)) [
  | inr full ↦ inr (λ _. full, rw full refl)
  | inl empty ↦ elim (Bool-cases (i == e.best_sell_idx)) [
    | inl best ↦ inl (rw (empty, best) refl)
    | inr other ↦ inr (λ at. absurd (==→ne i e.best_sell_idx other at), rw (empty, other) refl)
  ]
]

module _ {size pool_size : ℕ} (e : Engine) {book : Book} {fs : List ℕ}
    (v : IsBook size pool_size (core e) book fs) (i : ℕ) (xs : List Entry) (y : Entry)
    (ys : List Entry) (in_range : i < size) (at_i : book i ≡ xs ++ y ∷ ys) where
  abbrev Refreshed : Heap → OrderList → Type 0
  Refreshed m list =
      IsBook size pool_size
        (core
          (refresh_best size (is_buy y) i (count_out (is_buy y) (removed i y.ptr y.key m list e))))
        (update book i (xs ++ ys)) (y.ptr ∷ fs)

  -- The level without the block is not empty when its head is a block.
  full_after :
      (a : Engine)
      → Memory a.allocator a.order_buffer (update book i (xs ++ ys)) (y.ptr ∷ fs)
      → is_none (a.order_buffer i).head ≡ false
      → 0 < length (xs ++ ys)
  full_after a mem full =
      let head : (a.order_buffer i).head ≡ first none (xs ++ ys) =
        rw update_self at (mem.links i).head in
      full_level (xs ++ ys) (rw (← head) full)

  -- The block is removed, and the counter and the best index of its side follow.
  pub refreshed :
      (m : Heap) × (list : OrderList) × (remove_block size i (some y.ptr) y.key e
        ≡ ok (removed i y.ptr y.key m list e))
      × Refreshed m list
  refreshed = elim (Bool-cases (is_buy y)) [
    | inl buy ↦
        let (m, list, _, mem, some_buy, w, v', run, made) =
          buy_leaves e v i xs y ys in_range at_i buy in
        let a : Engine = removed i y.ptr y.key m list (less_buy e) in
        (
          m,
          list,
          run,
          rw buy (elim (refresh_buy size i a) [
            | inl scan ↦ rw scan v'
            | inr (full, stay) ↦ rw stay (
                made e.best_buy_idx (
                  stay_buy w
                    (held_buy v.sides i xs y ys at_i some_buy (λ at. full_after a mem (full at)))))
          ]),
        )
    | inr sell ↦
        let (m, list, _, mem, some_sell, w, v', run, made) =
          sell_leaves e v i xs y ys in_range at_i sell in
        let a : Engine = removed i y.ptr y.key m list (less_sell e) in
        (
          m,
          list,
          run,
          rw sell (elim (refresh_sell size i a) [
            | inl scan ↦ rw scan v'
            | inr (full, stay) ↦ rw stay (
                made e.best_sell_idx (
                  stay_sell w (v.sides.sell_in some_sell) (
                    held_sell v.sides i xs y ys at_i some_sell (λ at. full_after a mem (full at)))))
          ]),
        )
  ]
