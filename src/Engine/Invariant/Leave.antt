-- ===== src/Engine/Invariant/Leave.antt =====
-- An order that leaves the book, with the scan for the next best level of its side.
use low_level_programming.Shared.{
  ℕ, ◌-◌, ◌<◌, ◌≡◌, true, false, some, List, ◌∷◌, ◌++◌, arith, update, ok, sub64,
}
use low_level_programming.Engine.State.{OrderList, Heap, Engine}
use low_level_programming.Engine.OrderList.Chain.{Entry}
use low_level_programming.Engine.Memory.{Book, Memory}
use low_level_programming.Engine.Match.{next_best_sell, next_best_buy, remove_block}
use low_level_programming.Engine.Sides.{IsSides}
use low_level_programming.Engine.Sides.Count.{is_buy}
use low_level_programming.Engine.Sides.Change.{remove_sell, remove_buy}
use low_level_programming.Engine.Sides.Rescan.{
  BeforeSellScan, BeforeBuyScan, rescan_sell, rescan_buy,
}
use low_level_programming.Engine.Invariant.{core, IsBook}
use low_level_programming.Engine.Invariant.Remove.{
  removed, remove_block-Memory, beyond-remove, IsOpen-remove, mapped-remove,
}

abbrev pub less_sell : Engine → Engine
less_sell e = record e { sell_orders = sub64 e.sell_orders 1 }

abbrev pub less_buy : Engine → Engine
less_buy e = record e { buy_orders = sub64 e.buy_orders 1 }

module _ {size pool_size : ℕ} (e : Engine) {book : Book} {fs : List ℕ}
    (v : IsBook size pool_size (core e) book fs) (i : ℕ) (xs : List Entry) (y : Entry)
    (ys : List Entry) (in_range : i < size) (at_i : book i ≡ xs ++ y ∷ ys) where
  -- A sell order leaves: no fault, and after the scan the invariant holds for the book without it.
  pub sell_leaves :
      is_buy y ≡ false
      → (m : Heap) × (list : OrderList) × (remove_block size i (some y.ptr) y.key (less_sell e)
          ≡ ok (removed i y.ptr y.key m list (less_sell e)))
        × Memory
            (removed i y.ptr y.key m list (less_sell e)).allocator
            (removed i y.ptr y.key m list (less_sell e)).order_buffer
            (update book i (xs ++ ys))
            (y.ptr ∷ fs)
        × (0 < e.sell_orders)
        × BeforeSellScan size e.buy_orders
            (sub64 e.sell_orders 1)
            e.best_buy_idx
            e.best_sell_idx
            (update book i (xs ++ ys))
        × IsBook size pool_size
            (core (next_best_sell size (removed i y.ptr y.key m list (less_sell e))))
            (update book i (xs ++ ys))
            (y.ptr ∷ fs)
        × (remove_block size i (some y.ptr) y.key e ≡ ok (removed i y.ptr y.key m list e))
        × ((k : ℕ)
            → IsSides size e.buy_orders
                (sub64 e.sell_orders 1)
                e.best_buy_idx
                k
                (update book i (xs ++ ys))
            → IsBook size pool_size
                (core (record (removed i y.ptr y.key m list (less_sell e)) { best_sell_idx = k }))
                (update book i (xs ++ ys))
                (y.ptr ∷ fs))
  unfolding next_best_sell
  sell_leaves sell =
      let (m, list, run, mem) =
        remove_block-Memory size i e book fs xs y ys in_range at_i v.memory in
      let (some_sell, w) = remove_sell v.sides i xs y ys in_range at_i sell in
      let less : e.sell_orders - 1 ≡ sub64 e.sell_orders 1 = omega (arith, v.room, v.pool_small) in
      let w' : BeforeSellScan size e.buy_orders (sub64 e.sell_orders 1) e.best_buy_idx
          e.best_sell_idx (update book i (xs ++ ys)) =
        rw less at w in
      let made : (k : ℕ)
          → IsSides size e.buy_orders (sub64 e.sell_orders 1) e.best_buy_idx k
              (update book i (xs ++ ys))
          → IsBook size pool_size
              (core (record (removed i y.ptr y.key m list (less_sell e)) { best_sell_idx = k }))
              (update book i (xs ++ ys)) (y.ptr ∷ fs) =
        λ k sides. record {
          memory = mem;
          sides = sides;
          beyond = beyond-remove size i e book fs xs y ys in_range at_i v.beyond;
          open_orders = IsOpen-remove size i e book fs xs y ys in_range at_i v.open_orders;
          room = omega (arith, v.room, some_sell);
          mapped = mapped-remove size i e book fs xs y ys in_range at_i v.memory v.mapped;
          size_small = v.size_small;
          pool_small = v.pool_small;
        } in
      (
        m,
        list,
        run e.buy_orders (sub64 e.sell_orders 1),
        mem,
        some_sell,
        w',
        made _ (
            rescan_sell size v.size_small
              (removed i y.ptr y.key m list (less_sell e)).allocator.slots
              (removed i y.ptr y.key m list (less_sell e)) (update book i (xs ++ ys)) mem.links w'),
        run e.buy_orders e.sell_orders,
        made,
      )

  -- A buy order leaves: no fault, and after the scan the invariant holds for the book without it.
  pub buy_leaves :
      is_buy y ≡ true
      → (m : Heap) × (list : OrderList) × (remove_block size i (some y.ptr) y.key (less_buy e)
          ≡ ok (removed i y.ptr y.key m list (less_buy e)))
        × Memory
            (removed i y.ptr y.key m list (less_buy e)).allocator
            (removed i y.ptr y.key m list (less_buy e)).order_buffer
            (update book i (xs ++ ys))
            (y.ptr ∷ fs)
        × (0 < e.buy_orders)
        × BeforeBuyScan size
            (sub64 e.buy_orders 1)
            e.sell_orders
            e.best_buy_idx
            e.best_sell_idx
            (update book i (xs ++ ys))
        × IsBook size pool_size
            (core (next_best_buy (removed i y.ptr y.key m list (less_buy e))))
            (update book i (xs ++ ys))
            (y.ptr ∷ fs)
        × (remove_block size i (some y.ptr) y.key e ≡ ok (removed i y.ptr y.key m list e))
        × ((k : ℕ)
            → IsSides size
                (sub64 e.buy_orders 1)
                e.sell_orders
                k
                e.best_sell_idx
                (update book i (xs ++ ys))
            → IsBook size pool_size
                (core (record (removed i y.ptr y.key m list (less_buy e)) { best_buy_idx = k }))
                (update book i (xs ++ ys))
                (y.ptr ∷ fs))
  unfolding next_best_buy
  buy_leaves buy =
      let (m, list, run, mem) =
        remove_block-Memory size i e book fs xs y ys in_range at_i v.memory in
      let (some_buy, w) = remove_buy v.sides i xs y ys in_range at_i buy in
      let less : e.buy_orders - 1 ≡ sub64 e.buy_orders 1 = omega (arith, v.room, v.pool_small) in
      let w' : BeforeBuyScan size (sub64 e.buy_orders 1) e.sell_orders e.best_buy_idx
          e.best_sell_idx (update book i (xs ++ ys)) =
        rw less at w in
      let made : (k : ℕ)
          → IsSides size (sub64 e.buy_orders 1) e.sell_orders k e.best_sell_idx
              (update book i (xs ++ ys))
          → IsBook size pool_size
              (core (record (removed i y.ptr y.key m list (less_buy e)) { best_buy_idx = k }))
              (update book i (xs ++ ys)) (y.ptr ∷ fs) =
        λ k sides. record {
          memory = mem;
          sides = sides;
          beyond = beyond-remove size i e book fs xs y ys in_range at_i v.beyond;
          open_orders = IsOpen-remove size i e book fs xs y ys in_range at_i v.open_orders;
          room = omega (arith, v.room, some_buy);
          mapped = mapped-remove size i e book fs xs y ys in_range at_i v.memory v.mapped;
          size_small = v.size_small;
          pool_small = v.pool_small;
        } in
      (
        m,
        list,
        run (sub64 e.buy_orders 1) e.sell_orders,
        mem,
        some_buy,
        w',
        made _ (
            rescan_buy size v.size_small (removed i y.ptr y.key m list (less_buy e)).allocator.slots
              (removed i y.ptr y.key m list (less_buy e)) (update book i (xs ++ ys)) mem.links w'),
        run e.buy_orders e.sell_orders,
        made,
      )
