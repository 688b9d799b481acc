-- ===== src/Engine/Invariant/Rest.antt =====
-- What is left of an order joins the book, or is cancelled.
use low_level_programming.Shared.{
  ◌⊎◌, ℕ, ◌+◌, ◌<◌, ◌≡◌, refl, inl, inr, true, false, some, List, [], ◌∷◌, ◌++◌, arith, ◌==◌, ltb,
  if◌then◌else◌, Bool-cases, update, ◌≢◌, ==→eq, ==→ne, add64, IsU32,
}
use low_level_programming.Allocator.FreeList
use low_level_programming.Messages.Bytes.{Buffer}
use low_level_programming.Messages.EnterRequestView
use low_level_programming.Engine.State.{market_price, Engine}
use low_level_programming.Engine.OrderList.Chain.{Entry}
use low_level_programming.Engine.Memory.{Book, Memory}
use low_level_programming.Engine.Send.{Timespec}
use low_level_programming.Engine.Match.{place_block, rest_buy, rest_sell}
use low_level_programming.Engine.Sides.Count.{is_buy}
use low_level_programming.Engine.Sides.Add.{add_buy, add_sell}
use low_level_programming.Engine.Invariant.{core, IsBook, IsEngine}
use low_level_programming.Engine.Invariant.Place.{
  side_of_copy, resting, joined, place_block-Memory, IsOpen-join, mapped-join,
}
use low_level_programming.Engine.Invariant.Rested.{
  no_market, no_block, joins, Rested, Rested-fs, gone, allocated,
}

module _ (size pool_size : ℕ) (clock : ℕ → Timespec) (account : ℕ) (order : Buffer) where
  -- A buy order that is placed.
  place_buy :
      (id q p : ℕ) (fs : List ℕ) (e : Engine) (book : Book)
      → IsBook size pool_size (core e) book (p ∷ fs)
      → 0 < q
      → IsU32 q
      → EnterRequestView.price order ≢ market_price
      → EnterRequestView.side order ≡ b'B'
      → EnterRequestView.price order < size
      → (0 < e.sell_orders → EnterRequestView.price order < e.best_sell_idx)
      → Rested size pool_size clock account order id q e (p ∷ fs) book (
          place_block size account order id q (some p) (record e {
            allocator = record e.allocator { free_head = FreeList.first fs };
            best_buy_idx =
                if ltb e.best_buy_idx (EnterRequestView.price order)
                then EnterRequestView.price order
                else e.best_buy_idx;
            buy_orders = add64 e.buy_orders 1;
          }))
  place_buy id q p fs e book v pos small limit side in_range below =
      let i = EnterRequestView.price order in
      let e₁ : Engine = record e {
        allocator = record e.allocator { free_head = FreeList.first fs };
        best_buy_idx = if ltb e.best_buy_idx i then i else e.best_buy_idx;
        buy_orders = add64 e.buy_orders 1;
      } in
      let z : Entry = resting p account order id q in
      let mem : Memory (record e₁.allocator { free_head = some p }) e.order_buffer book (p ∷ fs) =
        rw v.memory.head at v.memory in
      let (m, list, run, mem') =
        place_block-Memory size account order id q p e₁ book fs mem refl in_range in
      let buy : is_buy z ≡ true = rw (side_of_copy order) (ground arith) in
      let more : e.buy_orders + 1 ≡ add64 e.buy_orders 1 = omega (arith, v.room, v.pool_small) in
      record {
        result = id;
        e' = joined i z m list e₁;
        runs = run;
        rest = joins pos limit refl refl refl refl refl;
        valid = record {
          book = update book i (book i ++ z ∷ []);
          fs = fs;
          is_book = record {
            memory = mem';
            sides = rw more at (add_buy v.sides i z in_range buy below);
            beyond = λ j h. ground (arith, v.beyond j);
            open_orders =
                IsOpen-join size account order id q p e book fs (pos, small) v.open_orders;
            room = omega (arith, v.room, v.pool_small);
            mapped = mapped-join size account order id q p e book fs mem v.mapped;
            size_small = v.size_small;
            pool_small = v.pool_small;
          };
        };
      }

  -- A buy order below the best ask.
  pub rest_buy-Rested :
      (id q : ℕ) (e : Engine) (valid : IsEngine size pool_size e)
      → 0 < q
      → IsU32 q
      → EnterRequestView.side order ≡ b'B'
      → (EnterRequestView.price order ≡ market_price) ⊎ (EnterRequestView.price order < size)
      → (0 < e.sell_orders → EnterRequestView.price order < e.best_sell_idx)
      → Rested size pool_size clock account order id q e valid.fs valid.book
          (rest_buy size clock account order id q e)
  unfolding rest_buy
  rest_buy-Rested id q e valid pos small side priced below =
      let v = valid.is_book in
      elim (Bool-cases (EnterRequestView.price order == market_price)) [
        | inl market ↦ rw market (
            gone size pool_size clock account order id q b'I' e valid.book valid.fs v
              (no_market pos (==→eq _ _ market) refl refl refl))
        | inr limit ↦
            elim (allocated size pool_size clock account order e.allocator e.order_buffer valid.book
              valid.fs v.memory) [
                | inl (empty, out) ↦
                    rw (limit, out)
                      (gone size pool_size clock account order id q b'Z' e valid.book valid.fs v
                        (no_block pos (==→ne _ _ limit) empty refl refl refl))
                | inr (p, fs, e_fs, run) ↦
                    rw (limit, run)
                      (Rested-fs size pool_size clock account order e_fs (
                        place_buy id q p fs e valid.book (rw e_fs at v) pos small (==→ne _ _ limit)
                          side (ground arith) below))
              ]
      ]

  -- A sell order that is placed.
  place_sell :
      (id q p : ℕ) (fs : List ℕ) (e : Engine) (book : Book)
      → IsBook size pool_size (core e) book (p ∷ fs)
      → 0 < q
      → IsU32 q
      → EnterRequestView.price order ≢ market_price
      → EnterRequestView.side order ≡ b'S'
      → EnterRequestView.price order < size
      → (0 < e.buy_orders → e.best_buy_idx < EnterRequestView.price order)
      → Rested size pool_size clock account order id q e (p ∷ fs) book (
          place_block size account order id q (some p) (record e {
            allocator = record e.allocator { free_head = FreeList.first fs };
            best_sell_idx =
                if ltb (EnterRequestView.price order) e.best_sell_idx
                then EnterRequestView.price order
                else e.best_sell_idx;
            sell_orders = add64 e.sell_orders 1;
          }))
  place_sell id q p fs e book v pos small limit side in_range above =
      let i = EnterRequestView.price order in
      let e₁ : Engine = record e {
        allocator = record e.allocator { free_head = FreeList.first fs };
        best_sell_idx = if ltb i e.best_sell_idx then i else e.best_sell_idx;
        sell_orders = add64 e.sell_orders 1;
      } in
      let z : Entry = resting p account order id q in
      let mem : Memory (record e₁.allocator { free_head = some p }) e.order_buffer book (p ∷ fs) =
        rw v.memory.head at v.memory in
      let (m, list, run, mem') =
        place_block-Memory size account order id q p e₁ book fs mem refl in_range in
      let sell : is_buy z ≡ false = rw (side_of_copy order) (ground arith) in
      let more : e.sell_orders + 1 ≡ add64 e.sell_orders 1 = omega (arith, v.room, v.pool_small) in
      record {
        result = id;
        e' = joined i z m list e₁;
        runs = run;
        rest = joins pos limit refl refl refl refl refl;
        valid = record {
          book = update book i (book i ++ z ∷ []);
          fs = fs;
          is_book = record {
            memory = mem';
            sides = rw more at (add_sell v.sides i z in_range sell above);
            beyond = λ j h. ground (arith, v.beyond j);
            open_orders =
                IsOpen-join size account order id q p e book fs (pos, small) v.open_orders;
            room = omega (arith, v.room, v.pool_small);
            mapped = mapped-join size account order id q p e book fs mem v.mapped;
            size_small = v.size_small;
            pool_small = v.pool_small;
          };
        };
      }

  -- A sell order above the best bid.
  pub rest_sell-Rested :
      (id q : ℕ) (e : Engine) (valid : IsEngine size pool_size e)
      → 0 < q
      → IsU32 q
      → EnterRequestView.side order ≡ b'S'
      → (EnterRequestView.price order ≡ market_price) ⊎ (EnterRequestView.price order < size)
      → (0 < e.buy_orders → e.best_buy_idx < EnterRequestView.price order)
      → Rested size pool_size clock account order id q e valid.fs valid.book
          (rest_sell size clock account order id q e)
  unfolding rest_sell
  rest_sell-Rested id q e valid pos small side priced above =
      let v = valid.is_book in
      elim (Bool-cases (EnterRequestView.price order == market_price)) [
        | inl market ↦ rw market (
            gone size pool_size clock account order id q b'I' e valid.book valid.fs v
              (no_market pos (==→eq _ _ market) refl refl refl))
        | inr limit ↦
            elim (allocated size pool_size clock account order e.allocator e.order_buffer valid.book
              valid.fs v.memory) [
                | inl (empty, out) ↦
                    rw (limit, out)
                      (gone size pool_size clock account order id q b'Z' e valid.book valid.fs v
                        (no_block pos (==→ne _ _ limit) empty refl refl refl))
                | inr (p, fs, e_fs, run) ↦
                    rw (limit, run)
                      (Rested-fs size pool_size clock account order e_fs (
                        place_sell id q p fs e valid.book (rw e_fs at v) pos small (==→ne _ _ limit)
                          side (ground arith) above))
              ]
      ]
