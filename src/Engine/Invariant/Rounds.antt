-- ===== src/Engine/Invariant/Rounds.antt =====
-- One round of a matching loop on a valid state.
use low_level_programming.Shared.{
  ℕ, ◌<◌, min, ◌≡◌, ◌∙◌, ap, inl, inr, none, some, ltb, if◌then◌else◌, Bool-cases, tests, lt→ltb,
  IsU32,
}
use low_level_programming.Allocator.{used}
use low_level_programming.Messages.Bytes.{Buffer}
use low_level_programming.Engine.State.{OrderBlock, Engine}
use low_level_programming.Engine.OrderList.Chain.{block_of, first}
use low_level_programming.Engine.Send.{Timespec, send_fills}
use low_level_programming.Engine.Fills.{BestAsk, BestBid}
use low_level_programming.Engine.Match.{fill_incoming, fill_sell, fill_buy, buy_round, sell_round}
use low_level_programming.Engine.Sides.Change.{best_sell_pure, best_buy_pure}
use low_level_programming.Engine.OrderList.Laws.{load-used}
use low_level_programming.Engine.Invariant.{Core, core, IsBook, IsEngine}
use low_level_programming.Engine.Invariant.Round.{
  Round, best_sell_entry, best_buy_entry, partly_filled, sell_filled, buy_filled, mail-send_fills,
  core-send_fills,
}

module _ (size pool_size : ℕ) (clock : ℕ → Timespec) (account : ℕ) (order : Buffer) where
  buy_round_run :
      (e : Engine) (q : ℕ) (p : ℕ) (b : OrderBlock)
      → e.best_sell_idx < size
      → (e.order_buffer e.best_sell_idx).head ≡ some p
      → e.allocator.slots p ≡ used b
      → buy_round size clock account order q e ≡ (
          let e₁ = send_fills clock account order b (min b.curr_qty q) e.best_sell_idx e in
          if ltb q b.curr_qty
          then fill_incoming (some p) b q e₁
          else fill_sell size e.best_sell_idx (some p) b q e₁)
  unfolding buy_round
  buy_round_run e q p b in_range head holds =
      rw (lt→ltb e.best_sell_idx size in_range, head, load-used e.allocator.slots p b holds)

  sell_round_run :
      (e : Engine) (q : ℕ) (p : ℕ) (b : OrderBlock)
      → e.best_buy_idx < size
      → (e.order_buffer e.best_buy_idx).head ≡ some p
      → e.allocator.slots p ≡ used b
      → sell_round size clock account order q e ≡ (
          let e₁ = send_fills clock account order b (min b.curr_qty q) e.best_buy_idx e in
          if ltb q b.curr_qty
          then fill_incoming (some p) b q e₁
          else fill_buy size e.best_buy_idx (some p) b q e₁)
  unfolding sell_round
  sell_round_run e q p b in_range head holds =
      rw (lt→ltb e.best_buy_idx size in_range, head, load-used e.allocator.slots p b holds)

  pub buy_round-Round :
      (e : Engine) (q : ℕ) (valid : IsEngine size pool_size e)
      → 0 < e.sell_orders
      → 0 < q
      → IsU32 q
      → Round size pool_size clock account order BestAsk valid.book e.best_sell_idx e q
          e.sell_orders
          (buy_round size clock account order q e)
          (λ e'. e'.sell_orders)
  buy_round-Round e q valid some_sell pos small =
      let v = valid.is_book in
      let (x, xs, at, sell) =
        best_sell_entry size pool_size clock account order e valid.book valid.fs v some_sell in
      let i = e.best_sell_idx in
      let b : OrderBlock = block_of x none (first none xs) in
      let e₁ : Engine = send_fills clock account order b (min x.curr_qty q) i e in
      let same : core e₁ ≡ core e = core-send_fills clock account order b (min x.curr_qty q) i e in
      let v₁ : IsBook size pool_size (core e₁) valid.book valid.fs = rw same v in
      let count : e₁.sell_orders ≡ e.sell_orders = ap (λ (c : Core). c.sell_orders) same in
      let head = (v.memory.links i).head ∙ ap (first none) at in
      let holds = (rw at at (v.memory.links i)).chain.0 in
      let in_range = v.sides.sell_in some_sell in
      let best : BestAsk valid.book i = (best_sell_pure v.sides some_sell, v.sides.sell_top) in
      rw (buy_round_run e q x.ptr b in_range head holds) (elim (Bool-cases (ltb q x.curr_qty)) [
        | inl part ↦ rw part (
            partly_filled size pool_size clock account order e e₁ q i x xs valid.book valid.fs
              e.sell_orders (λ e'. e'.sell_orders)
              (mail-send_fills clock account order x none (first none xs) (min x.curr_qty q) q i e
                (omega tests))
              best v₁ in_range at pos part)
        | inr whole ↦ rw whole (
            sell_filled size pool_size clock account order e e₁ q i x xs valid.book valid.fs
              e.sell_orders
              (mail-send_fills clock account order x none (first none xs) (min x.curr_qty q)
                x.curr_qty i e (omega tests))
              best v₁ in_range at sell small whole count)
      ])

  pub sell_round-Round :
      (e : Engine) (q : ℕ) (valid : IsEngine size pool_size e)
      → 0 < e.buy_orders
      → 0 < q
      → IsU32 q
      → Round size pool_size clock account order
          (BestBid size)
          valid.book
          e.best_buy_idx
          e
          q
          e.buy_orders
          (sell_round size clock account order q e)
          (λ e'. e'.buy_orders)
  sell_round-Round e q valid some_buy pos small =
      let v = valid.is_book in
      let (x, xs, at, buy) =
        best_buy_entry size pool_size clock account order e valid.book valid.fs v some_buy in
      let i = e.best_buy_idx in
      let b : OrderBlock = block_of x none (first none xs) in
      let e₁ : Engine = send_fills clock account order b (min x.curr_qty q) i e in
      let same : core e₁ ≡ core e = core-send_fills clock account order b (min x.curr_qty q) i e in
      let v₁ : IsBook size pool_size (core e₁) valid.book valid.fs = rw same v in
      let count : e₁.buy_orders ≡ e.buy_orders = ap (λ (c : Core). c.buy_orders) same in
      let head = (v.memory.links i).head ∙ ap (first none) at in
      let holds = (rw at at (v.memory.links i)).chain.0 in
      let best : BestBid size valid.book i = (best_buy_pure v.sides some_buy, v.sides.buy_top) in
      rw (sell_round_run e q x.ptr b v.sides.buy_in head holds)
        (elim (Bool-cases (ltb q x.curr_qty)) [
          | inl part ↦ rw part (
              partly_filled size pool_size clock account order e e₁ q i x xs valid.book valid.fs
                e.buy_orders (λ e'. e'.buy_orders)
                (mail-send_fills clock account order x none (first none xs) (min x.curr_qty q) q i e
                  (omega tests))
                best v₁ v.sides.buy_in at pos part)
          | inr whole ↦ rw whole (
              buy_filled size pool_size clock account order e e₁ q i x xs valid.book valid.fs
                e.buy_orders
                (mail-send_fills clock account order x none (first none xs) (min x.curr_qty q)
                  x.curr_qty i e (omega tests))
                best v₁ v.sides.buy_in at buy small whole count)
        ])
