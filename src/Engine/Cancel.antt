-- ===== src/Engine/Cancel.antt =====
-- `cancel_order`, lines 318 to 373 of 4_order_book_proj/src/engine.hpp.
use low_level_programming.Shared.{
  ℕ, Bool, ◌&&◌, not, is_none, ◌==◌, ltb, leb, if◌then◌else◌, sub64, sub32, Outcome, ok, ◌>>=◌,
}
use low_level_programming.Allocator.{Pointer}
use low_level_programming.Messages.Bytes.{Buffer}
use low_level_programming.Messages.EnterRequestView
use low_level_programming.Messages.CancelRequestView
use low_level_programming.Engine.State.{OrderBlock, Engine, order_key}
use low_level_programming.Engine.OrderList.{load, store}
use low_level_programming.Engine.Send.{Timespec, send_cancelled, send_cancel_rejected}
use low_level_programming.Engine.Match.{remove_block, next_best_sell, next_best_buy}

-- The best index of the order's side moves on if the order was the last one at it.
unfoldable pub refresh_best : (buffer_size : ℕ) → (is_buy : Bool) → ℕ → Engine → Engine
unfolding next_best_sell next_best_buy
refresh_best buffer_size is_buy idx e =
    if is_none (e.order_buffer idx).head
    then (if is_buy && idx == e.best_buy_idx
        then next_best_buy e
        else if not is_buy && idx == e.best_sell_idx
        then next_best_sell buffer_size e
        else e)
    else e

-- The counters of the two sides are lowered by `!is_buy` and by `is_buy`.
abbrev pub count_out : (is_buy : Bool) → Engine → Engine
count_out is_buy e =
    if is_buy
    then record e { buy_orders = sub64 e.buy_orders 1 }
    else record e { sell_orders = sub64 e.sell_orders 1 }

module _ (buffer_size : ℕ) (clock : ℕ → Timespec) where
  -- a cancel to a size above 0: the order keeps its place
  unfoldable pub reduce_order :
      (account user_ref_num new_qty cancelled : ℕ)
      → Pointer
      → OrderBlock
      → Engine
      → Outcome (ℕ × Engine)
  unfolding store
  reduce_order account user_ref_num new_qty cancelled block b e = do
    slots ← store e.allocator.slots block (record b { curr_qty = new_qty })
    ok (
      cancelled,
      send_cancelled clock account user_ref_num cancelled b'U'
          (record e { allocator = record e.allocator { slots = slots } }),
    )

  -- a cancel to 0: the order leaves the book
  unfoldable pub delete_order :
      (account user_ref_num cancelled : ℕ) → Pointer → OrderBlock → Engine → Outcome (ℕ × Engine)
  unfolding remove_block refresh_best
  delete_order account user_ref_num cancelled block b e = do
    let idx = EnterRequestView.price b.raw
    let is_buy = EnterRequestView.side b.raw == b'B'
    let key = order_key account user_ref_num
    e₁ ← remove_block buffer_size idx block key e
    ok (
      cancelled,
      send_cancelled clock account user_ref_num cancelled b'U'
          (refresh_best buffer_size is_buy idx (count_out is_buy e₁)),
    )

  -- the order was found at `block`
  unfoldable pub cancel_found :
      (account user_ref_num new_qty : ℕ) → Pointer → Engine → Outcome (ℕ × Engine)
  unfolding load reduce_order delete_order
  cancel_found account user_ref_num new_qty block e = do
    b ← load e.allocator.slots block
    let cancelled = sub32 b.curr_qty new_qty
    if leb b.curr_qty new_qty
        then ok (0, send_cancel_rejected clock account user_ref_num e)
        else if ltb 0 new_qty
        then reduce_order account user_ref_num new_qty cancelled block b e
        else delete_order account user_ref_num cancelled block b e

  unfoldable pub cancel_order : ℕ → Buffer → Engine → Outcome (ℕ × Engine)
  unfolding cancel_found
  cancel_order account cancel e =
      let user_ref_num = CancelRequestView.user_ref_num cancel in
      let block = e.order_blocks_map (order_key account user_ref_num) in
      if is_none block
      then ok (0, send_cancel_rejected clock account user_ref_num e)
      else cancel_found account user_ref_num (CancelRequestView.quantity cancel) block e
