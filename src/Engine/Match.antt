-- ===== src/Engine/Match.antt =====
-- `insert_order`, `insert_buy_order` and `insert_sell_order`, lines 189 to 316 of
-- 4_order_book_proj/src/engine.hpp. `clock` is `clock_gettime` (`Engine.Send`).
use low_level_programming.Shared.{
  ℕ, zero, suc, ◌+◌, min, ◌&&◌, not, none, is_none, ◌==◌, ltb, leb, if◌then◌else◌, add64, sub64,
  sub32, Outcome, ok, thrown, stuck, ◌>>=◌, update,
}
use low_level_programming.Allocator
use low_level_programming.Allocator.{Pointer, Slot, used, Allocator}
use low_level_programming.Messages.Bytes.{Buffer, load_bytes}
use low_level_programming.Messages.EnterRequestView
use low_level_programming.Engine.State.{market_price, OrderBlock, Engine, order_key, level}
use low_level_programming.Engine.OrderList.{load, store, unlink, append_list}
use low_level_programming.Engine.Send.{Timespec, send_accepted, send_fills, send_cancelled}

-- `order_blocks_map.erase(key)`, `unlink(block, &order_buffer[idx])` and
-- `allocator.deallocate(block)`
unfoldable pub remove_block : (buffer_size : ℕ) → ℕ → Pointer → ℕ → Engine → Outcome Engine
remove_block buffer_size idx block key e = do
  list ← level buffer_size e idx
  (slots, list') ← unlink block e.allocator.slots list
  pool ← Allocator.deallocate (record e.allocator { slots = slots }) block
  ok (record e {
    order_blocks_map = update e.order_blocks_map key none;
    order_buffer = update e.order_buffer idx list';
    allocator = pool;
  })

-- `while (sell_orders > 0 && best_sell_idx < BUFFER_SIZE && … head == nullptr) best_sell_idx++`.
-- The index stays below `buffer_size` while the loop runs, so `buffer_size` rounds are enough.
unfoldable pub scan_up : (buffer_size : ℕ) → ℕ → Engine → ℕ → ℕ
scan_up buffer_size zero e idx = idx
scan_up buffer_size (suc fuel) e idx =
    let more = scan_up buffer_size fuel e (add64 idx 1) in
    if ltb 0 e.sell_orders && ltb idx buffer_size && is_none (e.order_buffer idx).head
    then more
    else idx

-- `while (buy_orders > 0 && best_buy_idx > 0 && … head == nullptr) best_buy_idx--`. It starts at
-- a level that was just read, so no index is out of range; a round lowers the index.
unfoldable pub scan_down : ℕ → Engine → ℕ → ℕ
scan_down zero e idx = idx
scan_down (suc fuel) e idx =
    let more = scan_down fuel e (sub64 idx 1) in
    if ltb 0 e.buy_orders && ltb 0 idx && is_none (e.order_buffer idx).head then more else idx

-- the scan and the reset that follows it, on either side
unfoldable pub next_best_sell : (buffer_size : ℕ) → Engine → Engine
unfolding scan_up
next_best_sell buffer_size e =
    let idx = scan_up buffer_size buffer_size e e.best_sell_idx in
    record e { best_sell_idx = if e.sell_orders == 0 then buffer_size else idx }

unfoldable pub next_best_buy : Engine → Engine
unfolding scan_down
next_best_buy e =
    let idx = scan_down e.best_buy_idx e e.best_buy_idx in
    record e { best_buy_idx = if e.buy_orders == 0 then 0 else idx }

-- `block->curr_qty -= curr_qty; curr_qty = 0;`: the incoming order is filled
unfoldable pub fill_incoming : Pointer → OrderBlock → ℕ → Engine → Outcome (ℕ × Engine)
unfolding store
fill_incoming block b curr_qty e = do
  slots ← store e.allocator.slots block (record b { curr_qty = sub32 b.curr_qty curr_qty })
  ok (0, record e { allocator = record e.allocator { slots = slots } })

-- The resting order is filled: it leaves the book, and the best index moves on.
unfoldable pub fill_sell :
    (buffer_size : ℕ) → ℕ → Pointer → OrderBlock → ℕ → Engine → Outcome (ℕ × Engine)
unfolding remove_block next_best_sell
fill_sell buffer_size idx block b curr_qty e = do
  e' ← remove_block buffer_size idx block b.key (record e { sell_orders = sub64 e.sell_orders 1 })
  ok (sub32 curr_qty b.curr_qty, next_best_sell buffer_size e')

unfoldable pub fill_buy :
    (buffer_size : ℕ) → ℕ → Pointer → OrderBlock → ℕ → Engine → Outcome (ℕ × Engine)
unfolding remove_block next_best_buy
fill_buy buffer_size idx block b curr_qty e = do
  e' ← remove_block buffer_size idx block b.key (record e { buy_orders = sub64 e.buy_orders 1 })
  ok (sub32 curr_qty b.curr_qty, next_best_buy e')

-- `append_list(new_block, &order_buffer[price])` and the lines round it that fill the new block,
-- `ptr`. Its links are first written by `append_list`.
unfoldable pub place_block :
    (buffer_size : ℕ) → ℕ → Buffer → (id curr_qty : ℕ) → Pointer → Engine → Outcome (ℕ × Engine)
unfolding store append_list
place_block buffer_size account order id curr_qty ptr e = do
  let price = EnterRequestView.price order
  let key = order_key account (EnterRequestView.user_ref_num order)
  list ← level buffer_size e price
  slots ← store e.allocator.slots ptr (record {
    raw = load_bytes order 0 EnterRequestView.wire_size;
    curr_qty = curr_qty;
    id = id;
    key = key;
    prev = none;
    next = none;
  })
  (slots', list') ← append_list ptr slots list
  ok (
    id,
    record e {
      allocator = record e.allocator { slots = slots' };
      order_buffer = update e.order_buffer price list';
      order_blocks_map = update e.order_blocks_map key ptr;
    },
  )

module _ (buffer_size : ℕ) (clock : ℕ → Timespec) where
  -- One round of the matching loop of a buy order: what is left of its quantity, and the state.
  unfoldable pub buy_round : ℕ → Buffer → ℕ → Engine → Outcome (ℕ × Engine)
  buy_round account order curr_qty e = do
    let idx = e.best_sell_idx
    list ← level buffer_size e idx
    b ← load e.allocator.slots list.head
    let e' = send_fills clock account order b (min b.curr_qty curr_qty) idx e
    if ltb curr_qty b.curr_qty
        then fill_incoming list.head b curr_qty e'
        else fill_sell buffer_size idx list.head b curr_qty e'

  -- A round ends the loop or takes one sell order out of the book.
  unfoldable pub buy_loop : ℕ → ℕ → Buffer → ℕ → Engine → Outcome (ℕ × Engine)
  buy_loop zero account order curr_qty e = stuck
  buy_loop (suc fuel) account order curr_qty e =
      let more =
        buy_round account order curr_qty e >>= λ (q, e'). buy_loop fuel account order q e' in
      if ltb 0 e.sell_orders
        && ltb e.best_sell_idx buffer_size
        && leb e.best_sell_idx (EnterRequestView.price order)
        && ltb 0 curr_qty
      then more
      else ok (curr_qty, e)

  unfoldable pub sell_round : ℕ → Buffer → ℕ → Engine → Outcome (ℕ × Engine)
  sell_round account order curr_qty e = do
    let idx = e.best_buy_idx
    list ← level buffer_size e idx
    b ← load e.allocator.slots list.head
    let e' = send_fills clock account order b (min b.curr_qty curr_qty) idx e
    if ltb curr_qty b.curr_qty
        then fill_incoming list.head b curr_qty e'
        else fill_buy buffer_size idx list.head b curr_qty e'

  -- The test reads `order_buffer[best_buy_idx]` after `buy_orders > 0`.
  unfoldable pub sell_loop : ℕ → ℕ → Buffer → (limit : ℕ) → ℕ → Engine → Outcome (ℕ × Engine)
  sell_loop zero account order limit curr_qty e = stuck
  sell_loop (suc fuel) account order limit curr_qty e =
      let more = sell_round account order curr_qty e >>= λ (q, e').
      sell_loop fuel account order limit q e' in
      if ltb 0 e.buy_orders
      then (level buffer_size e e.best_buy_idx >>= λ list.
          if not (is_none list.head) && leb limit e.best_buy_idx && ltb 0 curr_qty
          then more
          else ok (curr_qty, e))
      else ok (curr_qty, e)

  -- The part of a buy order that did not match.
  unfoldable pub rest_buy : ℕ → Buffer → (id curr_qty : ℕ) → Engine → Outcome (ℕ × Engine)
  unfolding place_block
  rest_buy account order id curr_qty e =
      let price = EnterRequestView.price order in
      let cancelled = λ (reason : ℕ).
        send_cancelled clock account (EnterRequestView.user_ref_num order) curr_qty reason in
      if price == market_price then ok (0, cancelled b'I' e) else (do
        (ptr, pool) ← Allocator.allocate e.allocator
        if is_none ptr
            then ok (0, cancelled b'Z' (record e { allocator = pool }))
            else place_block buffer_size account order id curr_qty ptr (record e {
              allocator = pool;
              best_buy_idx = if ltb e.best_buy_idx price then price else e.best_buy_idx;
              buy_orders = add64 e.buy_orders 1;
            }))

  unfoldable pub rest_sell : ℕ → Buffer → (id curr_qty : ℕ) → Engine → Outcome (ℕ × Engine)
  unfolding place_block
  rest_sell account order id curr_qty e =
      let price = EnterRequestView.price order in
      let cancelled = λ (reason : ℕ).
        send_cancelled clock account (EnterRequestView.user_ref_num order) curr_qty reason in
      if price == market_price then ok (0, cancelled b'I' e) else (do
        (ptr, pool) ← Allocator.allocate e.allocator
        if is_none ptr
            then ok (0, cancelled b'Z' (record e { allocator = pool }))
            else place_block buffer_size account order id curr_qty ptr (record e {
              allocator = pool;
              best_sell_idx = if ltb price e.best_sell_idx then price else e.best_sell_idx;
              sell_orders = add64 e.sell_orders 1;
            }))

  -- `uint64_t id = ++counter; send_accepted(account, order, id);`
  unfoldable pub accept : ℕ → Buffer → Engine → Engine
  accept account order e =
      let id = add64 e.counter 1 in send_accepted clock account order id (record e { counter = id })

  -- The fuel is one more than the number of orders that a loop can take out.
  unfoldable pub insert_buy_order : ℕ → Buffer → Engine → Outcome (ℕ × Engine)
  unfolding accept buy_loop rest_buy
  insert_buy_order account order e = do
    let e₀ = accept account order e
    (curr_qty, e₁) ←
        buy_loop (e₀.sell_orders + 2) account order (EnterRequestView.quantity order) e₀
    if ltb 0 curr_qty then rest_buy account order e₀.counter curr_qty e₁ else ok (0, e₁)

  unfoldable pub insert_sell_order : ℕ → Buffer → Engine → Outcome (ℕ × Engine)
  unfolding accept sell_loop rest_sell
  insert_sell_order account order e = do
    let e₀ = accept account order e
    let price = EnterRequestView.price order
    let limit = if price == market_price then 0 else price
    (curr_qty, e₁) ←
        sell_loop (e₀.buy_orders + 2) account order limit (EnterRequestView.quantity order) e₀
    if ltb 0 curr_qty then rest_sell account order e₀.counter curr_qty e₁ else ok (0, e₁)

  unfoldable pub insert_order : ℕ → Buffer → Engine → Outcome (ℕ × Engine)
  unfolding insert_buy_order insert_sell_order
  insert_order account order e =
      let side = EnterRequestView.side order in
      if side == b'B'
      then insert_buy_order account order e
      else if side == b'S'
      then insert_sell_order account order e
      else thrown
