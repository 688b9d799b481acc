-- ===== src/Engine/Tests/Runs.antt =====
-- Messages on the small states.
use low_level_programming.Engine.State.{order_key}
use low_level_programming.Messages.CancelRequestView
use low_level_programming.Messages.Bytes.{load_be32}
use low_level_programming.Shared.{
  none, some, ℕ, Bool-cases, ◌<◌, ◌≤◌, ◌≡◌, refl, inl, inr, true, false, List, [], ◌∷◌, arith, All,
  Outcome, ok, ◌>>=◌, is_none,
}
use low_level_programming.Allocator
use low_level_programming.Engine.OrderList.{append_list, store, set_next}
use low_level_programming.Messages.Bytes.{
  Buffer, load_be32, load_be64, load_char, load_bytes, from_le, to_le, bswap,
}
use low_level_programming.Messages.EnterRequestView
use low_level_programming.Messages.Decode.{enter_request, cancel_request, decode}
use low_level_programming.Engine.State.{InboundMessage, Engine, new, start}
use low_level_programming.Engine.Send.{Timespec, timestamp, send_accepted, publish}
use low_level_programming.Engine.Match.{
  buy_loop, sell_loop, insert_order, insert_buy_order, insert_sell_order, rest_buy, rest_sell,
  place_block, accept,
}
use low_level_programming.Engine.Cancel.{cancel_order}
use low_level_programming.Engine.Process.{process, run, dispatch}
use low_level_programming.Engine.Invariant.{IsEngine}
use low_level_programming.Engine.Fills.{BestAsk, BestBid}
use low_level_programming.Engine.Invariant.Loops.{
  Done, NoAsk, NoBid, AllowedAsk, AllowedBid, buy_loop-Done, sell_loop-Done,
}
use low_level_programming.Engine.Invariant.Rested.{Returned}
use low_level_programming.Engine.Invariant.Insert.{IsOrder, Inserted, insert_order-Inserted}
use low_level_programming.Engine.Invariant.Cancel.{cancel_order-Returned}
use low_level_programming.Engine.Invariant.Reach.{IsInbound, run-IsEngine, run-uncrossed}
use low_level_programming.Engine.Invariant.Effects.{
  Cancelled, Refused, cancel_order-Cancelled, cancel_order-Refused,
}
use low_level_programming.Shared.{◌==◌, update, update_self, ltb, if◌then◌else◌, ◌-◌}
use low_level_programming.Engine.Tests.States.{
  book_of, entry_of, bid_engine-IsBook, order_of, price_of_order, side_of_order, ask_engine,
  bid_engine, ask_engine-IsEngine, bid_engine-IsEngine,
}

abbrev clock : ℕ → Timespec
clock n = record { tv_sec = 86400; tv_nsec = n }

bid-IsOrder : IsOrder 2 (order_of b'B')
bid-IsOrder = record {
  side = inl (side_of_order b'B');
  priced = inr (rw (price_of_order b'B') (omega arith));
}

ask-IsOrder : IsOrder 2 (order_of b'S')
ask-IsOrder = record {
  side = inr (side_of_order b'S');
  priced = inr (rw (price_of_order b'S') (omega arith));
}

buy_loop-Done_example :
    Done 2 2 clock 9
      (order_of b'B')
      BestAsk
      (AllowedAsk 2 2 clock 9 (order_of b'B'))
      ask_engine-IsEngine.book
      ask_engine
      8
      (NoAsk 2 2 clock 9 (order_of b'B'))
      (buy_loop 2 clock 3 9 (order_of b'B') 8 ask_engine)
buy_loop-Done_example =
    buy_loop-Done 2 2 clock 9 (order_of b'B') 3 8 ask_engine ask_engine-IsEngine (omega arith)
      (omega arith) (inr (omega arith))

sell_loop-Done_example :
    Done 2 2 clock 9
      (order_of b'S')
      (BestBid 2)
      (AllowedBid 2 2 clock 9 (order_of b'S') 1)
      bid_engine-IsEngine.book
      bid_engine
      8
      (NoBid 2 2 clock 9 (order_of b'S') 1)
      (sell_loop 2 clock 3 9 (order_of b'S') 1 8 bid_engine)
sell_loop-Done_example =
    sell_loop-Done 2 2 clock 9 (order_of b'S') 3 1 8 bid_engine bid_engine-IsEngine (omega arith)
      (omega arith) (inr (omega arith))

insert_order-Inserted_example :
    Inserted 2 2 clock 9
      (order_of b'B')
      (EnterRequestView.side (order_of b'B') == b'B')
      ask_engine
      ask_engine-IsEngine.book
      (insert_order 2 clock 9 (order_of b'B') ask_engine)
insert_order-Inserted_example =
    insert_order-Inserted 2 2 clock 9 (order_of b'B') ask_engine ask_engine-IsEngine bid-IsOrder

-- a cancel to 1 of the order with user reference number 3
abbrev cancel : Buffer
cancel = b'X' ∷ 0 ∷ 0 ∷ 0 ∷ 3 ∷ 0 ∷ 0 ∷ 0 ∷ 1 ∷ []

cancel_order-Returned_example : Returned 2 2 (cancel_order 2 clock 9 cancel bid_engine)
cancel_order-Returned_example =
    cancel_order-Returned 2 2 clock 9 cancel bid_engine bid_engine-IsEngine

abbrev entered : (account side : ℕ) → InboundMessage
entered account side = record { account = account; bytes = order_of side }

entered-IsInbound :
    (account side : ℕ) → IsOrder 2 (order_of side) → IsInbound 2 (entered account side)
unfolding decode
entered-IsInbound account side good = (enter_request (order_of side), refl, good)

cancelled-IsInbound : IsInbound 2 (record { account = 9; bytes = cancel })
unfolding decode
cancelled-IsInbound = (cancel_request cancel, refl, tt)

abbrev three : List InboundMessage
three = entered 9 b'S' ∷ record { account = 9; bytes = cancel } ∷ entered 8 b'B' ∷ []

three-IsInbound : All (IsInbound 2) three
three-IsInbound = (
  entered-IsInbound 9 b'S' ask-IsOrder,
  (cancelled-IsInbound, (entered-IsInbound 8 b'B' bid-IsOrder, tt)),
)

run-IsEngine_example : (e : Engine) × ((new true 2 2 >>= run 2 clock three) ≡ ok e) × IsEngine 2 2 e
run-IsEngine_example =
    run-IsEngine 2 2 clock three (omega arith) (omega arith) (omega arith) (omega arith)
      three-IsInbound

-- a bid for 5 at price 0
abbrev low_bid : Buffer
low_bid =
    b'O' ∷ 0 ∷ 0 ∷ 0 ∷ 3 ∷ b'B' ∷ 0 ∷ 0 ∷ 0 ∷ 5 ∷ 0 ∷ 0 ∷ 0 ∷ 0 ∷ 0 ∷ 0 ∷ 0 ∷ 0 ∷ 0 ∷ 0 ∷ 0 ∷ 0 ∷ 0
    ∷ 0 ∷ 0 ∷ 0 ∷ []

low_bid-IsOrder : IsOrder 2 low_bid
unfolding EnterRequestView.price EnterRequestView.side load_be64 load_char load_bytes from_le to_le
    bswap
low_bid-IsOrder = record { side = inl refl; priced = inr (omega arith) }

abbrev both : List InboundMessage
both = entered 9 b'S' ∷ record { account = 8; bytes = low_bid } ∷ []

both-IsInbound : All (IsInbound 2) both
unfolding decode
both-IsInbound =
    (entered-IsInbound 9 b'S' ask-IsOrder, ((enter_request low_bid, refl, low_bid-IsOrder), tt))

abbrev ok_or : Engine → Outcome Engine → Engine
ok_or d (ok e) = e
ok_or d _ = d

abbrev both_engine : Engine
both_engine = ok_or ask_engine (new true 2 2 >>= run 2 clock both)

both-run : (new true 2 2 >>= run 2 clock both) ≡ ok both_engine
unfolding new run process decode dispatch insert_order insert_buy_order insert_sell_order buy_loop
    sell_loop rest_buy rest_sell place_block accept send_accepted publish EnterRequestView.price
    EnterRequestView.side EnterRequestView.quantity load_be64 load_be32 load_char load_bytes from_le
    to_le bswap start Allocator.new Allocator.link_down Allocator.allocate append_list store
    set_next timestamp
both-run = refl

both_bids : 0 < both_engine.buy_orders
unfolding new run process decode dispatch insert_order insert_buy_order insert_sell_order buy_loop
    sell_loop rest_buy rest_sell place_block accept send_accepted publish EnterRequestView.price
    EnterRequestView.side EnterRequestView.quantity load_be64 load_be32 load_char load_bytes from_le
    to_le bswap start Allocator.new Allocator.link_down Allocator.allocate append_list store
    set_next timestamp
both_bids = omega arith

both_asks : 0 < both_engine.sell_orders
unfolding new run process decode dispatch insert_order insert_buy_order insert_sell_order buy_loop
    sell_loop rest_buy rest_sell place_block accept send_accepted publish EnterRequestView.price
    EnterRequestView.side EnterRequestView.quantity load_be64 load_be32 load_char load_bytes from_le
    to_le bswap start Allocator.new Allocator.link_down Allocator.allocate append_list store
    set_next timestamp
both_asks = omega arith

run-uncrossed_example :
    (both_engine.best_buy_idx < both_engine.best_sell_idx)
    × (both_engine.best_sell_idx < 2)
    × (is_none (both_engine.order_buffer both_engine.best_buy_idx).head ≡ false)
    × (is_none (both_engine.order_buffer both_engine.best_sell_idx).head ≡ false)
run-uncrossed_example =
    run-uncrossed 2 2 clock both both_engine (omega arith) (omega arith) (omega arith) (omega arith)
      both-IsInbound both-run both_bids both_asks

cancel_urn : CancelRequestView.user_ref_num cancel ≡ 3
unfolding CancelRequestView.user_ref_num load_be32 load_bytes from_le to_le bswap
cancel_urn = refl

cancel_quantity : CancelRequestView.quantity cancel ≡ 1
unfolding CancelRequestView.quantity load_be32 load_bytes from_le to_le bswap
cancel_quantity = refl

bid_mapped : bid_engine.order_blocks_map (order_key 9 3) ≡ some 0
bid_mapped = update_self (λ _. none) (order_key 9 3) (some 0)

cancel_order-Cancelled_example :
    Cancelled 2 2 clock 9 3
      (5 - CancelRequestView.quantity cancel)
      bid_engine
      (update (book_of b'B') 1 (
        if ltb 0 (CancelRequestView.quantity cancel)
        then record (entry_of b'B') { curr_qty = CancelRequestView.quantity cancel } ∷ []
        else []))
      (cancel_order 2 clock 9 cancel bid_engine)
cancel_order-Cancelled_example =
    cancel_order-Cancelled 2 2 clock 9 3 bid_engine bid_engine-IsBook 1 [] (entry_of b'B') []
      (omega arith) refl cancel cancel_urn bid_mapped refl (rw cancel_quantity (omega arith))

-- a cancel to 5 of an order that holds 5
abbrev keep : Buffer
keep = b'X' ∷ 0 ∷ 0 ∷ 0 ∷ 3 ∷ 0 ∷ 0 ∷ 0 ∷ 5 ∷ []

keep_urn : CancelRequestView.user_ref_num keep ≡ 3
unfolding CancelRequestView.user_ref_num load_be32 load_bytes from_le to_le bswap
keep_urn = refl

keep_quantity : CancelRequestView.quantity keep ≡ 5
unfolding CancelRequestView.quantity load_be32 load_bytes from_le to_le bswap
keep_quantity = refl

none_larger_than_five :
    (i : ℕ)
    → All
        (λ x. x.key ≡ order_key 9 3 → x.curr_qty ≤ CancelRequestView.quantity keep)
        (book_of b'B' i)
none_larger_than_five i = elim (Bool-cases (1 == i)) [
  | inl at ↦ rw at (λ at_key. rw keep_quantity (omega arith), tt)
  | inr apart ↦ rw apart tt
]

cancel_order-Refused_example :
    Refused 2 2 clock 9 3 bid_engine (cancel_order 2 clock 9 keep bid_engine)
cancel_order-Refused_example =
    cancel_order-Refused 2 2 clock 9 3 keep bid_engine bid_engine-IsBook keep_urn
      none_larger_than_five
