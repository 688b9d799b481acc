-- ===== src/Engine/Send.antt =====
-- `timestamp`, `publish` and the `send_` functions, lines 57 to 125 of
-- 4_order_book_proj/src/engine.hpp. `clock_gettime` is outside: `clock n` is what its n-th call
-- stores into `ts`.
use low_level_programming.Shared.{ℕ, ◌+◌, ◌*◌, ◌%◌, [], ◌∷◌, ◌++◌, replicate, u64, add64}
use low_level_programming.Messages.Bytes.{Buffer, store_bytes}
use low_level_programming.Messages.EnterRequestView
use low_level_programming.Messages.AcceptResponseView
use low_level_programming.Messages.AcceptResponseBuilder
use low_level_programming.Messages.CancelledResponseBuilder
use low_level_programming.Messages.CancelRejectResponseBuilder
use low_level_programming.Messages.ExecutedResponseBuilder
use low_level_programming.Engine.State.{OrderBlock, Engine, key_account, key_ref_num}

pub record Timespec : Type 0 where
  pub tv_sec : ℕ
  pub tv_nsec : ℕ

-- nanoseconds since midnight
unfoldable pub timestamp_of : Timespec → ℕ
timestamp_of ts = u64 (ts.tv_sec % 86400 * 1_000_000_000 + ts.tv_nsec)

-- `OutboundMessage msg{account, {}}` is 64 zero bytes; the message is copied to their start.
unfoldable pub publish : ℕ → Buffer → Engine → Engine
unfolding store_bytes
publish account bytes e = record e {
  outgoing =
      e.outgoing
      ++ (record {
        account = account;
        bytes = store_bytes (replicate AcceptResponseView.wire_size 0) 0 bytes;
      }
          ∷ []);
}

unfoldable pub accepted_bytes : ℕ → Buffer → ℕ → Buffer
accepted_bytes time order id = AcceptResponseBuilder.bytes (
    AcceptResponseBuilder.cl_ord_id (EnterRequestView.cl_ord_id order) (
      AcceptResponseBuilder.order_state b'L' (
        AcceptResponseBuilder.cross_type (EnterRequestView.cross_type order) (
          AcceptResponseBuilder.inter_market_sweep_elig
            (EnterRequestView.inter_market_sweep_elig order)
            (AcceptResponseBuilder.capacity (EnterRequestView.capacity order) (
              AcceptResponseBuilder.order_reference_number id (
                AcceptResponseBuilder.display (EnterRequestView.display order) (
                  AcceptResponseBuilder.time_in_force (EnterRequestView.time_in_force order) (
                    AcceptResponseBuilder.price (EnterRequestView.price order) (
                      AcceptResponseBuilder.symbol (EnterRequestView.symbol order) (
                        AcceptResponseBuilder.quantity (EnterRequestView.quantity order) (
                          AcceptResponseBuilder.side (EnterRequestView.side order) (
                            AcceptResponseBuilder.user_ref_num (EnterRequestView.user_ref_num order)
                              (AcceptResponseBuilder.timestamp time
                                AcceptResponseBuilder.new))))))))))))))

unfoldable pub executed_bytes : (time user_ref_num qty price liquidity match : ℕ) → Buffer
executed_bytes time user_ref_num qty price liquidity match = ExecutedResponseBuilder.bytes (
    ExecutedResponseBuilder.match_number match (
      ExecutedResponseBuilder.liquidity_flag liquidity (
        ExecutedResponseBuilder.price price (
          ExecutedResponseBuilder.quantity qty (
            ExecutedResponseBuilder.user_ref_num user_ref_num
              (ExecutedResponseBuilder.timestamp time ExecutedResponseBuilder.new))))))

unfoldable pub cancelled_bytes : (time user_ref_num qty reason : ℕ) → Buffer
cancelled_bytes time user_ref_num qty reason = CancelledResponseBuilder.bytes (
    CancelledResponseBuilder.reason reason (
      CancelledResponseBuilder.quantity qty (
        CancelledResponseBuilder.user_ref_num user_ref_num
          (CancelledResponseBuilder.timestamp time CancelledResponseBuilder.new))))

unfoldable pub cancel_rejected_bytes : (time user_ref_num : ℕ) → Buffer
cancel_rejected_bytes time user_ref_num = CancelRejectResponseBuilder.bytes (
    CancelRejectResponseBuilder.appendage_length 0 (
      CancelRejectResponseBuilder.user_ref_num user_ref_num
        (CancelRejectResponseBuilder.timestamp time CancelRejectResponseBuilder.new)))

module _ (clock : ℕ → Timespec) where
  unfoldable pub timestamp : Engine → ℕ × Engine
  unfolding timestamp_of
  timestamp e = (timestamp_of (clock e.clock_reads), record e { clock_reads = e.clock_reads + 1 })

  unfoldable pub send_accepted : ℕ → Buffer → ℕ → Engine → Engine
  unfolding timestamp
  send_accepted account order id e =
      let (time, e') = timestamp e in publish account (accepted_bytes time order id) e'

  unfoldable pub send_executed :
      (account user_ref_num qty price liquidity match : ℕ) → Engine → Engine
  unfolding timestamp
  send_executed account user_ref_num qty price liquidity match e =
      let (time, e') = timestamp e in
      publish account (executed_bytes time user_ref_num qty price liquidity match) e'

  -- one message to each side of the fill, with the same match number
  unfoldable pub send_fills : ℕ → Buffer → OrderBlock → (qty price : ℕ) → Engine → Engine
  unfolding send_executed
  send_fills account order block qty price e =
      let match = add64 e.match_counter 1 in
      let e₁ = record e { match_counter = match } in
      let e₂ =
        send_executed account (EnterRequestView.user_ref_num order) qty price b'R' match e₁ in
      send_executed (key_account block.key) (key_ref_num block.key) qty price b'A' match e₂

  unfoldable pub send_cancelled : (account user_ref_num qty reason : ℕ) → Engine → Engine
  unfolding timestamp
  send_cancelled account user_ref_num qty reason e =
      let (time, e') = timestamp e in
      publish account (cancelled_bytes time user_ref_num qty reason) e'

  unfoldable pub send_cancel_rejected : (account user_ref_num : ℕ) → Engine → Engine
  unfolding timestamp
  send_cancel_rejected account user_ref_num e =
      let (time, e') = timestamp e in publish account (cancel_rejected_bytes time user_ref_num) e'
