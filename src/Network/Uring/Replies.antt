-- ===== src/Network/Uring/Replies.antt =====
-- The engine's responses through the device: `publish` of engine.hpp, then `send_msg`.
use low_level_programming.Shared.{
  ℕ, ◌≡◌, refl, ap, ◌∙◌, some, [], ◌∷◌, ◌++◌, get_or, replicate, if◌then◌else◌,
}
use low_level_programming.Messages.Bytes.{Buffer, load_bytes, store_bytes, store_str, load_str}
use low_level_programming.Messages.AcceptResponseView
use low_level_programming.Messages.EnterRequestView
use low_level_programming.Messages.AcceptResponseBuilder
use low_level_programming.Messages.ExecutedResponseBuilder
use low_level_programming.Messages.CancelledResponseBuilder
use low_level_programming.Messages.CancelRejectResponseBuilder
use low_level_programming.Engine.Send.{
  accepted_bytes, executed_bytes, cancelled_bytes, cancel_rejected_bytes, publish,
}
use low_level_programming.Engine.State.{Engine, OutboundMessage}
use low_level_programming.Network.Sockets.{is_negative, response_size}
use low_level_programming.Network.Uring.{Device, send_msg}
use low_level_programming.Network.Uring.Sends.{sent_from, to, send_msg-known}

-- `OutboundMessage::bytes`, as `publish` fills it
abbrev pub padded : Buffer → Buffer
padded bytes = store_bytes (replicate AcceptResponseView.wire_size 0) 0 bytes

module _ (submitted : ℕ) (d : Device) (account : ℕ) where
  -- The reply goes in flight with its own bytes and no others.
  abbrev pub Replies : Buffer → Type 0
  Replies bytes =
      send_msg submitted (to account (padded bytes)) d
      ≡ (if is_negative submitted then 1 else 0, sent_from d account bytes)

  reply :
      (bytes : Buffer) (size : ℕ)
      → response_size (get_or (padded bytes) 0 0) ≡ some size
      → load_bytes (padded bytes) 0 size ≡ bytes
      → Replies bytes
  reply bytes size known whole =
      send_msg-known d account (padded bytes) size submitted known
      ∙ ap (λ (bs : Buffer). (if is_negative submitted then 1 else 0, sent_from d account bs)) whole

  accepted-Replies : (time : ℕ) (order : Buffer) (id : ℕ) → Replies (accepted_bytes time order id)
  unfolding accepted_bytes store_bytes load_bytes response_size AcceptResponseBuilder.bytes
      AcceptResponseBuilder.capacity AcceptResponseBuilder.cl_ord_id
      AcceptResponseBuilder.cross_type AcceptResponseBuilder.display
      AcceptResponseBuilder.inter_market_sweep_elig AcceptResponseBuilder.new
      AcceptResponseBuilder.order_reference_number AcceptResponseBuilder.order_state
      AcceptResponseBuilder.price AcceptResponseBuilder.quantity AcceptResponseBuilder.side
      AcceptResponseBuilder.symbol AcceptResponseBuilder.time_in_force
      AcceptResponseBuilder.timestamp AcceptResponseBuilder.user_ref_num store_str
      EnterRequestView.symbol EnterRequestView.cl_ord_id load_str
  accepted-Replies time order id = reply (accepted_bytes time order id) 64 refl refl

  executed-Replies :
      (time user_ref_num qty price liquidity match : ℕ)
      → Replies (executed_bytes time user_ref_num qty price liquidity match)
  unfolding executed_bytes store_bytes load_bytes response_size ExecutedResponseBuilder.bytes
      ExecutedResponseBuilder.liquidity_flag ExecutedResponseBuilder.match_number
      ExecutedResponseBuilder.new ExecutedResponseBuilder.price ExecutedResponseBuilder.quantity
      ExecutedResponseBuilder.timestamp ExecutedResponseBuilder.user_ref_num
  executed-Replies time user_ref_num qty price liquidity match =
      reply (executed_bytes time user_ref_num qty price liquidity match) 36 refl refl

  cancelled-Replies :
      (time user_ref_num qty reason : ℕ) → Replies (cancelled_bytes time user_ref_num qty reason)
  unfolding cancelled_bytes store_bytes load_bytes response_size CancelledResponseBuilder.bytes
      CancelledResponseBuilder.new CancelledResponseBuilder.quantity CancelledResponseBuilder.reason
      CancelledResponseBuilder.timestamp CancelledResponseBuilder.user_ref_num
  cancelled-Replies time user_ref_num qty reason =
      reply (cancelled_bytes time user_ref_num qty reason) 18 refl refl

  cancel_rejected-Replies :
      (time user_ref_num : ℕ) → Replies (cancel_rejected_bytes time user_ref_num)
  unfolding cancel_rejected_bytes store_bytes load_bytes response_size
      CancelRejectResponseBuilder.appendage_length CancelRejectResponseBuilder.bytes
      CancelRejectResponseBuilder.new CancelRejectResponseBuilder.timestamp
      CancelRejectResponseBuilder.user_ref_num
  cancel_rejected-Replies time user_ref_num =
      reply (cancel_rejected_bytes time user_ref_num) 15 refl refl

  -- `publish` enqueues a message that goes in flight with the bytes that were published.
  abbrev pub Carried : Engine → Buffer → Type 0
  Carried e bytes =
      (m : OutboundMessage) × ((publish account bytes e).outgoing ≡ e.outgoing ++ (m ∷ []))
      × (send_msg submitted m d
          ≡ (if is_negative submitted then 1 else 0, sent_from d account bytes))

  carry : (e : Engine) (bytes : Buffer) → Replies bytes → Carried e bytes
  unfolding publish
  carry e bytes sent = (to account (padded bytes), refl, sent)

  -- Each of the four responses of the engine, whatever its fields, is enqueued by publish as a
  -- message for which send_msg puts in flight a request to write exactly the bytes that were
  -- published, to the account, and returns 1 if the submission failed and 0 if not.
  pub replies-Carried :
      (e : Engine)
      → ((time : ℕ) (order : Buffer) (id : ℕ) → Carried e (accepted_bytes time order id))
        × ((time user_ref_num qty price liquidity match : ℕ)
            → Carried e (executed_bytes time user_ref_num qty price liquidity match))
        × ((time user_ref_num qty reason : ℕ)
            → Carried e (cancelled_bytes time user_ref_num qty reason))
        × ((time user_ref_num : ℕ) → Carried e (cancel_rejected_bytes time user_ref_num))
  replies-Carried e = (
    λ time order id. carry e _ (accepted-Replies time order id),
    λ time user_ref_num qty price liquidity match.
        carry e _ (executed-Replies time user_ref_num qty price liquidity match),
    λ time user_ref_num qty reason. carry e _ (cancelled-Replies time user_ref_num qty reason),
    λ time user_ref_num. carry e _ (cancel_rejected-Replies time user_ref_num),
  )
