-- ===== src/Network/Uring/Sends.antt =====
-- A response in flight, and two of them for one account.
use low_level_programming.Shared.{
  ℕ, suc, ◌<◌, ◌≤◌, ◌≡◌, refl, true, false, some, [], ◌∷◌, ◌++◌, ◌==◌, ltb, length, ok, arith,
  append_assoc, if◌then◌else◌, get_or,
}
use low_level_programming.Messages.Bytes.{Buffer, load_bytes}
use low_level_programming.Engine.State.{OutboundMessage}
use low_level_programming.Network.Sockets.{is_negative, no_fd, response_size}
use low_level_programming.Network.Uring.{
  write, Device, submit_all, cqe_seen, prep_send, send_msg, queue_write,
}
use low_level_programming.Network.Uring.Completion.{
  take_flight, receive_locked, receive_msg, drop, on_success, on_write,
}
use low_level_programming.Messages.Bytes.Fields.{load_bytes_all}
use low_level_programming.Network.Uring.Buffers.{length-load_bytes}
use low_level_programming.Network.Uring.Invariant.{owned}

response_size-le : (ty size : ℕ) → response_size ty ≡ some size → size ≤ 64
unfolding response_size
response_size-le ty size e = ground arith

abbrev pub to : ℕ → Buffer → OutboundMessage
to account bytes = record { account = account; bytes = bytes }

-- A known response goes in flight whole.
abbrev pub sent_from : Device → (account : ℕ) → Buffer → Device
sent_from d account bs = record d {
  inflight_requests = owned write d.allocated account no_fd bs ∷ d.inflight_requests;
  allocated = suc d.allocated;
  calls = d.calls ++ (prep_send d.allocated account bs ∷ []) ++ (submit_all ∷ []);
}

pub send_msg-known :
    (d : Device) (account : ℕ) (bytes : Buffer) (size submitted : ℕ)
    → response_size (get_or bytes 0 0) ≡ some size
    → send_msg submitted (to account bytes) d
      ≡ (if is_negative submitted then 1 else 0, sent_from d account (load_bytes bytes 0 size))
unfolding send_msg
send_msg-known d account bytes size submitted known =
    let bs = load_bytes bytes 0 size in
    let full : load_bytes bs 0 size ≡ bs =
      load_bytes_all bs size (length-load_bytes bytes 0 size) in
    rw (known, send_msg, full)

take_flight_second :
    (d : Device) (bs₁ bs₂ : Buffer) (account : ℕ)
    → take_flight d.allocated (
        owned write (suc d.allocated) account no_fd bs₂
        ∷ owned write d.allocated account no_fd bs₁
        ∷ d.inflight_requests)
      ≡ some (
        owned write d.allocated account no_fd bs₁,
        owned write (suc d.allocated) account no_fd bs₂ ∷ d.inflight_requests,
      )
unfolding take_flight
take_flight_second d bs₁ bs₂ account = ground arith

-- When two responses for one account are sent and then a part of the first is reported as sent, the
-- rest of the first is queued after the whole of the second, so that the kernel is asked to send
-- the second in the middle of the first.
pub send_msg-later_first :
    (d : Device) (account : ℕ) (bytes₁ bytes₂ : Buffer) (size₁ size₂ submitted₁ submitted₂ : ℕ)
    → response_size (get_or bytes₁ 0 0) ≡ some size₁
    → response_size (get_or bytes₂ 0 0) ≡ some size₂
    → (res : ℕ) → 0 < res
    → res < size₁
    → (stack : Buffer)
    → (d' : Device) × (receive_msg stack
          (some (record { user_data = d.allocated; res = res; received = [] }))
          (send_msg submitted₂ (to account bytes₂) (send_msg submitted₁ (to account bytes₁) d).1).1
        ≡ ok d')
      × (d'.calls
          ≡ d.calls
            ++ (prep_send d.allocated account (load_bytes bytes₁ 0 size₁)
                ∷ submit_all
                ∷ prep_send (suc d.allocated) account (load_bytes bytes₂ 0 size₂)
                ∷ submit_all
                ∷ cqe_seen
                ∷ prep_send d.allocated account (drop res (load_bytes bytes₁ 0 size₁))
                ∷ submit_all
                ∷ []))
unfolding receive_msg receive_locked
send_msg-later_first d account bytes₁ bytes₂ size₁ size₂ submitted₁ submitted₂ known₁ known₂ res pos
      short stack =
    let bs₁ = load_bytes bytes₁ 0 size₁ in
    let bs₂ = load_bytes bytes₂ 0 size₂ in
    let good : is_negative res ≡ false =
      ground (arith, response_size-le (get_or bytes₁ 0 0) size₁ known₁) in
    let some_bytes : (res == 0) ≡ false = ground arith in
    let partial : ltb res (length bs₁) ≡ true = ground (arith, length-load_bytes bytes₁ 0 size₁) in
    let os =
      owned write (suc d.allocated) account no_fd bs₂
      ∷ owned write d.allocated account no_fd bs₁
      ∷ d.inflight_requests in
    let there : take_flight d.allocated os
        ≡ some (
          owned write d.allocated account no_fd bs₁,
          owned write (suc d.allocated) account no_fd bs₂ ∷ d.inflight_requests,
        ) =
      take_flight_second d bs₁ bs₂ account in
    let left = drop res bs₁ in
    let full : load_bytes left 0 (length left) ≡ left = load_bytes_all left (length left) refl in
    (
      record d {
        inflight_requests =
            owned write d.allocated account no_fd left
            ∷ owned write (suc d.allocated) account no_fd bs₂
            ∷ d.inflight_requests;
        allocated = suc (suc d.allocated);
        calls =
            d.calls
            ++ (prep_send d.allocated account bs₁ ∷ [])
            ++ (submit_all ∷ [])
            ++ (prep_send (suc d.allocated) account bs₂ ∷ [])
            ++ (submit_all ∷ [])
            ++ (cqe_seen ∷ [])
            ++ (prep_send d.allocated account left ∷ [])
            ++ (submit_all ∷ []);
      },
      rw
          (
            send_msg-known d account bytes₁ size₁ submitted₁ known₁,
            send_msg-known (sent_from d account bs₁) account bytes₂ size₂ submitted₂ known₂,
          )
          (rw
            (
              receive_msg, receive_locked, there, good, on_success, some_bytes, on_write, partial,
              queue_write, full,
            )
            refl),
      simp append_assoc,
    )
