-- ===== src/Network/Uring/Requests.antt =====
-- Every request in flight is what the kernel was last asked for under its pointer, and every entry
-- that was claimed is submitted: kept by the first section of `receive_msg`.
use low_level_programming.Shared.{
  ℕ, suc, ◌+◌, ◌≤◌, ◌≡◌, refl, inl, inr, true, false, some, List, [], ◌∷◌, ◌++◌, ◌==◌, ltb, length,
  arith, Bool-cases, All, replicate,
}
use low_level_programming.Messages.Bytes.{Buffer, load_bytes, store_bytes}
use low_level_programming.Messages.Bytes.Fields.{load_bytes_all}
use low_level_programming.Network.Sockets.{is_negative, no_fd, in_size, max_req_size}
use low_level_programming.Network.Uring.{
  EventType, accept, read, write, Owned, Call, submit_all, cqe_seen, prep_accept, prep_recv,
  prep_send, queue_write,
}
use low_level_programming.Network.Uring.Completion.{
  Completion, receive_locked, drop, on_success, on_read, on_write,
}
use low_level_programming.Network.Uring.Buffers.{length-store_bytes, store_bytes_none}
use low_level_programming.Network.Uring.Lists.{count_if, one_if, is_at, Taken, take_flight-Taken}
use low_level_programming.Network.Uring.World.{World, IsCompletion, note, place}
use low_level_programming.Network.Uring.Invariant.{Fits, IsWorld, Returns, owned}
use low_level_programming.Network.Uring.Leave.{rest_pointers}
use low_level_programming.Network.Uring.Asked.{
  ask_of, Asked, Asks, submitted, submitted_now, submitted_seen, still-Asked, claim-Asked,
}

-- One entry is claimed and submitted.
pub claim-submit :
    (calls : List Call) (o : Owned) (os : List Owned)
    → count_if (is_at o.pointer) os ≡ 0
    → All (Asked calls) os
    → All (Asked ((calls ++ (ask_of o ∷ [])) ++ (submit_all ∷ []))) (o ∷ os)
claim-submit calls o os free h =
    still-Asked (calls ++ (ask_of o ∷ [])) submit_all (o ∷ os) (λ p. refl)
      (claim-Asked calls o os free h)

module _ (w : World) (v : IsWorld w) (a : Asks w.device) (c : Completion) (rest : List Owned)
    (stack : Buffer) (p client_fd listen_fd : ℕ) (buf : Buffer) where
  -- after the request is taken out and its completion is seen
  seen-Asked :
      (o : Owned)
      → Taken c.user_data w.device.inflight_requests o rest
      → All (Asked (w.device.calls ++ (cqe_seen ∷ []))) rest
  seen-Asked o t =
      still-Asked w.device.calls cqe_seen rest (λ q. refl) (t.all (Asked w.device.calls) a.asked).1

  seen_submitted : submitted true (w.device.calls ++ (cqe_seen ∷ [])) ≡ true
  seen_submitted = submitted_seen w.device.calls a.all_submitted

  accept-Asks :
      IsCompletion w c (owned accept p client_fd listen_fd buf) rest
      → Returns
          (λ r. Asks (place r (note c (owned accept p client_fd listen_fd buf) w)).device)
          (receive_locked stack (some c) w.device)
  unfolding receive_locked note place
  accept-Asks k =
      let o = owned accept p client_fd listen_fd buf in
      let t : Taken c.user_data w.device.inflight_requests o rest =
        take_flight-Taken c.user_data w.device.inflight_requests o rest k.taken_out in
      let at : (q : ℕ)
          → one_if (p == q) + count_if (is_at q) rest ≤ one_if (ltb q w.device.allocated) =
        rest_pointers w v c rest o t in
      let calls = w.device.calls ++ (cqe_seen ∷ []) in
      let n = w.device.allocated in
      let again = owned accept n no_fd listen_fd [] in
      let free : count_if (is_at n) rest ≡ 0 = ground (arith, at n) in
      elim (Bool-cases (is_negative c.res)) [
        | inl negative ↦
            rw (k.taken_out, receive_locked, negative)
              (record {
                asked = claim-submit calls again rest free (seen-Asked o t);
                all_submitted = submitted_now (calls ++ (prep_accept n listen_fd ∷ []));
              })
        | inr good ↦
            rw (k.taken_out, receive_locked, good)
              (record {
                asked =
                    claim-submit (calls ++ (prep_accept n listen_fd ∷ []))
                      (owned read (suc n) c.res no_fd (replicate max_req_size 0)) (again ∷ rest)
                      (ground (arith, at (suc n)))
                      (claim-Asked calls again rest free (seen-Asked o t));
                all_submitted = submitted_now (
                    (calls ++ (prep_accept n listen_fd ∷ []))
                    ++ (prep_recv (suc n) c.res max_req_size ∷ []));
              })
      ]

  read-Asks :
      IsCompletion w c (owned read p client_fd listen_fd buf) rest
      → Returns
          (λ r. Asks (place r (note c (owned read p client_fd listen_fd buf) w)).device)
          (receive_locked stack (some c) w.device)
  unfolding receive_locked note place
  read-Asks k =
      let o = owned read p client_fd listen_fd buf in
      let t : Taken c.user_data w.device.inflight_requests o rest =
        take_flight-Taken c.user_data w.device.inflight_requests o rest k.taken_out in
      let size : length buf ≡ max_req_size = (t.all (Fits w) v.fits).0.1 in
      elim (Bool-cases (is_negative c.res)) [
        | inl negative ↦
            rw (k.taken_out, receive_locked, negative)
              (record { asked = seen-Asked o t; all_submitted = seen_submitted })
        | inr good ↦ elim (Bool-cases (c.res == 0)) [
          | inl closed ↦
              rw (k.taken_out, receive_locked, good, on_success, closed)
                (record { asked = seen-Asked o t; all_submitted = seen_submitted })
          | inr some_bytes ↦
              let inside : ltb (length (store_bytes buf 0 c.received)) c.res ≡ false =
                ground (arith, k.received refl good, length-store_bytes buf 0 c.received, size) in
              let fits : ltb in_size c.res ≡ false = ground (arith, k.received refl good) in
              rw (k.taken_out, receive_locked, good, on_success, some_bytes, on_read, inside, fits)
                (record { asked = seen-Asked o t; all_submitted = seen_submitted })
        ]
      ]

  write-Asks :
      IsCompletion w c (owned write p client_fd listen_fd buf) rest
      → Returns
          (λ r. Asks (place r (note c (owned write p client_fd listen_fd buf) w)).device)
          (receive_locked stack (some c) w.device)
  unfolding receive_locked note place
  write-Asks k =
      let o = owned write p client_fd listen_fd buf in
      let t : Taken c.user_data w.device.inflight_requests o rest =
        take_flight-Taken c.user_data w.device.inflight_requests o rest k.taken_out in
      let gone : count_if (is_at p) rest ≡ 0 = ground (arith, rest_pointers w v c rest o t p) in
      let buf_kept : store_bytes buf 0 c.received ≡ buf =
        store_bytes_none buf c.received (k.nothing λ e. cc) in
      let calls = w.device.calls ++ (cqe_seen ∷ []) in
      let left = drop c.res buf in
      let whole : load_bytes left 0 (length left) ≡ left = load_bytes_all left (length left) refl in
      elim (Bool-cases (is_negative c.res)) [
        | inl negative ↦
            rw (k.taken_out, receive_locked, negative)
              (record { asked = seen-Asked o t; all_submitted = seen_submitted })
        | inr good ↦ elim (Bool-cases (c.res == 0)) [
          | inl closed ↦
              rw (k.taken_out, receive_locked, good, on_success, closed, on_write)
                (record { asked = seen-Asked o t; all_submitted = seen_submitted })
          | inr some_bytes ↦ elim (Bool-cases (ltb c.res (length buf))) [
            | inl partial ↦
                rw
                  (
                    k.taken_out, receive_locked, good, on_success, some_bytes, on_write, buf_kept,
                    partial, queue_write, whole,
                  )
                  (record {
                    asked =
                        claim-submit calls (owned write p client_fd listen_fd left) rest gone
                          (seen-Asked o t);
                    all_submitted = submitted_now (calls ++ (prep_send p client_fd left ∷ []));
                  })
            | inr full ↦
                rw
                  (
                    k.taken_out, receive_locked, good, on_success, some_bytes, on_write, buf_kept,
                    full,
                  )
                  (record { asked = seen-Asked o t; all_submitted = seen_submitted })
          ]
        ]
      ]

  by_event :
      (event : EventType)
      → IsCompletion w c (owned event p client_fd listen_fd buf) rest
      → Returns
          (λ r. Asks (place r (note c (owned event p client_fd listen_fd buf) w)).device)
          (receive_locked stack (some c) w.device)
  by_event accept k = accept-Asks k
  by_event read k = read-Asks k
  by_event write k = write-Asks k

pub receive_locked-Asks :
    (w : World) (c : Completion) (o : Owned) (rest : List Owned) (stack : Buffer)
    → IsWorld w
    → Asks w.device
    → IsCompletion w c o rest
    → Returns (λ r. Asks (place r (note c o w)).device) (receive_locked stack (some c) w.device)
receive_locked-Asks w c o rest stack v a k =
    by_event w v a c rest stack o.pointer o.request.client_fd o.request.listen_fd o.request.buf
      o.request.event k
