-- ===== src/Network/Uring/Calls.antt =====
-- The calls made from the constructor on, whatever the two threads do: requests in flight and entries
-- claimed stay in step.
use low_level_programming.Shared.{
  ℕ, zero, suc, ◌+◌, ◌≡◌, refl, inl, inr, none, some, [], ◌∷◌, ◌++◌, replicate, arith, Bool-cases,
  Option-cases, All, subst, get_or,
}
use low_level_programming.Messages.Bytes.{load_bytes}
use low_level_programming.Engine.State.{InboundMessage, OutboundMessage}
use low_level_programming.Network.Sockets.{
  is_negative, no_fd, max_req_size, response_size, Sockets, setup_listening_socket, up, threw,
}
use low_level_programming.Network.Uring.{
  accept, read, write, Device, send_msg, submit, queue_accept, listen_on, new, prep_recv, prep_send,
  submit_all,
}
use low_level_programming.Network.Uring.Completion.{Received, receive_locked, enqueue_and_read}
use low_level_programming.Network.Uring.Lists.{count_if, is_at}
use low_level_programming.Network.Uring.World.{World, world, note, place, Step, Reach}
use low_level_programming.Network.Uring.Invariant.{IsWorld, Returns-ok, owned}
use low_level_programming.Network.Uring.Run.{
  listen-IsWorld, empty-IsWorld, unbound, Boot-cases, Reach-IsWorld,
}
use low_level_programming.Network.Uring.Sends.{send_msg-known}
use low_level_programming.Network.Uring.Asked.{Asked, Asks, submitted_now, still-Asked, claim-Asked}
use low_level_programming.Network.Uring.Requests.{claim-submit, receive_locked-Asks}

-- The next pointer is that of no request in flight.
pub next_free :
    (w : World) → IsWorld w → count_if (is_at w.device.allocated) w.device.inflight_requests ≡ 0
next_free w v = ground (arith, v.pointers w.device.allocated)

listen_on-Asked :
    (s : Sockets) (count port : ℕ) (d d' : Device)
    → IsWorld (world d)
    → All (Asked d.calls) d.inflight_requests
    → listen_on s count port d ≡ up d'
    → All (Asked d'.calls) d'.inflight_requests
unfolding listen_on queue_accept
listen_on-Asked s zero port d d' v a e =
    let same : d ≡ d' = cc in subst (λ (x : Device). All (Asked x.calls) x.inflight_requests) same a
listen_on-Asked s (suc count) port d d' v a e =
    elim (Option-cases (setup_listening_socket s port)) [
      | inl failed ↦ absurd (ground arith)
      | inr (fd, made) ↦
          listen_on-Asked s count (port + 1)
            (queue_accept fd (record d { listening_fds = d.listening_fds ++ (fd ∷ []) })) d'
            (listen-IsWorld d fd v)
            (claim-Asked d.calls (owned accept d.allocated no_fd fd []) d.inflight_requests
              (next_free (world d) v) a)
            (rw (made, listen_on) at e)
    ]

pub new-Asks :
    (s : Sockets) (setup_result first_port : ℕ) (d : Device)
    → new s setup_result first_port ≡ up d
    → Asks d
unfolding new
new-Asks s setup_result first_port d e = elim (Bool-cases (is_negative setup_result)) [
  | inl negative ↦ let no : threw ≡ up d = rw (negative, new) at e in cc
  | inr good ↦ elim (Boot-cases (listen_on s 10 first_port unbound)) [
    | inl (d', started) ↦
        let same : submit d' ≡ d = ground arith in
        subst Asks same (record {
          asked =
              still-Asked d'.calls submit_all d'.inflight_requests (λ p. refl)
                (listen_on-Asked s 10 first_port unbound d' empty-IsWorld tt started);
          all_submitted = submitted_now d'.calls;
        })
    | inr (inl ended) ↦ absurd (ground arith)
    | inr (inr ended) ↦ absurd (ground arith)
  ]
]

resume-Asks :
    (w : World) (msg : InboundMessage) (client_fd : ℕ)
    → IsWorld w
    → Asks w.device
    → Asks (enqueue_and_read msg client_fd w.device)
unfolding enqueue_and_read
resume-Asks w msg client_fd v a =
    let n = w.device.allocated in
    record {
      asked =
          claim-submit w.device.calls (owned read n client_fd no_fd (replicate max_req_size 0))
            w.device.inflight_requests (next_free w v) a.asked;
      all_submitted = submitted_now (w.device.calls ++ (prep_recv n client_fd max_req_size ∷ []));
    }

send-Asks :
    (w : World) (submitted_result : ℕ) (message : OutboundMessage)
    → IsWorld w
    → Asks w.device
    → Asks (send_msg submitted_result message w.device).1
unfolding send_msg
send-Asks w submitted_result message v a =
    elim (Option-cases (response_size (get_or message.bytes 0 0))) [
      | inl unknown ↦ rw (unknown, send_msg) a
      | inr (size, known) ↦
          let n = w.device.allocated in
          let bs = load_bytes message.bytes 0 size in
          rw (send_msg-known w.device message.account message.bytes size submitted_result known)
            (record {
              asked =
                  claim-submit w.device.calls (owned write n message.account no_fd bs)
                    w.device.inflight_requests (next_free w v) a.asked;
              all_submitted =
                  submitted_now (w.device.calls ++ (prep_send n message.account bs ∷ []));
            })
    ]

Step-Asks : {w u : World} → IsWorld w → Asks w.device → Step w u → Asks u.device
unfolding receive_locked place
Step-Asks {w} v a (Step.receive {c = c} {o = o} {rest = rest} stack {r = r} idle k e) =
    Returns-ok (λ (x : Received). Asks (place x (note c o w)).device)
      (receive_locked stack (some c) w.device) r e (receive_locked-Asks w c o rest stack v a k)
Step-Asks {w} v a (Step.wait_failed stack {r = r} idle e) =
    Returns-ok (λ (x : Received). Asks (place x w).device) (receive_locked stack none w.device) r e
      a
Step-Asks {w} v a (Step.resume {msg = msg} {client_fd = client_fd} e) =
    resume-Asks w msg client_fd v a
Step-Asks {w} v a (Step.send submitted_result message) = send-Asks w submitted_result message v a

pub Reach-Asks : {w u : World} → IsWorld w → Asks w.device → Reach w u → Asks u.device
Reach-Asks v a Reach.here = a
Reach-Asks v a (Reach.after r s) = Step-Asks (Reach-IsWorld v r) (Reach-Asks v a r) s
