-- ===== src/Network/Uring/Run.antt =====
-- Every section of the two threads keeps the invariant, from the constructor on.
use low_level_programming.Shared.{
  ℕ, zero, suc, ◌+◌, ◌<◌, ◌≡◌, refl, ◌⊎◌, inl, inr, false, Option, none, some, List, [], ◌∷◌, ◌++◌,
  ◌==◌, update, arith, Bool-cases, Option-cases, subst, update_self, get_or,
}
use low_level_programming.Messages.Bytes.{Buffer, load_bytes}
use low_level_programming.Engine.State.{InboundMessage, OutboundMessage}
use low_level_programming.Network.Sockets.{
  is_negative, response_size, Sockets, setup_listening_socket, Boot, up, exited, threw,
}
use low_level_programming.Network.Uring.{
  Device, Call, submit_all, send_msg, submit, queue_accept, listen_on, new,
}
use low_level_programming.Network.Uring.Completion.{Received, receive_locked, enqueue_and_read}
use low_level_programming.Network.Uring.Buffers.{length-load_bytes}
use low_level_programming.Network.Uring.Lists.{count_if, is_at, is_number, All-others, count-append}
use low_level_programming.Network.Uring.World.{World, world, note, note_message, place, Step, Reach}
use low_level_programming.Network.Uring.Invariant.{Shape, FitsIn, Fits, IsWorld, Returns-ok}
use low_level_programming.Network.Uring.Receive.{receive_locked-IsWorld}

-- A request to accept, on a socket that is added to the listening ones.
pub listen-IsWorld :
    (d : Device) (fd : ℕ)
    → IsWorld (world d)
    → IsWorld (world (queue_accept fd (record d { listening_fds = d.listening_fds ++ (fd ∷ []) })))
unfolding queue_accept
listen-IsWorld d fd v = record {
  accepts =
      λ fd'. ground (arith, v.accepts fd', count-append (is_number fd') d.listening_fds (fd ∷ []));
  reads = λ fd'. ground (arith, v.reads fd');
  once = v.once;
  pointers = λ p. ground (arith, v.pointers p, v.pointers d.allocated);
  fits = (refl, v.fits);
  unused = λ p later. (refl, refl, refl);
  landed = λ p gone. inr refl;
}

listen_on-IsWorld :
    (s : Sockets) (count port : ℕ) (d d' : Device)
    → IsWorld (world d)
    → listen_on s count port d ≡ up d'
    → IsWorld (world d')
unfolding listen_on
listen_on-IsWorld s zero port d d' v e =
    let same : d ≡ d' = cc in subst (λ (x : Device). IsWorld (world x)) same v
listen_on-IsWorld s (suc count) port d d' v e =
    elim (Option-cases (setup_listening_socket s port)) [
      | inl failed ↦ absurd (ground arith)
      | inr (fd, made) ↦
          listen_on-IsWorld s count (port + 1)
            (queue_accept fd (record d { listening_fds = d.listening_fds ++ (fd ∷ []) })) d'
            (listen-IsWorld d fd v) (rw (made, listen_on) at e)
    ]

pub Boot-cases : (b : Boot Device) → ((d : Device) × (b ≡ up d)) ⊎ ((b ≡ exited) ⊎ (b ≡ threw))
Boot-cases (up d) = inl (d, refl)
Boot-cases exited = inr (inl refl)
Boot-cases threw = inr (inr refl)

abbrev pub unbound : Device
unbound = record {
  inflight_requests = [];
  listening_fds = [];
  queue = [];
  calls = [];
  allocated = 0;
}

pub empty-IsWorld : IsWorld (world unbound)
empty-IsWorld = record {
  accepts = λ fd. refl;
  reads = λ fd. omega arith;
  once = λ fd. omega arith;
  pointers = λ p. omega arith;
  fits = tt;
  unused = λ p later. (refl, refl, refl);
  landed = λ p gone. inr refl;
}

-- Calls are no part of the invariant.
call-IsWorld :
    (w : World) (calls : List Call)
    → IsWorld w
    → IsWorld (record w { device = record (w.device) { calls = calls } })
call-IsWorld w calls v = record {
  accepts = v.accepts;
  reads = v.reads;
  once = v.once;
  pointers = v.pointers;
  fits = v.fits;
  unused = v.unused;
  landed = v.landed;
}

pub new-IsWorld :
    (s : Sockets) (setup_result first_port : ℕ) (d : Device)
    → new s setup_result first_port ≡ up d
    → IsWorld (world d)
unfolding new
new-IsWorld s setup_result first_port d e = elim (Bool-cases (is_negative setup_result)) [
  | inl negative ↦ let no : threw ≡ up d = rw (negative, new) at e in cc
  | inr good ↦ elim (Boot-cases (listen_on s 10 first_port unbound)) [
    | inl (d', started) ↦
        let same : submit d' ≡ d = ground arith in
        subst (λ (x : Device). IsWorld (world x)) same
          (call-IsWorld (world d') (d'.calls ++ (submit_all ∷ []))
            (listen_on-IsWorld s 10 first_port unbound d' empty-IsWorld started))
    | inr (inl ended) ↦ absurd (ground arith)
    | inr (inr ended) ↦ absurd (ground arith)
  ]
]

resume-IsWorld :
    (w : World) (msg : InboundMessage) (client_fd : ℕ)
    → IsWorld w
    → w.reading ≡ some (msg, client_fd)
    → IsWorld (record w { device = enqueue_and_read msg client_fd w.device; reading = none })
unfolding enqueue_and_read
resume-IsWorld w msg client_fd v e = record {
  accepts = λ fd. omega (arith, v.accepts fd);
  reads = λ fd. ground (arith, v.reads fd, e);
  once = v.once;
  pointers = λ p. ground (arith, v.pointers p, v.pointers w.device.allocated);
  fits = ((ground (arith, v.unused w.device.allocated), refl), v.fits);
  unused = λ p later. v.unused p (omega arith);
  landed = λ p gone. v.landed p (omega arith);
}

response_size-pos : (ty size : ℕ) → response_size ty ≡ some size → 0 < size
unfolding response_size
response_size-pos ty size e = ground arith

send-IsWorld :
    (w : World) (submitted : ℕ) (message : OutboundMessage)
    → IsWorld w
    → IsWorld (record (note_message message w) { device = (send_msg submitted message w.device).1 })
unfolding send_msg note_message
send-IsWorld w submitted message v =
    elim (Option-cases (response_size (get_or message.bytes 0 0))) [
      | inl unknown ↦ rw (unknown, send_msg, note_message) v
      | inr (size, known) ↦
          rw (known, send_msg, note_message)
            (let whole' = update w.whole w.device.allocated (load_bytes message.bytes 0 size) in
              let free : count_if (is_at w.device.allocated) w.device.inflight_requests ≡ 0 =
                ground (arith, v.pointers w.device.allocated) in
              let now : whole' w.device.allocated ≡ load_bytes message.bytes 0 size =
                update_self w.whole w.device.allocated (load_bytes message.bytes 0 size) in
              let (_, none_taken, kept) = v.unused w.device.allocated (omega arith) in
              record {
                accepts = λ fd. omega (arith, v.accepts fd);
                reads = λ fd. omega (arith, v.reads fd);
                once = v.once;
                pointers = λ p. ground (arith, v.pointers p, v.pointers w.device.allocated);
                fits = (
                  (
                    rw none_taken now,
                    omega (
                      arith,
                      length-load_bytes message.bytes 0 size,
                      response_size-pos (get_or message.bytes 0 0) size known,
                    ),
                    kept,
                  ),
                  All-others (Fits w) (FitsIn whole' w.taken w.lost) w.device.allocated
                      w.device.inflight_requests
                      (λ other apart h.
                        subst
                          (λ (bs : Buffer).
                            Shape bs (w.taken other.pointer) (w.lost other.pointer)
                              other.request.event other.request.buf)
                          (ground arith) h)
                      free v.fits,
                );
                unused = λ p later. ground (arith, v.unused p);
                landed = λ p gone.
                    let old : (w.device.allocated == p) ≡ false = ground arith in
                    rw old (v.landed p (omega arith));
              })
    ]

Step-IsWorld : {w u : World} → IsWorld w → Step w u → IsWorld u
unfolding receive_locked place
Step-IsWorld {w} v (Step.receive {c = c} {o = o} {rest = rest} stack {r = r} idle k e) =
    Returns-ok (λ (x : Received). IsWorld (place x (note c o w)))
      (receive_locked stack (some c) w.device) r e
      (receive_locked-IsWorld w c o rest stack v idle k)
Step-IsWorld {w} v (Step.wait_failed stack {r = r} idle e) =
    Returns-ok (λ (x : Received). IsWorld (place x w)) (receive_locked stack none w.device) r e
      (subst (λ (x : Option (InboundMessage × ℕ)). IsWorld (record w { reading = x })) idle v)
Step-IsWorld {w} v (Step.resume {msg = msg} {client_fd = client_fd} e) =
    resume-IsWorld w msg client_fd v e
Step-IsWorld {w} v (Step.send submitted message) = send-IsWorld w submitted message v

pub Reach-IsWorld : {w u : World} → IsWorld w → Reach w u → IsWorld u
Reach-IsWorld v Reach.here = v
Reach-IsWorld v (Reach.after r s) = Step-IsWorld (Reach-IsWorld v r) s
