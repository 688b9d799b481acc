-- ===== src/Network/Uring/Safety.antt =====
-- What a client of the device can count on, whatever the kernel and the two threads do.
use low_level_programming.Shared.{
  ℕ, ◌+◌, ◌<◌, ◌≤◌, ◌≡◌, refl, ◌⊎◌, inl, inr, Bool, true, none, some, List, [], ◌∷◌, ◌++◌, ◌==◌,
  Outcome, ok, fault, thrown, stuck, arith, Bool-cases, subst, ==→eq, All, ◌∙◌, ap,
}
use low_level_programming.Messages.Bytes.{Buffer}
use low_level_programming.Network.Sockets.{Sockets, up}
use low_level_programming.Network.Uring.{
  EventType, accept, read, write, Owned, Device, prep_send, new,
}
use low_level_programming.Network.Uring.Completion.{
  Completion, take_flight, Received, receive_locked, receive_msg, finish,
}
use low_level_programming.Network.Uring.Lists.{
  count_if, accepts_on, reads_from, is_at, is_number, Taken, take_flight-Taken,
}
use low_level_programming.Network.Uring.World.{World, world, IsCompletion, note, place, Reach}
use low_level_programming.Network.Uring.Invariant.{Shape, Fits, pending, IsWorld, Returns}
use low_level_programming.Network.Uring.Receive.{receive_locked-IsWorld}
use low_level_programming.Network.Uring.Run.{new-IsWorld, Reach-IsWorld}
use low_level_programming.Network.Uring.Asked.{ask, last_ask, submitted, Asked, Asks}
use low_level_programming.Network.Uring.Calls.{new-Asks, Reach-Asks}

-- Every listening socket has one request to accept in flight for each time that it is listed, a
-- connection has at most one read, in flight or between the two locks of the reader, and a pointer is
-- that of at most one request in flight. Each request in flight is what the kernel was last asked for
-- under its pointer, on the socket of the request, and every entry that was claimed was submitted.
pub record Sound (w : World) : Type 0 where
  pub one_accept :
      (fd : ℕ)
      → count_if (accepts_on fd) w.device.inflight_requests
        ≡ count_if (is_number fd) w.device.listening_fds
  pub one_read :
      (fd : ℕ) → count_if (reads_from fd) w.device.inflight_requests + pending fd w.reading ≤ 1
  pub one_owner : (p : ℕ) → count_if (is_at p) w.device.inflight_requests ≤ 1
  pub asked : All (Asked w.device.calls) w.device.inflight_requests
  pub all_submitted : submitted true w.device.calls ≡ true

-- What became of the message that was to be sent under a pointer: a send of it failed, the kernel
-- took it whole, or a request to send the rest is in flight, and the kernel was last asked, under this
-- pointer, to send the rest to the client of the request.
abbrev pub Progress : World → ℕ → Type 0
Progress w p =
    (w.lost p ≡ true)
    ⊎ ((w.whole p ≡ w.taken p)
        ⊎ ((o : Owned) × (rest : List Owned) × (take_flight p w.device.inflight_requests
              ≡ some (o, rest))
            × (o.request.event ≡ write)
            × (w.whole p ≡ w.taken p ++ o.request.buf)
            × (last_ask p none w.device.calls
                ≡ some (prep_send p o.request.client_fd o.request.buf))))

ask-write :
    (event : EventType) (p client_fd listen_fd : ℕ) (buf : Buffer)
    → event ≡ write
    → ask event p client_fd listen_fd buf ≡ prep_send p client_fd buf
ask-write event p client_fd listen_fd buf sends = rw sends refl

found_at :
    (p : ℕ) (os : List Owned)
    → 0 < count_if (is_at p) os
    → (o : Owned) × (rest : List Owned) × (take_flight p os ≡ some (o, rest))
unfolding take_flight
found_at p [] h = absurd (omega arith)
found_at p (o ∷ os) h = elim (Bool-cases (o.pointer == p)) [
  | inl here ↦ (o, os, ground arith)
  | inr further ↦
      let (found, rest, there) = found_at p os (ground arith) in
      (found, o ∷ rest, ground (arith, there))
]

Shape-write :
    (whole taken : Buffer) (lost : Bool) (event : EventType) (buf : Buffer)
    → Shape whole taken lost event buf
    → (whole ≡ taken) ⊎ ((event ≡ write) × (whole ≡ taken ++ buf))
Shape-write whole taken lost accept buf h = inl h
Shape-write whole taken lost read buf h = inl h.0
Shape-write whole taken lost write buf h = inr (refl, h.0)

Returns-some :
    (P : Received → Type 0) (out : Outcome Received) → Returns P out → (r : Received) × (out ≡ ok r)
Returns-some P (ok r) h = (r, refl)
Returns-some P fault h = absurd h
Returns-some P thrown h = absurd h
Returns-some P stuck h = absurd h

module _ (s : Sockets) (setup_result first_port : ℕ) (d : Device)
    (started : new s setup_result first_port ≡ up d) (w : World) (reached : Reach (world d) w) where
  valid : IsWorld w
  valid = Reach-IsWorld (new-IsWorld s setup_result first_port d started) reached

  requests : Asks w.device
  requests =
      Reach-Asks (new-IsWorld s setup_result first_port d started)
        (new-Asks s setup_result first_port d started) reached

  -- From a device that the constructor set up, after any interleaving of its two threads and
  -- whatever completes, each listening socket has a request to accept in flight, one for each time
  -- it is listed; each connection has at most one read, in flight or with the reader between its
  -- two locks; no two requests in flight have the same pointer; each request in flight is what the
  -- kernel was last asked for under its pointer: an accept on its listening socket, a read from its
  -- client of the size of the largest request, or a send to its client of exactly its bytes; and
  -- io_uring_submit was called after the last entry that was claimed.
  pub run-Sound : Sound w
  run-Sound = record {
    one_accept = valid.accepts;
    one_read = λ fd. omega (arith, valid.reads fd, valid.once fd);
    one_owner = λ p. ground (arith, valid.pointers p);
    asked = requests.asked;
    all_submitted = requests.all_submitted;
  }

  -- After any such run, of each message that send_msg took, a send failed, or the kernel has taken
  -- its bytes whole and in order, or it has taken the first of them and a request to write exactly
  -- the rest is in flight, which is what the kernel was last asked to send under that pointer.
  pub run-Progress : (p : ℕ) → Progress w p
  run-Progress p = elim (Bool-cases (count_if (is_at p) w.device.inflight_requests == 0)) [
    | inl gone ↦ elim (valid.landed p (==→eq _ 0 gone)) [
      | inl is_lost ↦ inl is_lost
      | inr whole ↦ inr (inl whole)
    ]
    | inr flying ↦
        let (o, rest, there) = found_at p w.device.inflight_requests (ground arith) in
        let t : Taken p w.device.inflight_requests o rest =
          take_flight-Taken p w.device.inflight_requests o rest there in
        let asked : Asked w.device.calls o = (t.all (Asked w.device.calls) requests.asked).0 in
        let fits : Fits w o = (t.all (Fits w) valid.fits).0 in
        elim (Shape-write (w.whole o.pointer) (w.taken o.pointer) (w.lost o.pointer) o.request.event
          o.request.buf fits) [
            | inl whole ↦ inr (inl (subst (λ (q : ℕ). w.whole q ≡ w.taken q) t.pointer whole))
            | inr (sends, parts) ↦ inr (
                inr (
                  o,
                  rest,
                  there,
                  sends,
                  subst (λ (q : ℕ). w.whole q ≡ w.taken q ++ o.request.buf) t.pointer parts,
                  subst
                      (λ (q : ℕ).
                        last_ask q none w.device.calls
                        ≡ some (prep_send q o.request.client_fd o.request.buf))
                      t.pointer
                      (asked
                        ∙ ap some (
                            ask-write o.request.event o.pointer o.request.client_fd
                              o.request.listen_fd o.request.buf sends)),
                ))
          ]
  ]

  -- After any such run, when the reader is not between its two locks, receive_msg handles the
  -- completion of any request in flight, failed or not, with no dangling pointer, reading no byte
  -- past the buffer of the request and writing none past the bytes of the inbound message.
  pub receive_msg-returns :
      (stack : Buffer) (c : Completion) (o : Owned) (rest : List Owned)
      → w.reading ≡ none
      → IsCompletion w c o rest
      → (d' : Device) × (receive_msg stack (some c) w.device ≡ ok d')
  unfolding receive_msg
  receive_msg-returns stack c o rest idle k =
      let (r, out) =
        Returns-some (λ r. IsWorld (place r (note c o w))) (receive_locked stack (some c) w.device)
          (receive_locked-IsWorld w c o rest stack valid idle k) in
      (finish r, rw (out, receive_msg))
