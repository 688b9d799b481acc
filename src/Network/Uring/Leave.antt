-- ===== src/Network/Uring/Leave.antt =====
-- What is left when a request in flight completes.
use low_level_programming.Shared.{
  ℕ, ◌+◌, ◌<◌, ◌≤◌, ◌≡◌, sym, ◌∙◌, ◌⊎◌, inl, inr, Bool, true, false, Option, none, List, [], ◌∷◌,
  ◌++◌, ◌==◌, ltb, length, All, arith, Bool-cases, subst, ==→eq,
}
use low_level_programming.Messages.Bytes.{Buffer}
use low_level_programming.Engine.State.{InboundMessage}
use low_level_programming.Network.Uring.{write, Owned, Call}
use low_level_programming.Network.Uring.Completion.{Completion}
use low_level_programming.Network.Uring.Lists.{
  is_accept, count_if, one_if, accepts_on, reads_from, is_at, is_number, Taken, All-others,
}
use low_level_programming.Network.Uring.World.{World}
use low_level_programming.Network.Uring.Invariant.{Shape, FitsIn, Fits, pending, IsWorld, owned}

module _ (w : World) (v : IsWorld w) (c : Completion) (rest : List Owned) (o : Owned)
    (t : Taken c.user_data w.device.inflight_requests o rest) where
  -- A pointer that is not given out yet has no message.
  pub fresh_same : (p : ℕ) → w.device.allocated ≤ p → w.whole p ≡ w.taken p
  fresh_same p h = ground (arith, v.unused p)

  pub rest_pointers :
      (p : ℕ)
      → one_if (o.pointer == p) + count_if (is_at p) rest ≤ one_if (ltb p w.device.allocated)
  rest_pointers p = omega (arith, v.pointers p, t.count (is_at p))

  pub rest_landed :
      w.whole o.pointer ≡ w.taken o.pointer
      → (q : ℕ) → count_if (is_at q) rest ≡ 0
      → (w.lost q ≡ true) ⊎ (w.whole q ≡ w.taken q)
  rest_landed same q gone = elim (Bool-cases (o.pointer == q)) [
    | inl at ↦ inr (subst (λ (n : ℕ). w.whole n ≡ w.taken n) (==→eq o.pointer q at) same)
    | inr other ↦ v.landed q (ground (arith, t.count (is_at q)))
  ]

  -- A request other than an accept leaves, and its message, if it is one, has been taken.
  pub leave-IsWorld :
      (calls : List Call) (reading : Option (InboundMessage × ℕ))
      → is_accept o.request.event ≡ false
      → w.whole o.pointer ≡ w.taken o.pointer
      → ((fd : ℕ)
          → count_if (reads_from fd) rest + pending fd reading
            ≤ count_if (is_number fd) w.connections)
      → IsWorld (record w {
        device = record (w.device) { inflight_requests = rest; calls = calls };
        reading = reading;
      })
  leave-IsWorld calls reading other same reads = record {
    accepts = λ fd. ground (arith, v.accepts fd, t.count (accepts_on fd));
    reads = reads;
    once = v.once;
    pointers = λ q. omega (arith, rest_pointers q);
    fits = (t.all (Fits w) v.fits).1;
    unused = v.unused;
    landed = rest_landed same;
  }

  module _ (sends : o.request.event ≡ write) (calls : List Call) where
    pub one : count_if (is_at o.pointer) rest ≡ 0
    one = ground (arith, rest_pointers o.pointer)

    pub accepts_left :
        (fd : ℕ) → count_if (accepts_on fd) rest ≡ count_if (is_number fd) w.device.listening_fds
    accepts_left fd = ground (arith, v.accepts fd, t.count (accepts_on fd), sends)

    pub reads_left :
        (fd : ℕ) → count_if (reads_from fd) rest ≤ count_if (is_number fd) w.connections
    reads_left fd = ground (arith, v.reads fd, t.count (reads_from fd), sends)

    module _ (taken' : ℕ → Buffer) (lost' : ℕ → Bool)
        (taken_else : (q : ℕ) → (q == o.pointer) ≡ false → taken' q ≡ w.taken q)
        (lost_else : (q : ℕ) → (q == o.pointer) ≡ false → lost' q ≡ w.lost q) where
      -- The requests that stay do not see what becomes of the one that leaves.
      pub others_fit : All (FitsIn w.whole taken' lost') rest
      others_fit =
          All-others (Fits w) (FitsIn w.whole taken' lost') o.pointer rest
            (λ other apart h.
              subst
                (λ (bs : Buffer).
                  Shape (w.whole other.pointer) bs (lost' other.pointer) other.request.event
                    other.request.buf)
                (sym (taken_else other.pointer apart))
                (subst
                  (λ (b : Bool).
                    Shape (w.whole other.pointer) (w.taken other.pointer) b other.request.event
                      other.request.buf)
                  (sym (lost_else other.pointer apart)) h))
            one (t.all (Fits w) v.fits).1

      pub given_out : o.pointer < w.device.allocated
      given_out = ground (arith, rest_pointers o.pointer)

      pub unused_left :
          (q : ℕ) → w.device.allocated ≤ q → (w.whole q ≡ []) × (taken' q ≡ []) × (lost' q ≡ false)
      unused_left q later =
          let apart : (q == o.pointer) ≡ false = ground (arith, given_out) in
          ground (arith, v.unused q, taken_else q apart, lost_else q apart)

      pub landed_else :
          (q : ℕ)
          → (q == o.pointer) ≡ false
          → count_if (is_at q) rest ≡ 0
          → (lost' q ≡ true) ⊎ (w.whole q ≡ taken' q)
      landed_else q apart gone =
          let before : (w.lost q ≡ true) ⊎ (w.whole q ≡ w.taken q) =
            v.landed q (ground (arith, t.count (is_at q))) in
          elim before [
            | inl is_lost ↦ inl (lost_else q apart ∙ is_lost)
            | inr whole ↦ inr (whole ∙ sym (taken_else q apart))
          ]

      -- The message has been taken whole, or is lost.
      pub settled-IsWorld :
          (lost' o.pointer ≡ true) ⊎ (w.whole o.pointer ≡ taken' o.pointer)
          → IsWorld (record w {
            device = record (w.device) { inflight_requests = rest; calls = calls };
            reading = none;
            taken = taken';
            lost = lost';
          })
      settled-IsWorld ends = record {
        accepts = accepts_left;
        reads = λ fd. omega (arith, reads_left fd);
        once = v.once;
        pointers = λ q. omega (arith, rest_pointers q);
        fits = others_fit;
        unused = unused_left;
        landed = λ q gone. elim (Bool-cases (q == o.pointer)) [
          | inl at ↦
              subst (λ (n : ℕ). (lost' n ≡ true) ⊎ (w.whole n ≡ taken' n))
                (sym (==→eq q o.pointer at)) ends
          | inr apart ↦ landed_else q apart gone
        ];
      }

      -- The rest of the message goes out again, under the same pointer.
      pub partial-IsWorld :
          (client_fd listen_fd : ℕ) (buf : Buffer)
          → w.whole o.pointer ≡ taken' o.pointer ++ buf
          → 0 < length buf
          → lost' o.pointer ≡ false
          → IsWorld (record w {
            device = record (w.device) {
              inflight_requests = owned write o.pointer client_fd listen_fd buf ∷ rest;
              calls = calls;
            };
            reading = none;
            taken = taken';
            lost = lost';
          })
      partial-IsWorld client_fd listen_fd buf whole some_left kept = record {
        accepts = λ fd. omega (arith, accepts_left fd);
        reads = λ fd. omega (arith, reads_left fd);
        once = v.once;
        pointers = λ q. omega (arith, rest_pointers q);
        fits = ((whole, some_left, kept), others_fit);
        unused = unused_left;
        landed = λ q gone. landed_else q (ground arith) (omega arith);
      }
