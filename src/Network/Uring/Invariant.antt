-- ===== src/Network/Uring/Invariant.antt =====
-- What holds of the device at every moment.
use low_level_programming.Shared.{
  ℕ, ◌+◌, ◌<◌, ◌≤◌, ◌≡◌, ◌⊎◌, Bool, true, false, Option, none, some, [], ◌++◌, ◌==◌, ltb, length,
  All, Outcome, ok, fault, thrown, stuck, subst,
}
use low_level_programming.Messages.Bytes.{Buffer}
use low_level_programming.Engine.State.{InboundMessage}
use low_level_programming.Network.Sockets.{max_req_size}
use low_level_programming.Network.Uring.{EventType, accept, read, write, Owned}
use low_level_programming.Network.Uring.Completion.{Received}
use low_level_programming.Network.Uring.Lists.{
  count_if, one_if, accepts_on, reads_from, is_at, is_number,
}
use low_level_programming.Network.Uring.World.{World}

-- the buffer of a request in flight, by its kind
abbrev pub Shape : (whole taken : Buffer) (lost : Bool) → EventType → Buffer → Type 0
Shape whole taken lost accept buf = whole ≡ taken
Shape whole taken lost read buf = (whole ≡ taken) × (length buf ≡ max_req_size)
Shape whole taken lost write buf = (whole ≡ taken ++ buf) × (0 < length buf) × (lost ≡ false)

abbrev pub FitsIn : (whole taken : ℕ → Buffer) (lost : ℕ → Bool) → Owned → Type 0
FitsIn whole taken lost o =
    Shape (whole o.pointer) (taken o.pointer) (lost o.pointer) o.request.event o.request.buf

abbrev pub Fits : World → Owned → Type 0
Fits w = FitsIn w.whole w.taken w.lost

abbrev pub pending : ℕ → Option (InboundMessage × ℕ) → ℕ
pending fd none = 0
pending fd (some (msg, client_fd)) = one_if (client_fd == fd)

pub record IsWorld (w : World) : Type 0 where
  pub accepts :
      (fd : ℕ)
      → count_if (accepts_on fd) w.device.inflight_requests
        ≡ count_if (is_number fd) w.device.listening_fds
  pub reads :
      (fd : ℕ)
      → count_if (reads_from fd) w.device.inflight_requests + pending fd w.reading
        ≤ count_if (is_number fd) w.connections
  pub once : (fd : ℕ) → count_if (is_number fd) w.connections ≤ 1
  pub pointers :
      (p : ℕ) → count_if (is_at p) w.device.inflight_requests ≤ one_if (ltb p w.device.allocated)
  pub fits : All (Fits w) w.device.inflight_requests
  pub unused :
      (p : ℕ) → w.device.allocated ≤ p → (w.whole p ≡ []) × (w.taken p ≡ []) × (w.lost p ≡ false)
  pub landed :
      (p : ℕ)
      → count_if (is_at p) w.device.inflight_requests ≡ 0
      → (w.lost p ≡ true) ⊎ (w.whole p ≡ w.taken p)

abbrev pub Returns : (Received → Type 0) → Outcome Received → Type 0
Returns P (ok r) = P r
Returns P fault = ⊥
Returns P thrown = ⊥
Returns P stuck = ⊥

pub Returns-ok :
    (P : Received → Type 0) (out : Outcome Received) (r : Received)
    → out ≡ ok r
    → Returns P out
    → P r
Returns-ok P out r e h = subst (Returns P) e h

abbrev pub owned : EventType → (p client_fd listen_fd : ℕ) → Buffer → Owned
owned event p client_fd listen_fd buf = record {
  pointer = p;
  request = record { event = event; client_fd = client_fd; listen_fd = listen_fd; buf = buf };
}
