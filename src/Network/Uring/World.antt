-- ===== src/Network/Uring/World.antt =====
-- The device with the kernel and the two threads: what can happen, one locked section at a time.
use low_level_programming.Shared.{
  ℕ, ◌≤◌, ◌≡◌, ◌≢◌, Bool, true, false, Option, none, some, List, [], ◌∷◌, ◌++◌, ◌==◌, ◌||◌, ok,
  update, if◌then◌else◌, length, get_or,
}
use low_level_programming.Messages.Bytes.{Buffer, load_bytes}
use low_level_programming.Engine.State.{InboundMessage, OutboundMessage}
use low_level_programming.Network.Sockets.{is_negative, max_req_size, response_size}
use low_level_programming.Network.Uring.{accept, read, write, Owned, Device, send_msg}
use low_level_programming.Network.Uring.Completion.{
  Completion, take_flight, Received, finished, unlocked, receive_locked, enqueue_and_read,
}
use low_level_programming.Network.Uring.Lists.{count_if, is_number}

-- `reading` is the message that the reader has, between its two locks, and the client it came from.
-- What follows is what an observer notes: the connections that were accepted, and for each pointer of
-- a request to send the message it stands for, how much of it the kernel has taken, and whether a
-- send of it failed.
pub record World : Type 0 where
  pub device : Device
  pub reading : Option (InboundMessage × ℕ)
  pub connections : List ℕ
  pub whole : ℕ → Buffer
  pub taken : ℕ → Buffer
  pub lost : ℕ → Bool

abbrev pub world : Device → World
world d = record {
  device = d;
  reading = none;
  connections = [];
  whole = λ p. [];
  taken = λ p. [];
  lost = λ p. false;
}

-- A completion of a request in flight, as the kernel gives it: a new connection has a descriptor of
-- its own (the device closes none), a read gives no more than the buffer holds, and a send
-- takes no more than it was given.
pub record IsCompletion (w : World) (c : Completion) (o : Owned) (rest : List Owned) : Type 0 where
  pub taken_out : take_flight c.user_data w.device.inflight_requests ≡ some (o, rest)
  pub fresh :
      o.request.event ≡ accept
      → is_negative c.res ≡ false
      → count_if (is_number c.res) w.connections ≡ 0
  pub received :
      o.request.event ≡ read
      → is_negative c.res ≡ false
      → (c.res ≡ length c.received) × (c.res ≤ max_req_size)
  pub nothing : o.request.event ≢ read → c.received ≡ []
  pub sent : o.request.event ≡ write → is_negative c.res ≡ false → c.res ≤ length o.request.buf

-- what the observer notes of a completion
unfoldable pub note : Completion → Owned → World → World
unfolding load_bytes
note c o w = elim o.request.event [
  | accept ↦ if is_negative c.res then w else record w { connections = c.res ∷ w.connections }
  | read ↦ w
  | write ↦
      if is_negative c.res || c.res == 0
      then record w { lost = update w.lost o.pointer true }
      else record w {
        taken = update w.taken o.pointer (w.taken o.pointer ++ load_bytes o.request.buf 0 c.res);
      }
]

-- of a message that is to be sent
unfoldable pub note_message : OutboundMessage → World → World
unfolding response_size load_bytes
note_message message w = elim (response_size (get_or message.bytes 0 0)) [
  | none ↦ w
  | some size ↦ record w {
    whole = update w.whole w.device.allocated (load_bytes message.bytes 0 size);
  }
]

unfoldable pub place : Received → World → World
place (finished d) w = record w { device = d; reading = none }
place (unlocked msg client_fd d) w = record w { device = d; reading = some (msg, client_fd) }

pub data Step (w : World) : World → Type 0 where
  receive :
      {c : Completion} {o : Owned} {rest : List Owned} (stack : Buffer) {r : Received}
      → w.reading ≡ none
      → IsCompletion w c o rest
      → receive_locked stack (some c) w.device ≡ ok r
      → Step w (place r (note c o w))
  wait_failed :
      (stack : Buffer) {r : Received}
      → w.reading ≡ none
      → receive_locked stack none w.device ≡ ok r
      → Step w (place r w)
  resume :
      {msg : InboundMessage} {client_fd : ℕ}
      → w.reading ≡ some (msg, client_fd)
      → Step w (record w { device = enqueue_and_read msg client_fd w.device; reading = none })
  send :
      (submitted : ℕ) (message : OutboundMessage)
      → Step w
          (record (note_message message w) { device = (send_msg submitted message w.device).1 })

pub data Reach (w : World) : World → Type 0 where
  here : Reach w w
  after : {v u : World} → Reach w v → Step v u → Reach w u
