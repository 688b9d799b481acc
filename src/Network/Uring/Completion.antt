-- ===== src/Network/Uring/Completion.antt =====
-- `receive_msg` of `NetworkDeviceIOUring`, lines 247 to 307 of
-- 4_order_book_proj/src/network_device.hpp: what is done with a completion.
use low_level_programming.Shared.{
  ℕ, zero, suc, true, false, Option, none, some, List, [], ◌∷◌, ◌++◌, length, ltb, ◌==◌, ◌||◌,
  if◌then◌else◌, u32, Outcome, ok, fault, ◌>>=◌,
}
use low_level_programming.Messages.Bytes.{Buffer, load_bytes, store_bytes}
use low_level_programming.Engine.State.{InboundMessage}
use low_level_programming.Network.Sockets.{is_negative, in_size}
use low_level_programming.Network.Uring.{
  accept, read, write, Request, Owned, Device, cqe_seen, call, submit, queue_accept, queue_read,
  queue_write,
}

-- A completion: `res`, and for a read the bytes that the kernel has put into the buffer.
pub record Completion : Type 0 where
  pub user_data : ℕ
  pub res : ℕ
  pub received : Buffer

-- `inflight_requests.erase`, and the request that the pointer leads to
unfoldable pub take_flight : ℕ → List Owned → Option (Owned × List Owned)
take_flight p [] = none
take_flight p (o ∷ os) = elim (o.pointer == p) [
  | true ↦ some (o, os)
  | false ↦ elim (take_flight p os) [ none ↦ none | some (found, rest) ↦ some (found, o ∷ rest) ]
]

-- `receive_msg` up to the end, or up to the `lock.unlock()` before it enqueues a message that it read
-- from a client.
pub data Received : Type 0 where
  finished : Device → Received
  unlocked : InboundMessage → (client_fd : ℕ) → Device → Received

unfoldable pub on_error : Request → Device → Device
unfolding queue_accept
on_error req d = elim req.event [
  | accept ↦ submit (queue_accept req.listen_fd d)
  | read ↦ d
  | write ↦ d
]

unfoldable pub on_accept : (res : ℕ) → Request → Device → Device
unfolding queue_accept queue_read
on_accept res req d = submit (queue_read res (queue_accept req.listen_fd d))

-- `stack` is what `msg.bytes` holds before the copy: the source leaves it uninitialised. Reading past the
-- buffer or writing past `msg.bytes` is a fault.
unfoldable pub on_read : (stack : Buffer) (res : ℕ) → Request → Device → Outcome Received
unfolding load_bytes store_bytes
on_read stack res req d =
    if res == 0
    then ok (finished d)
    else if ltb (length req.buf) res || ltb in_size res
    then fault
    else ok (
        unlocked
          (record {
            account = u32 req.client_fd;
            bytes = store_bytes stack 0 (load_bytes req.buf 0 res);
          })
          req.client_fd d)

-- `buf.erase(begin, begin + n)`
abbrev pub drop : ℕ → Buffer → Buffer
drop zero bs = bs
drop (suc n) [] = []
drop (suc n) (b ∷ bs) = drop n bs

unfoldable pub on_write : (res : ℕ) → Owned → Device → Device
unfolding queue_write
on_write res req d =
    if res == 0
    then d
    else if ltb res (length req.request.buf)
    then (let rest = drop res req.request.buf in
        submit (
          queue_write (record req { request = record (req.request) { buf = rest } }) (length rest)
            d))
    else d

-- the switch on the type of a request that succeeded
unfoldable pub on_success : (stack : Buffer) (res : ℕ) → Owned → Device → Outcome Received
unfolding on_accept on_read on_write
on_success stack res req d = elim req.request.event [
  | accept ↦ ok (finished (on_accept res req.request d))
  | read ↦ on_read stack res req.request d
  | write ↦ ok (finished (on_write res req d))
]

-- `received` is in the buffer before the completion is seen.
abbrev pub arrived : Completion → Owned → Owned
arrived c req = record req {
  request = record (req.request) { buf = store_bytes req.request.buf 0 c.received };
}

-- A pointer that leads to no request in flight is dangling. `none` is a wait that failed.
unfoldable pub receive_locked : (stack : Buffer) → Option Completion → Device → Outcome Received
unfolding take_flight on_error on_success store_bytes
receive_locked stack none d = ok (finished d)
receive_locked stack (some c) d = elim (take_flight c.user_data d.inflight_requests) [
  | none ↦ fault
  | some (req, rest) ↦
      let d' = call cqe_seen (record d { inflight_requests = rest }) in
      if is_negative c.res
      then ok (finished (on_error (arrived c req).request d'))
      else on_success stack c.res (arrived c req) d'
]

-- from `queue.enqueue` on
unfoldable pub enqueue_and_read : InboundMessage → (client_fd : ℕ) → Device → Device
unfolding queue_read
enqueue_and_read msg client_fd d =
    submit (queue_read client_fd (record d { queue = d.queue ++ (msg ∷ []) }))

unfoldable pub finish : Received → Device
unfolding enqueue_and_read
finish (finished d) = d
finish (unlocked msg client_fd d) = enqueue_and_read msg client_fd d

-- with nobody between its two locks
unfoldable pub receive_msg : (stack : Buffer) → Option Completion → Device → Outcome Device
unfolding receive_locked finish
receive_msg stack c d = receive_locked stack c d >>= λ r. ok (finish r)
