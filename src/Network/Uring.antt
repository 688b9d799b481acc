-- ===== src/Network/Uring.antt =====
-- `class NetworkDeviceIOUring`, lines 170 to 338 of 4_order_book_proj/src/network_device.hpp.
-- liburing and the kernel are outside: `calls` is what the device asked of them, oldest first, and a
-- completion or the result of `io_uring_submit` is an argument. As the source says,
-- `io_uring_get_sqe` is taken to give an entry.
pub mod Completion
pub mod Lists
pub mod Asked
pub mod Buffers
pub mod World
pub mod Invariant
pub mod Leave
pub mod Requests
pub mod Receive
pub mod Run
pub mod Calls
pub mod Safety
pub mod Sends
pub mod Replies
use low_level_programming.Shared.{
  ℕ, zero, suc, ◌+◌, ◌-◌, true, false, Option, none, some, List, [], ◌∷◌, ◌++◌, length, replicate,
  ltb, ◌==◌, if◌then◌else◌, u32, Outcome, ok, fault, ◌>>=◌, get_or,
}
use low_level_programming.Messages.Bytes.{Buffer, load_bytes, store_bytes}
use low_level_programming.Engine.State.{InboundMessage, OutboundMessage}
use low_level_programming.Network.Sockets.{
  is_negative, no_fd, start_port_range, end_port_range, max_req_size, Sockets,
  setup_listening_socket, Boot, up, exited, threw, response_size,
}

pub data EventType : Type 0 where
  accept : EventType
  read : EventType
  write : EventType

pub record Request : Type 0 where
  pub event : EventType
  pub client_fd : ℕ
  pub listen_fd : ℕ
  pub buf : Buffer

-- A request on the heap, owned by a `unique_ptr` or by the set of requests in flight.
pub record Owned : Type 0 where
  pub pointer : ℕ
  pub request : Request

-- The calls of liburing. An entry that is claimed carries the pointer of its request; a send is given
-- the bytes that its buffer holds, which the device does not touch until the completion.
pub data Call : Type 0 where
  prep_accept : (user_data listen_fd : ℕ) → Call
  prep_recv : (user_data client_fd len : ℕ) → Call
  prep_send : (user_data client_fd : ℕ) (bytes : Buffer) → Call
  submit_all : Call
  cqe_seen : Call

-- `queue` is what has been enqueued for the engine so far, oldest first. `allocated` requests have
-- been made: the n-th one has the pointer n, and no pointer is given out twice.
pub record Device : Type 0 where
  pub inflight_requests : List Owned
  pub listening_fds : List ℕ
  pub queue : List InboundMessage
  pub calls : List Call
  pub allocated : ℕ

abbrev pub call : Call → Device → Device
call c d = record d { calls = d.calls ++ (c ∷ []) }

abbrev pub submit : Device → Device
submit d = call submit_all d

-- `make_unique<Request>`
abbrev pub make_unique : Request → Device → Owned × Device
make_unique req d =
    (record { pointer = d.allocated; request = req }, record d { allocated = suc d.allocated })

-- The set takes the request over, and the entry carries its pointer: `prep` fills the entry.
unfoldable pub claim_sqe : Owned → (prep : ℕ → Call) → Device → Device
claim_sqe req prep d =
    call (prep req.pointer) (record d { inflight_requests = req ∷ d.inflight_requests })

unfoldable pub queue_accept : ℕ → Device → Device
unfolding claim_sqe
queue_accept listen_fd d =
    let (req, d') =
      make_unique (record { event = accept; client_fd = no_fd; listen_fd = listen_fd; buf = [] })
        d in
    claim_sqe req (λ p. prep_accept p listen_fd) d'

unfoldable pub queue_read : ℕ → Device → Device
unfolding claim_sqe
queue_read client_fd d =
    let (req, d') =
      make_unique
        (record {
          event = read;
          client_fd = client_fd;
          listen_fd = no_fd;
          buf = replicate max_req_size 0;
        })
        d in
    claim_sqe req (λ p. prep_recv p client_fd max_req_size) d'

unfoldable pub queue_write : Owned → (len : ℕ) → Device → Device
unfolding claim_sqe load_bytes
queue_write req len d =
    let req' = record req { request = record (req.request) { event = write } } in
    claim_sqe req' (λ p. prep_send p req.request.client_fd (load_bytes req.request.buf 0 len)) d

-- The loop of the constructor, for so many ports from `port` on.
unfoldable pub listen_on : Sockets → (count port : ℕ) → Device → Boot Device
unfolding queue_accept
listen_on s zero port d = up d
listen_on s (suc count) port d = elim (setup_listening_socket s port) [
  | none ↦ exited
  | some listen_fd ↦
      listen_on s count (port + 1)
        (queue_accept listen_fd (record d { listening_fds = d.listening_fds ++ (listen_fd ∷ []) }))
]

-- `setup_result` is what `io_uring_queue_init` returns.
unfoldable pub new : Sockets → (setup_result first_port : ℕ) → Boot Device
unfolding listen_on
new s setup_result first_port =
    if is_negative setup_result
    then threw
    else elim (listen_on s (end_port_range - start_port_range + 1) first_port (record {
      inflight_requests = [];
      listening_fds = [];
      queue = [];
      calls = [];
      allocated = 0;
    })) [ up d ↦ up (submit d) | exited ↦ exited | threw ↦ threw ]

-- `submitted` is what `io_uring_submit` returns.
unfoldable pub send_msg : (submitted : ℕ) → OutboundMessage → Device → ℕ × Device
unfolding queue_write response_size load_bytes
send_msg submitted message d = elim (response_size (get_or message.bytes 0 0)) [
  | none ↦ (1, d)
  | some size ↦
      let (req, d') =
        make_unique
          (record {
            event = write;
            client_fd = message.account;
            listen_fd = no_fd;
            buf = load_bytes message.bytes 0 size;
          })
          d in
      (if is_negative submitted then 1 else 0, submit (queue_write req size d'))
]
