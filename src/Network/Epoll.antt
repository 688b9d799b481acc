-- ===== src/Network/Epoll.antt =====
-- `class NetworkDeviceEpoll`, lines 58 to 168 of 4_order_book_proj/src/network_device.hpp. What the
-- system calls return is given; `calls` is what they were asked, oldest first. A `ssize_t` is its
-- 64-bit pattern.
pub mod Watch
use low_level_programming.Shared.{
  ℕ, zero, suc, ◌+◌, ◌-◌, ◌^◌, Bool, true, false, not, Option, none, some, List, [], ◌∷◌, ◌++◌, leb,
  ◌==◌, ◌||◌, if◌then◌else◌, u32, get_or,
}
use low_level_programming.Messages.Bytes.{Buffer, load_bytes, store_bytes}
use low_level_programming.Engine.State.{InboundMessage, OutboundMessage}
use low_level_programming.Network.Sockets.{
  is_negative, start_port_range, end_port_range, Sockets, setup_listening_socket, Boot, up, exited,
  response_size,
}

abbrev pub at_most_zero : ℕ → Bool
at_most_zero r = r == 0 || leb (2 ^ 63) r

pub data Call : Type 0 where
  epoll_add : (fd : ℕ) → Call
  close_fd : (fd : ℕ) → Call
  write_to : (fd : ℕ) (bytes : Buffer) → Call

pub record Device : Type 0 where
  pub fds : List ℕ
  pub queue : List InboundMessage
  pub calls : List Call

abbrev pub call : Call → Device → Device
call c d = record d { calls = d.calls ++ (c ∷ []) }

-- `fds.contains`
abbrev pub contains : ℕ → List ℕ → Bool
contains fd [] = false
contains fd (x ∷ xs) = (x == fd) || contains fd xs

-- The loop of the constructor, for so many ports from `port` on; `added` is what `epoll_ctl` returns
-- for the socket of a port.
unfoldable pub listen_on : Sockets → (added : ℕ → ℕ) (count port : ℕ) → Device → Boot Device
listen_on s added zero port d = up d
listen_on s added (suc count) port d = elim (setup_listening_socket s port) [
  | none ↦ exited
  | some listen_fd ↦ elim (is_negative (added port)) [
    | true ↦ exited
    | false ↦
        listen_on s added count (port + 1)
          (record (call (epoll_add listen_fd) d) { fds = listen_fd ∷ d.fds })
  ]
]

-- `epfd` is what `epoll_create1` returns.
unfoldable pub new : Sockets → (added : ℕ → ℕ) (epfd first_port : ℕ) → Boot Device
unfolding listen_on
new s added epfd first_port =
    if is_negative epfd
    then exited
    else listen_on s added (end_port_range - start_port_range + 1) first_port
        (record { fds = []; queue = []; calls = [] })

-- A ready descriptor, whether it is ready to be read, and what the calls that are made for it return:
-- `accept4`, `epoll_ctl`, and `read` with its bytes. `stack` is what `msg.bytes` holds before it.
pub record Event : Type 0 where
  pub fd : ℕ
  pub readable : Bool
  pub accepted : ℕ
  pub added : ℕ
  pub count : ℕ
  pub received : Buffer
  pub stack : Buffer

unfoldable pub accept_client : Event → Device → Device
accept_client ev d =
    if is_negative ev.accepted
    then d
    else (let d' = call (epoll_add ev.accepted) d in
        if is_negative ev.added then call (close_fd ev.accepted) d' else d')

unfoldable pub read_client : Event → Device → Device
unfolding store_bytes
read_client ev d = if at_most_zero ev.count then call (close_fd ev.fd) d else record d {
  queue =
      d.queue ++ (record { account = u32 ev.fd; bytes = store_bytes ev.stack 0 ev.received } ∷ []);
}

unfoldable pub handle_event : Event → Device → Device
unfolding accept_client read_client
handle_event ev d =
    if not ev.readable
    then d
    else if contains ev.fd d.fds
    then accept_client ev d
    else read_client ev d

-- the loop over the events of a wait
unfoldable pub handle_events : List Event → Device → Device
unfolding handle_event
handle_events [] d = d
handle_events (ev ∷ evs) d = handle_events evs (handle_event ev d)

-- `none` is an `epoll_wait` that failed.
unfoldable pub receive_msg : Option (List Event) → Device → Device
unfolding handle_events
receive_msg none d = d
receive_msg (some evs) d = handle_events evs d

-- `written` is what `write` returns. A type byte that is none of the four leaves the size 0.
unfoldable pub send_msg : (written : ℕ) → OutboundMessage → Device → ℕ × Device
unfolding response_size load_bytes
send_msg written message d =
    let size : ℕ = elim (response_size (get_or message.bytes 0 0)) [
      | none ↦ 0
      | some size ↦ size
    ] in
    (
      if at_most_zero written then 1 else 0,
      call (write_to message.account (load_bytes message.bytes 0 size)) d,
    )
