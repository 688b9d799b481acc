-- ===== src/Network/Sockets.antt =====
-- The constants of 4_order_book_proj/src/network_device.hpp, `setup_listening_socket` and the sizes of
-- responses, which both devices share. An `int` is its 32-bit pattern. A system call is its result.
use low_level_programming.Shared.{
  ℕ, ◌-◌, ◌^◌, Bool, Option, none, some, leb, ltb, ◌==◌, ◌||◌, if◌then◌else◌,
}
use low_level_programming.Messages.EnterRequestView
use low_level_programming.Messages.CancelRequestView
use low_level_programming.Messages.AcceptResponseView
use low_level_programming.Messages.CancelledResponseView
use low_level_programming.Messages.CancelRejectResponseView
use low_level_programming.Messages.ExecutedResponseView

abbrev pub is_negative : ℕ → Bool
is_negative n = leb (2 ^ 31) n

-- -1
abbrev pub no_fd : ℕ
no_fd = 2 ^ 32 - 1

abbrev pub start_port_range : ℕ
start_port_range = 49152

abbrev pub end_port_range : ℕ
end_port_range = 49161

abbrev pub max : ℕ → ℕ → ℕ
max a b = if ltb a b then b else a

abbrev pub max_req_size : ℕ
max_req_size = max EnterRequestView.wire_size CancelRequestView.wire_size

-- the size of `msg.bytes`, where a request is copied to
abbrev pub in_size : ℕ
in_size = max EnterRequestView.wire_size CancelRequestView.wire_size

-- The results of `socket`, `bind` and `listen` for a port.
pub record Sockets : Type 0 where
  pub socket : ℕ → ℕ
  pub bind : ℕ → ℕ
  pub listen : ℕ → ℕ

-- `none` is `exit(1)`.
unfoldable pub setup_listening_socket : Sockets → ℕ → Option ℕ
setup_listening_socket s port =
    let sock = s.socket port in
    if is_negative sock
    then none
    else if is_negative (s.bind port) || is_negative (s.listen port)
    then none
    else some sock

-- how a constructor ends: with an object, with `exit(1)`, or with an exception
pub data Boot {ℓ} (A : Type ℓ) : Type ℓ where
  up : A → Boot A
  exited : Boot A
  threw : Boot A

-- the switch on the type byte, in either `send_msg`; `none` is its default
unfoldable pub response_size : ℕ → Option ℕ
response_size type_byte =
    if type_byte == b'A'
    then some AcceptResponseView.wire_size
    else if type_byte == b'C'
    then some CancelledResponseView.wire_size
    else if type_byte == b'I'
    then some CancelRejectResponseView.wire_size
    else if type_byte == b'E'
    then some ExecutedResponseView.wire_size
    else none
