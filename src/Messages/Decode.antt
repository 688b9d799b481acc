-- ===== src/Messages/Decode.antt =====
-- `UOUCHMessage` of 4_order_book_proj/src/messages.hpp and `decode` of
-- 4_order_book_proj/src/message.cpp. `__builtin_unreachable` is a fault.
pub mod Laws
use low_level_programming.Shared.{ℕ, ◌==◌, if◌then◌else◌, get_or, Outcome, ok, fault}
use low_level_programming.Messages.Bytes.{Buffer}
use low_level_programming.Messages.EnterRequestView
use low_level_programming.Messages.CancelRequestView
use low_level_programming.Messages.AcceptResponseView
use low_level_programming.Messages.CancelledResponseView
use low_level_programming.Messages.CancelRejectResponseView
use low_level_programming.Messages.ExecutedResponseView

-- Each alternative holds the buffer that the view looks at.
pub data UouchMessage : Type 0 where
  enter_request : Buffer → UouchMessage
  cancel_request : Buffer → UouchMessage
  accept_response : Buffer → UouchMessage
  cancelled_response : Buffer → UouchMessage
  cancel_reject_response : Buffer → UouchMessage
  executed_response : Buffer → UouchMessage

unfoldable pub decode : Buffer → Outcome UouchMessage
decode bytes =
    let t = get_or bytes 0 0 in
    if t == EnterRequestView.type_byte
    then ok (enter_request bytes)
    else if t == CancelRequestView.type_byte
    then ok (cancel_request bytes)
    else if t == AcceptResponseView.type_byte
    then ok (accept_response bytes)
    else if t == CancelledResponseView.type_byte
    then ok (cancelled_response bytes)
    else if t == CancelRejectResponseView.type_byte
    then ok (cancel_reject_response bytes)
    else if t == ExecutedResponseView.type_byte
    then ok (executed_response bytes)
    else fault
