-- ===== src/Messages/Decode/Laws.antt =====
-- `decode` tells the six messages apart by their first byte, and copies nothing.
use low_level_programming.Shared.{ℕ, ◌≡◌, ◌↔◌, refl, arith, get_or, ok}
use low_level_programming.Messages.Bytes.{Buffer}
use low_level_programming.Messages.Decode.{
  UouchMessage, enter_request, cancel_request, accept_response, cancelled_response,
  cancel_reject_response, executed_response, decode,
}
use low_level_programming.Messages.EnterRequestView
use low_level_programming.Messages.CancelRequestView
use low_level_programming.Messages.AcceptResponseView
use low_level_programming.Messages.CancelledResponseView
use low_level_programming.Messages.CancelRejectResponseView
use low_level_programming.Messages.ExecutedResponseView
use low_level_programming.Messages.RoundTrip.EnterRequest
use low_level_programming.Messages.RoundTrip.CancelRequest
use low_level_programming.Messages.RoundTrip.AcceptResponse
use low_level_programming.Messages.RoundTrip.CancelledResponse
use low_level_programming.Messages.RoundTrip.CancelRejectResponse
use low_level_programming.Messages.RoundTrip.ExecutedResponse

abbrev pub bytes_of : UouchMessage → Buffer
bytes_of (enter_request p) = p
bytes_of (cancel_request p) = p
bytes_of (accept_response p) = p
bytes_of (cancelled_response p) = p
bytes_of (cancel_reject_response p) = p
bytes_of (executed_response p) = p

abbrev pub type_of : UouchMessage → ℕ
type_of (enter_request p) = EnterRequestView.type_byte
type_of (cancel_request p) = CancelRequestView.type_byte
type_of (accept_response p) = AcceptResponseView.type_byte
type_of (cancelled_response p) = CancelledResponseView.type_byte
type_of (cancel_reject_response p) = CancelRejectResponseView.type_byte
type_of (executed_response p) = ExecutedResponseView.type_byte

-- decode returns a message exactly when the message looks at the whole input and the input starts
-- with the type byte of its kind.
pub decode-ok_iff :
    (bytes : Buffer) (m : UouchMessage)
    → (decode bytes ≡ ok m) ↔ ((bytes_of m ≡ bytes) × (get_or bytes 0 0 ≡ type_of m))
unfolding decode
decode-ok_iff bytes (enter_request p) = ground arith
decode-ok_iff bytes (cancel_request p) = ground arith
decode-ok_iff bytes (accept_response p) = ground arith
decode-ok_iff bytes (cancelled_response p) = ground arith
decode-ok_iff bytes (cancel_reject_response p) = ground arith
decode-ok_iff bytes (executed_response p) = ground arith

-- What a builder has built is decoded as a message of its kind.
pub decode-build :
    (e : EnterRequest.EnterRequest) (x : CancelRequest.CancelRequest)
    (a : AcceptResponse.AcceptResponse) (c : CancelledResponse.CancelledResponse)
    (i : CancelRejectResponse.CancelRejectResponse) (f : ExecutedResponse.ExecutedResponse)
    → (decode (EnterRequest.build e) ≡ ok (enter_request (EnterRequest.build e)))
      × (decode (CancelRequest.build x) ≡ ok (cancel_request (CancelRequest.build x)))
      × (decode (AcceptResponse.build a) ≡ ok (accept_response (AcceptResponse.build a)))
      × (decode (CancelledResponse.build c) ≡ ok (cancelled_response (CancelledResponse.build c)))
      × (decode (CancelRejectResponse.build i)
          ≡ ok (cancel_reject_response (CancelRejectResponse.build i)))
      × (decode (ExecutedResponse.build f) ≡ ok (executed_response (ExecutedResponse.build f)))
decode-build e x a c i f = (
  (decode-ok_iff _ (enter_request (EnterRequest.build e))).1 (refl, (EnterRequest.wire-build e).1),
  (decode-ok_iff _ (cancel_request (CancelRequest.build x))).1
      (refl, (CancelRequest.wire-build x).1),
  (decode-ok_iff _ (accept_response (AcceptResponse.build a))).1
      (refl, (AcceptResponse.wire-build a).1),
  (decode-ok_iff _ (cancelled_response (CancelledResponse.build c))).1
      (refl, (CancelledResponse.wire-build c).1),
  (decode-ok_iff _ (cancel_reject_response (CancelRejectResponse.build i))).1
      (refl, (CancelRejectResponse.wire-build i).1),
  (decode-ok_iff _ (executed_response (ExecutedResponse.build f))).1
      (refl, (ExecutedResponse.wire-build f).1),
)
