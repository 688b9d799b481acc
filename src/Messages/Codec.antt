-- ===== src/Messages/Codec.antt =====
-- The six messages together: all that is on the wire, from the builders to `decode` and the views.
use low_level_programming.Shared.{ℕ, ◌≡◌, refl, length, All, IsByte, ok, ◌>>=◌}
use low_level_programming.Messages.Bytes.{Buffer}
use low_level_programming.Messages.Bytes.Fields.{fit}
use low_level_programming.Messages.Decode.{
  UouchMessage, enter_request, cancel_request, accept_response, cancelled_response,
  cancel_reject_response, executed_response, decode,
}
use low_level_programming.Messages.Decode.Laws.{decode-ok_iff}
use low_level_programming.Messages.EnterRequestView
use low_level_programming.Messages.CancelRequestView
use low_level_programming.Messages.AcceptResponseView
use low_level_programming.Messages.CancelledResponseView
use low_level_programming.Messages.CancelRejectResponseView
use low_level_programming.Messages.ExecutedResponseView
use low_level_programming.Messages.RoundTrip.EnterRequest
use low_level_programming.Messages.RoundTrip.CancelRequest
use low_level_programming.Messages.RoundTrip.AcceptResponse
use low_level_programming.Messages.RoundTrip.CancelledResponse
use low_level_programming.Messages.RoundTrip.CancelRejectResponse
use low_level_programming.Messages.RoundTrip.ExecutedResponse

pub data Message : Type 0 where
  of_enter_request : EnterRequest.EnterRequest → Message
  of_cancel_request : CancelRequest.CancelRequest → Message
  of_accept_response : AcceptResponse.AcceptResponse → Message
  of_cancelled_response : CancelledResponse.CancelledResponse → Message
  of_cancel_reject_response : CancelRejectResponse.CancelRejectResponse → Message
  of_executed_response : ExecutedResponse.ExecutedResponse → Message

-- each field of the message fits the C++ type of its setter
abbrev pub IsWire : Message → Type 0
IsWire (of_enter_request m) = EnterRequest.IsWire m
IsWire (of_cancel_request m) = CancelRequest.IsWire m
IsWire (of_accept_response m) = AcceptResponse.IsWire m
IsWire (of_cancelled_response m) = CancelledResponse.IsWire m
IsWire (of_cancel_reject_response m) = CancelRejectResponse.IsWire m
IsWire (of_executed_response m) = ExecutedResponse.IsWire m

-- every setter of the message's builder
unfoldable pub wire : Message → Buffer
wire (of_enter_request m) = EnterRequest.build m
wire (of_cancel_request m) = CancelRequest.build m
wire (of_accept_response m) = AcceptResponse.build m
wire (of_cancelled_response m) = CancelledResponse.build m
wire (of_cancel_reject_response m) = CancelRejectResponse.build m
wire (of_executed_response m) = ExecutedResponse.build m

-- every field of the view
unfoldable pub read : UouchMessage → Message
read (enter_request p) = of_enter_request (EnterRequest.view p)
read (cancel_request p) = of_cancel_request (CancelRequest.view p)
read (accept_response p) = of_accept_response (AcceptResponse.view p)
read (cancelled_response p) = of_cancelled_response (CancelledResponse.view p)
read (cancel_reject_response p) = of_cancel_reject_response (CancelRejectResponse.view p)
read (executed_response p) = of_executed_response (ExecutedResponse.view p)

-- what a message is on the wire: a text has the width of its field, with spaces after it
abbrev pub fitted : Message → Message
fitted (of_enter_request m) =
    of_enter_request (record m { symbol = fit 8 m.symbol; cl_ord_id = fit 14 m.cl_ord_id })
fitted (of_cancel_request m) = of_cancel_request m
fitted (of_accept_response m) =
    of_accept_response (record m { symbol = fit 8 m.symbol; cl_ord_id = fit 14 m.cl_ord_id })
fitted (of_cancelled_response m) = of_cancelled_response m
fitted (of_cancel_reject_response m) = of_cancel_reject_response m
fitted (of_executed_response m) = of_executed_response m

abbrev pub wire_size : UouchMessage → ℕ
wire_size (enter_request _) = EnterRequestView.wire_size
wire_size (cancel_request _) = CancelRequestView.wire_size
wire_size (accept_response _) = AcceptResponseView.wire_size
wire_size (cancelled_response _) = CancelledResponseView.wire_size
wire_size (cancel_reject_response _) = CancelRejectResponseView.wire_size
wire_size (executed_response _) = ExecutedResponseView.wire_size

-- Each of the six messages, its fields within their types, written by its builder, decoded and read
-- through its view, is the message again, with its texts cut or padded to the widths of their
-- fields.
pub decode-wire : (m : Message) → IsWire m → (decode (wire m) >>= λ u. ok (read u)) ≡ ok (fitted m)
unfolding wire read
decode-wire (of_enter_request m) h =
    rw
      (
        (decode-ok_iff (EnterRequest.build m) (enter_request (EnterRequest.build m))).1
            (refl, (EnterRequest.wire-build m).1),
        EnterRequest.view-build m h,
      )
      refl
decode-wire (of_cancel_request m) h =
    rw
      (
        (decode-ok_iff (CancelRequest.build m) (cancel_request (CancelRequest.build m))).1
            (refl, (CancelRequest.wire-build m).1),
        CancelRequest.view-build m h,
      )
      refl
decode-wire (of_accept_response m) h =
    rw
      (
        (decode-ok_iff (AcceptResponse.build m) (accept_response (AcceptResponse.build m))).1
            (refl, (AcceptResponse.wire-build m).1),
        AcceptResponse.view-build m h,
      )
      refl
decode-wire (of_cancelled_response m) h =
    rw
      (
        (decode-ok_iff (CancelledResponse.build m)
              (cancelled_response (CancelledResponse.build m))).1
            (refl, (CancelledResponse.wire-build m).1),
        CancelledResponse.view-build m h,
      )
      refl
decode-wire (of_cancel_reject_response m) h =
    rw
      (
        (decode-ok_iff (CancelRejectResponse.build m)
              (cancel_reject_response (CancelRejectResponse.build m))).1
            (refl, (CancelRejectResponse.wire-build m).1),
        CancelRejectResponse.view-build m h,
      )
      refl
decode-wire (of_executed_response m) h =
    rw
      (
        (decode-ok_iff (ExecutedResponse.build m) (executed_response (ExecutedResponse.build m))).1
            (refl, (ExecutedResponse.wire-build m).1),
        ExecutedResponse.view-build m h,
      )
      refl

-- Bytes, each below 256, that decode to a message and have its wire size are what the builder
-- writes for the fields that the view reads.
pub wire-decode :
    (bytes : Buffer) (u : UouchMessage)
    → All IsByte bytes
    → decode bytes ≡ ok u
    → length bytes ≡ wire_size u
    → wire (read u) ≡ bytes
unfolding wire read
wire-decode bytes (enter_request p) h d len =
    let (same, ty) = (decode-ok_iff bytes (enter_request p)).0 d in
    rw same (EnterRequest.build-view bytes h len ty)
wire-decode bytes (cancel_request p) h d len =
    let (same, ty) = (decode-ok_iff bytes (cancel_request p)).0 d in
    rw same (CancelRequest.build-view bytes h len ty)
wire-decode bytes (accept_response p) h d len =
    let (same, ty) = (decode-ok_iff bytes (accept_response p)).0 d in
    rw same (AcceptResponse.build-view bytes h len ty)
wire-decode bytes (cancelled_response p) h d len =
    let (same, ty) = (decode-ok_iff bytes (cancelled_response p)).0 d in
    rw same (CancelledResponse.build-view bytes h len ty)
wire-decode bytes (cancel_reject_response p) h d len =
    let (same, ty) = (decode-ok_iff bytes (cancel_reject_response p)).0 d in
    rw same (CancelRejectResponse.build-view bytes h len ty)
wire-decode bytes (executed_response p) h d len =
    let (same, ty) = (decode-ok_iff bytes (executed_response p)).0 d in
    rw same (ExecutedResponse.build-view bytes h len ty)
