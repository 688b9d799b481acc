-- ===== src/Messages/Tests.antt =====
-- The codec at concrete messages.
use low_level_programming.Shared.{◌≡◌, ◌↔◌, refl, arith, [], ◌∷◌, get_or, All, IsByte, ok, ◌>>=◌}
use low_level_programming.Messages.Bytes.{Buffer}
use low_level_programming.Messages.Decode.{cancel_request, decode}
use low_level_programming.Messages.Decode.Laws.{decode-ok_iff}
use low_level_programming.Messages.RoundTrip.EnterRequest
use low_level_programming.Messages.Codec.{
  of_enter_request, wire, read, fitted, decode-wire, wire-decode,
}

abbrev bid : EnterRequest.EnterRequest
bid = record {
  user_ref_num = 0x01020304;
  side = b'B';
  quantity = 100;
  symbol = b'A' ∷ b'B' ∷ [];
  price = 64;
  time_in_force = b'0';
  display = b'Y';
  capacity = b'A';
  inter_market_sweep_elig = b'N';
  cross_type = b'N';
  cl_ord_id = b'1' ∷ [];
  appendage_length = 0;
}

bid-IsWire : EnterRequest.IsWire bid
bid-IsWire = record {
  user_ref_num = omega arith;
  side = omega arith;
  quantity = omega arith;
  symbol = (omega arith, (omega arith, tt));
  price = omega arith;
  time_in_force = omega arith;
  display = omega arith;
  capacity = omega arith;
  inter_market_sweep_elig = omega arith;
  cross_type = omega arith;
  cl_ord_id = (omega arith, tt);
  appendage_length = omega arith;
}

decode-wire_example :
    (decode (wire (of_enter_request bid)) >>= λ u. ok (read u)) ≡ ok (fitted (of_enter_request bid))
decode-wire_example = decode-wire (of_enter_request bid) bid-IsWire

abbrev cancel_bytes : Buffer
cancel_bytes = b'X' ∷ 0 ∷ 0 ∷ 1 ∷ 2 ∷ 0 ∷ 0 ∷ 0 ∷ 9 ∷ []

cancel_bytes-IsByte : All IsByte cancel_bytes
cancel_bytes-IsByte = (
  omega arith,
  (
    omega arith,
    (
      omega arith,
      (omega arith, (omega arith, (omega arith, (omega arith, (omega arith, (omega arith, tt)))))),
    ),
  ),
)

decode-cancel_bytes : decode cancel_bytes ≡ ok (cancel_request cancel_bytes)
unfolding decode
decode-cancel_bytes = refl

wire-decode_example : wire (read (cancel_request cancel_bytes)) ≡ cancel_bytes
wire-decode_example =
    wire-decode cancel_bytes (cancel_request cancel_bytes) cancel_bytes-IsByte decode-cancel_bytes
      refl

decode-ok_iff_example :
    (decode cancel_bytes ≡ ok (cancel_request cancel_bytes))
    ↔ ((cancel_bytes ≡ cancel_bytes) × (get_or cancel_bytes 0 0 ≡ b'X'))
decode-ok_iff_example = decode-ok_iff cancel_bytes (cancel_request cancel_bytes)
