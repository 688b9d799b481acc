-- ===== src/Messages/RoundTrip/CancelRejectResponse.antt =====
-- A whole CancelRejectResponse message: the fields that CancelRejectResponseView reads, and the chain of setters that
-- CancelRejectResponseBuilder writes them with.
use low_level_programming.Shared.{
  ℕ, ◌≡◌, refl, ◌∷◌, ◌++◌, get_or, length, All, IsByte, IsU16, IsU32, IsU64, ap, sym, ◌∙◌,
}
use low_level_programming.Messages.Bytes.{Buffer, load_bytes, store_bytes, to_le, bswap}
use low_level_programming.Messages.Bytes.Laws.{swapped_store}
use low_level_programming.Messages.Bytes.Fields.{
  fit, load_bytes_all, swap_load16, swap_load32, swap_load64,
}
use low_level_programming.Messages.CancelRejectResponseView
use low_level_programming.Messages.CancelRejectResponseBuilder

pub record CancelRejectResponse : Type 0 where
  pub timestamp : ℕ
  pub user_ref_num : ℕ
  pub appendage_length : ℕ

-- Each field fits its C++ type.
pub record IsWire (m : CancelRejectResponse) : Type 0 where
  pub timestamp : IsU64 m.timestamp
  pub user_ref_num : IsU32 m.user_ref_num
  pub appendage_length : IsU16 m.appendage_length

unfoldable pub view : Buffer → CancelRejectResponse
unfolding CancelRejectResponseView.timestamp CancelRejectResponseView.user_ref_num
    CancelRejectResponseView.appendage_length
view p = record {
  timestamp = CancelRejectResponseView.timestamp p;
  user_ref_num = CancelRejectResponseView.user_ref_num p;
  appendage_length = CancelRejectResponseView.appendage_length p;
}

unfoldable pub build : CancelRejectResponse → Buffer
unfolding CancelRejectResponseBuilder.new CancelRejectResponseBuilder.bytes
    CancelRejectResponseBuilder.timestamp CancelRejectResponseBuilder.user_ref_num
    CancelRejectResponseBuilder.appendage_length
build m = CancelRejectResponseBuilder.bytes (
    CancelRejectResponseBuilder.appendage_length m.appendage_length (
      CancelRejectResponseBuilder.user_ref_num m.user_ref_num
        (CancelRejectResponseBuilder.timestamp m.timestamp CancelRejectResponseBuilder.new)))

-- the fields in the order of the wire, with no gap between them
layout : CancelRejectResponse → Buffer
unfolding to_le fit
layout m =
    CancelRejectResponseView.type_byte
    ∷ (to_le 8 (bswap 8 m.timestamp)
        ++ (to_le 4 (bswap 4 m.user_ref_num) ++ (to_le 2 (bswap 2 m.appendage_length))))

build-layout : (m : CancelRejectResponse) → build m ≡ layout m
unfolding build layout store_bytes
build-layout m = refl

-- A built message has the wire size and starts with its type byte.
pub wire-build :
    (m : CancelRejectResponse)
    → (length (build m) ≡ CancelRejectResponseView.wire_size)
      × (get_or (build m) 0 0 ≡ CancelRejectResponseView.type_byte)
unfolding layout
wire-build m = rw build-layout (refl, refl)

view-layout : (m : CancelRejectResponse) → IsWire m → view (layout m) ≡ m
unfolding view layout load_bytes
view-layout m h i = record {
  timestamp = swapped_store 8 m.timestamp h.timestamp i;
  user_ref_num = swapped_store 4 m.user_ref_num h.user_ref_num i;
  appendage_length = swapped_store 2 m.appendage_length h.appendage_length i;
}

-- What CancelRejectResponseView reads from what CancelRejectResponseBuilder wrote with every setter is each value that was set.
pub view-build : (m : CancelRejectResponse) → IsWire m → view (build m) ≡ m
view-build m h = rw build-layout (view-layout m h)

layout-view :
    (p : Buffer)
    → All IsByte p
    → CancelRejectResponseView.type_byte ∷ load_bytes p 1 14 ≡ layout (view p)
unfolding view layout load_bytes
layout-view p h = λ i.
    CancelRejectResponseView.type_byte
    ∷ (sym (swap_load64 p 1 h) i ++ (sym (swap_load32 p 9 h) i ++ (sym (swap_load16 p 13 h) i)))

-- Every byte of a CancelRejectResponse message belongs to one field: building from what was read gives the
-- bytes back.
pub build-view :
    (p : Buffer)
    → All IsByte p
    → length p ≡ CancelRejectResponseView.wire_size
    → get_or p 0 0 ≡ CancelRejectResponseView.type_byte
    → build (view p) ≡ p
unfolding load_bytes
build-view p h len ty =
    build-layout (view p)
    ∙ sym (layout-view p h)
    ∙ ap (λ b. b ∷ load_bytes p 1 14) (sym ty)
    ∙ load_bytes_all p 15 len
