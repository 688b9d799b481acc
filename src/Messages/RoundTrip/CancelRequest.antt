-- ===== src/Messages/RoundTrip/CancelRequest.antt =====
-- A whole CancelRequest message: the fields that CancelRequestView reads, and the chain of setters that
-- CancelRequestBuilder writes them with.
use low_level_programming.Shared.{
  ℕ, ◌≡◌, refl, ◌∷◌, ◌++◌, get_or, length, All, IsByte, IsU32, ap, sym, ◌∙◌,
}
use low_level_programming.Messages.Bytes.{Buffer, load_bytes, store_bytes, to_le, bswap}
use low_level_programming.Messages.Bytes.Laws.{swapped_store}
use low_level_programming.Messages.Bytes.Fields.{fit, load_bytes_all, swap_load32}
use low_level_programming.Messages.CancelRequestView
use low_level_programming.Messages.CancelRequestBuilder

pub record CancelRequest : Type 0 where
  pub user_ref_num : ℕ
  pub quantity : ℕ

-- Each field fits its C++ type.
pub record IsWire (m : CancelRequest) : Type 0 where
  pub user_ref_num : IsU32 m.user_ref_num
  pub quantity : IsU32 m.quantity

unfoldable pub view : Buffer → CancelRequest
unfolding CancelRequestView.user_ref_num CancelRequestView.quantity
view p = record {
  user_ref_num = CancelRequestView.user_ref_num p;
  quantity = CancelRequestView.quantity p;
}

unfoldable pub build : CancelRequest → Buffer
unfolding CancelRequestBuilder.new CancelRequestBuilder.bytes CancelRequestBuilder.user_ref_num
    CancelRequestBuilder.quantity
build m = CancelRequestBuilder.bytes (
    CancelRequestBuilder.quantity m.quantity
      (CancelRequestBuilder.user_ref_num m.user_ref_num CancelRequestBuilder.new))

-- the fields in the order of the wire, with no gap between them
layout : CancelRequest → Buffer
unfolding to_le fit
layout m =
    CancelRequestView.type_byte
    ∷ (to_le 4 (bswap 4 m.user_ref_num) ++ (to_le 4 (bswap 4 m.quantity)))

build-layout : (m : CancelRequest) → build m ≡ layout m
unfolding build layout store_bytes
build-layout m = refl

-- A built message has the wire size and starts with its type byte.
pub wire-build :
    (m : CancelRequest)
    → (length (build m) ≡ CancelRequestView.wire_size)
      × (get_or (build m) 0 0 ≡ CancelRequestView.type_byte)
unfolding layout
wire-build m = rw build-layout (refl, refl)

view-layout : (m : CancelRequest) → IsWire m → view (layout m) ≡ m
unfolding view layout load_bytes
view-layout m h i = record {
  user_ref_num = swapped_store 4 m.user_ref_num h.user_ref_num i;
  quantity = swapped_store 4 m.quantity h.quantity i;
}

-- What CancelRequestView reads from what CancelRequestBuilder wrote with every setter is each value that was set.
pub view-build : (m : CancelRequest) → IsWire m → view (build m) ≡ m
view-build m h = rw build-layout (view-layout m h)

layout-view :
    (p : Buffer) → All IsByte p → CancelRequestView.type_byte ∷ load_bytes p 1 8 ≡ layout (view p)
unfolding view layout load_bytes
layout-view p h =
    λ i. CancelRequestView.type_byte ∷ (sym (swap_load32 p 1 h) i ++ (sym (swap_load32 p 5 h) i))

-- Every byte of a CancelRequest message belongs to one field: building from what was read gives the
-- bytes back.
pub build-view :
    (p : Buffer)
    → All IsByte p
    → length p ≡ CancelRequestView.wire_size
    → get_or p 0 0 ≡ CancelRequestView.type_byte
    → build (view p) ≡ p
unfolding load_bytes
build-view p h len ty =
    build-layout (view p)
    ∙ sym (layout-view p h)
    ∙ ap (λ b. b ∷ load_bytes p 1 8) (sym ty)
    ∙ load_bytes_all p 9 len
