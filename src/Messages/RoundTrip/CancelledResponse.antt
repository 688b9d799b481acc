-- ===== src/Messages/RoundTrip/CancelledResponse.antt =====
-- A whole CancelledResponse message: the fields that CancelledResponseView reads, and the chain of setters that
-- CancelledResponseBuilder writes them with.
use low_level_programming.Shared.{
  ℕ, ◌≡◌, refl, [], ◌∷◌, ◌++◌, get_or, length, All, IsByte, IsU32, IsU64, ap, sym, ◌∙◌,
}
use low_level_programming.Messages.Bytes.{Buffer, load_bytes, store_bytes, to_le, bswap}
use low_level_programming.Messages.Bytes.Laws.{swapped_store}
use low_level_programming.Messages.Bytes.Fields.{fit, load_bytes_all, swap_load32, swap_load64}
use low_level_programming.Messages.CancelledResponseView
use low_level_programming.Messages.CancelledResponseBuilder

pub record CancelledResponse : Type 0 where
  pub timestamp : ℕ
  pub user_ref_num : ℕ
  pub quantity : ℕ
  pub reason : ℕ

-- Each field fits its C++ type.
pub record IsWire (m : CancelledResponse) : Type 0 where
  pub timestamp : IsU64 m.timestamp
  pub user_ref_num : IsU32 m.user_ref_num
  pub quantity : IsU32 m.quantity
  pub reason : IsByte m.reason

unfoldable pub view : Buffer → CancelledResponse
unfolding CancelledResponseView.timestamp CancelledResponseView.user_ref_num
    CancelledResponseView.quantity CancelledResponseView.reason
view p = record {
  timestamp = CancelledResponseView.timestamp p;
  user_ref_num = CancelledResponseView.user_ref_num p;
  quantity = CancelledResponseView.quantity p;
  reason = CancelledResponseView.reason p;
}

unfoldable pub build : CancelledResponse → Buffer
unfolding CancelledResponseBuilder.new CancelledResponseBuilder.bytes
    CancelledResponseBuilder.timestamp CancelledResponseBuilder.user_ref_num
    CancelledResponseBuilder.quantity CancelledResponseBuilder.reason
build m = CancelledResponseBuilder.bytes (
    CancelledResponseBuilder.reason m.reason (
      CancelledResponseBuilder.quantity m.quantity (
        CancelledResponseBuilder.user_ref_num m.user_ref_num
          (CancelledResponseBuilder.timestamp m.timestamp CancelledResponseBuilder.new))))

-- the fields in the order of the wire, with no gap between them
layout : CancelledResponse → Buffer
unfolding to_le fit
layout m =
    CancelledResponseView.type_byte
    ∷ (to_le 8 (bswap 8 m.timestamp)
        ++ (to_le 4 (bswap 4 m.user_ref_num)
            ++ (to_le 4 (bswap 4 m.quantity) ++ ((m.reason ∷ [])))))

build-layout : (m : CancelledResponse) → build m ≡ layout m
unfolding build layout store_bytes
build-layout m = refl

-- A built message has the wire size and starts with its type byte.
pub wire-build :
    (m : CancelledResponse)
    → (length (build m) ≡ CancelledResponseView.wire_size)
      × (get_or (build m) 0 0 ≡ CancelledResponseView.type_byte)
unfolding layout
wire-build m = rw build-layout (refl, refl)

view-layout : (m : CancelledResponse) → IsWire m → view (layout m) ≡ m
unfolding view layout load_bytes
view-layout m h i = record {
  timestamp = swapped_store 8 m.timestamp h.timestamp i;
  user_ref_num = swapped_store 4 m.user_ref_num h.user_ref_num i;
  quantity = swapped_store 4 m.quantity h.quantity i;
  reason = m.reason;
}

-- What CancelledResponseView reads from what CancelledResponseBuilder wrote with every setter is each value that was set.
pub view-build : (m : CancelledResponse) → IsWire m → view (build m) ≡ m
view-build m h = rw build-layout (view-layout m h)

layout-view :
    (p : Buffer)
    → All IsByte p
    → CancelledResponseView.type_byte ∷ load_bytes p 1 17 ≡ layout (view p)
unfolding view layout load_bytes
layout-view p h = λ i.
    CancelledResponseView.type_byte
    ∷ (sym (swap_load64 p 1 h) i
        ++ (sym (swap_load32 p 9 h) i ++ (sym (swap_load32 p 13 h) i ++ ((get_or p 17 0 ∷ [])))))

-- Every byte of a CancelledResponse message belongs to one field: building from what was read gives the
-- bytes back.
pub build-view :
    (p : Buffer)
    → All IsByte p
    → length p ≡ CancelledResponseView.wire_size
    → get_or p 0 0 ≡ CancelledResponseView.type_byte
    → build (view p) ≡ p
unfolding load_bytes
build-view p h len ty =
    build-layout (view p)
    ∙ sym (layout-view p h)
    ∙ ap (λ b. b ∷ load_bytes p 1 17) (sym ty)
    ∙ load_bytes_all p 18 len
