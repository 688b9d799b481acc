-- ===== src/Messages/RoundTrip/EnterRequest.antt =====
-- A whole EnterRequest message: the fields that EnterRequestView reads, and the chain of setters that
-- EnterRequestBuilder writes them with.
use low_level_programming.Shared.{
  ℕ, ◌≡◌, refl, List, [], ◌∷◌, ◌++◌, get_or, length, All, IsByte, IsU16, IsU32, IsU64, ap, sym, ◌∙◌,
}
use low_level_programming.Messages.Bytes.{Buffer, load_bytes, store_bytes, to_le, bswap}
use low_level_programming.Messages.Bytes.Laws.{swapped_store}
use low_level_programming.Messages.Bytes.Fields.{
  fit, store_str-fit, load_bytes_all, swap_load16, swap_load32, swap_load64,
}
use low_level_programming.Messages.EnterRequestView
use low_level_programming.Messages.EnterRequestBuilder

pub record EnterRequest : Type 0 where
  pub user_ref_num : ℕ
  pub side : ℕ
  pub quantity : ℕ
  pub symbol : List ℕ
  pub price : ℕ
  pub time_in_force : ℕ
  pub display : ℕ
  pub capacity : ℕ
  pub inter_market_sweep_elig : ℕ
  pub cross_type : ℕ
  pub cl_ord_id : List ℕ
  pub appendage_length : ℕ

-- Each field fits its C++ type.
pub record IsWire (m : EnterRequest) : Type 0 where
  pub user_ref_num : IsU32 m.user_ref_num
  pub side : IsByte m.side
  pub quantity : IsU32 m.quantity
  pub symbol : All IsByte m.symbol
  pub price : IsU64 m.price
  pub time_in_force : IsByte m.time_in_force
  pub display : IsByte m.display
  pub capacity : IsByte m.capacity
  pub inter_market_sweep_elig : IsByte m.inter_market_sweep_elig
  pub cross_type : IsByte m.cross_type
  pub cl_ord_id : All IsByte m.cl_ord_id
  pub appendage_length : IsU16 m.appendage_length

unfoldable pub view : Buffer → EnterRequest
unfolding EnterRequestView.user_ref_num EnterRequestView.side EnterRequestView.quantity
    EnterRequestView.symbol EnterRequestView.price EnterRequestView.time_in_force
    EnterRequestView.display EnterRequestView.capacity EnterRequestView.inter_market_sweep_elig
    EnterRequestView.cross_type EnterRequestView.cl_ord_id EnterRequestView.appendage_length
view p = record {
  user_ref_num = EnterRequestView.user_ref_num p;
  side = EnterRequestView.side p;
  quantity = EnterRequestView.quantity p;
  symbol = EnterRequestView.symbol p;
  price = EnterRequestView.price p;
  time_in_force = EnterRequestView.time_in_force p;
  display = EnterRequestView.display p;
  capacity = EnterRequestView.capacity p;
  inter_market_sweep_elig = EnterRequestView.inter_market_sweep_elig p;
  cross_type = EnterRequestView.cross_type p;
  cl_ord_id = EnterRequestView.cl_ord_id p;
  appendage_length = EnterRequestView.appendage_length p;
}

unfoldable pub build : EnterRequest → Buffer
unfolding EnterRequestBuilder.new EnterRequestBuilder.bytes EnterRequestBuilder.user_ref_num
    EnterRequestBuilder.side EnterRequestBuilder.quantity EnterRequestBuilder.symbol
    EnterRequestBuilder.price EnterRequestBuilder.time_in_force EnterRequestBuilder.display
    EnterRequestBuilder.capacity EnterRequestBuilder.inter_market_sweep_elig
    EnterRequestBuilder.cross_type EnterRequestBuilder.cl_ord_id
    EnterRequestBuilder.appendage_length
build m = EnterRequestBuilder.bytes (
    EnterRequestBuilder.appendage_length m.appendage_length (
      EnterRequestBuilder.cl_ord_id m.cl_ord_id (
        EnterRequestBuilder.cross_type m.cross_type (
          EnterRequestBuilder.inter_market_sweep_elig m.inter_market_sweep_elig (
            EnterRequestBuilder.capacity m.capacity (
              EnterRequestBuilder.display m.display (
                EnterRequestBuilder.time_in_force m.time_in_force (
                  EnterRequestBuilder.price m.price (
                    EnterRequestBuilder.symbol m.symbol (
                      EnterRequestBuilder.quantity m.quantity (
                        EnterRequestBuilder.side m.side (
                          EnterRequestBuilder.user_ref_num m.user_ref_num
                            EnterRequestBuilder.new))))))))))))

-- the fields in the order of the wire, with no gap between them
layout : EnterRequest → Buffer
unfolding to_le fit
layout m =
    EnterRequestView.type_byte
    ∷ (to_le 4 (bswap 4 m.user_ref_num)
        ++ ((m.side ∷ [])
            ++ (to_le 4 (bswap 4 m.quantity)
                ++ (fit 8 m.symbol
                    ++ (to_le 8 (bswap 8 m.price)
                        ++ ((m.time_in_force ∷ [])
                            ++ ((m.display ∷ [])
                                ++ ((m.capacity ∷ [])
                                    ++ ((m.inter_market_sweep_elig ∷ [])
                                        ++ ((m.cross_type ∷ [])
                                            ++ (fit 14 m.cl_ord_id
                                                ++ (to_le 2 (bswap 2 m.appendage_length)))))))))))))

build-layout : (m : EnterRequest) → build m ≡ layout m
unfolding build layout store_bytes
build-layout m = simp store_str-fit

-- A built message has the wire size and starts with its type byte.
pub wire-build :
    (m : EnterRequest)
    → (length (build m) ≡ EnterRequestView.wire_size)
      × (get_or (build m) 0 0 ≡ EnterRequestView.type_byte)
unfolding layout
wire-build m = rw build-layout (refl, refl)

view-layout :
    (m : EnterRequest)
    → IsWire m
    → view (layout m) ≡ record m { symbol = fit 8 m.symbol; cl_ord_id = fit 14 m.cl_ord_id }
unfolding view layout load_bytes
view-layout m h i = record {
  user_ref_num = swapped_store 4 m.user_ref_num h.user_ref_num i;
  side = m.side;
  quantity = swapped_store 4 m.quantity h.quantity i;
  symbol = fit 8 m.symbol;
  price = swapped_store 8 m.price h.price i;
  time_in_force = m.time_in_force;
  display = m.display;
  capacity = m.capacity;
  inter_market_sweep_elig = m.inter_market_sweep_elig;
  cross_type = m.cross_type;
  cl_ord_id = fit 14 m.cl_ord_id;
  appendage_length = swapped_store 2 m.appendage_length h.appendage_length i;
}

-- What EnterRequestView reads from what EnterRequestBuilder wrote with every setter is each value that was set,
-- a text padded with spaces or cut to the width of its field.
pub view-build :
    (m : EnterRequest)
    → IsWire m
    → view (build m) ≡ record m { symbol = fit 8 m.symbol; cl_ord_id = fit 14 m.cl_ord_id }
view-build m h = rw build-layout (view-layout m h)

layout-view :
    (p : Buffer) → All IsByte p → EnterRequestView.type_byte ∷ load_bytes p 1 46 ≡ layout (view p)
unfolding view layout load_bytes
layout-view p h = λ i.
    EnterRequestView.type_byte
    ∷ (sym (swap_load32 p 1 h) i
        ++ ((get_or p 5 0 ∷ [])
            ++ (sym (swap_load32 p 6 h) i
                ++ (load_bytes p 10 8
                    ++ (sym (swap_load64 p 18 h) i
                        ++ ((get_or p 26 0 ∷ [])
                            ++ ((get_or p 27 0 ∷ [])
                                ++ ((get_or p 28 0 ∷ [])
                                    ++ ((get_or p 29 0 ∷ [])
                                        ++ ((get_or p 30 0 ∷ [])
                                            ++ (load_bytes p 31 14
                                                ++ (sym (swap_load16 p 45 h) i))))))))))))

-- Every byte of a EnterRequest message belongs to one field: building from what was read gives the
-- bytes back.
pub build-view :
    (p : Buffer)
    → All IsByte p
    → length p ≡ EnterRequestView.wire_size
    → get_or p 0 0 ≡ EnterRequestView.type_byte
    → build (view p) ≡ p
unfolding load_bytes
build-view p h len ty =
    build-layout (view p)
    ∙ sym (layout-view p h)
    ∙ ap (λ b. b ∷ load_bytes p 1 46) (sym ty)
    ∙ load_bytes_all p 47 len
