-- ===== src/Messages/RoundTrip/AcceptResponse.antt =====
-- A whole AcceptResponse message: the fields that AcceptResponseView reads, and the chain of setters that
-- AcceptResponseBuilder writes them with.
use low_level_programming.Shared.{
  ℕ, ◌≡◌, refl, List, [], ◌∷◌, ◌++◌, get_or, length, All, IsByte, IsU16, IsU32, IsU64, ap, sym, ◌∙◌,
}
use low_level_programming.Messages.Bytes.{Buffer, load_bytes, store_bytes, to_le, bswap}
use low_level_programming.Messages.Bytes.Laws.{swapped_store}
use low_level_programming.Messages.Bytes.Fields.{
  fit, store_str-fit, load_bytes_all, swap_load16, swap_load32, swap_load64,
}
use low_level_programming.Messages.AcceptResponseView
use low_level_programming.Messages.AcceptResponseBuilder

pub record AcceptResponse : Type 0 where
  pub timestamp : ℕ
  pub user_ref_num : ℕ
  pub side : ℕ
  pub quantity : ℕ
  pub symbol : List ℕ
  pub price : ℕ
  pub time_in_force : ℕ
  pub display : ℕ
  pub order_reference_number : ℕ
  pub capacity : ℕ
  pub inter_market_sweep_elig : ℕ
  pub cross_type : ℕ
  pub order_state : ℕ
  pub cl_ord_id : List ℕ
  pub appendage_length : ℕ

-- Each field fits its C++ type.
pub record IsWire (m : AcceptResponse) : Type 0 where
  pub timestamp : IsU64 m.timestamp
  pub user_ref_num : IsU32 m.user_ref_num
  pub side : IsByte m.side
  pub quantity : IsU32 m.quantity
  pub symbol : All IsByte m.symbol
  pub price : IsU64 m.price
  pub time_in_force : IsByte m.time_in_force
  pub display : IsByte m.display
  pub order_reference_number : IsU64 m.order_reference_number
  pub capacity : IsByte m.capacity
  pub inter_market_sweep_elig : IsByte m.inter_market_sweep_elig
  pub cross_type : IsByte m.cross_type
  pub order_state : IsByte m.order_state
  pub cl_ord_id : All IsByte m.cl_ord_id
  pub appendage_length : IsU16 m.appendage_length

unfoldable pub view : Buffer → AcceptResponse
unfolding AcceptResponseView.timestamp AcceptResponseView.user_ref_num AcceptResponseView.side
    AcceptResponseView.quantity AcceptResponseView.symbol AcceptResponseView.price
    AcceptResponseView.time_in_force AcceptResponseView.display
    AcceptResponseView.order_reference_number AcceptResponseView.capacity
    AcceptResponseView.inter_market_sweep_elig AcceptResponseView.cross_type
    AcceptResponseView.order_state AcceptResponseView.cl_ord_id AcceptResponseView.appendage_length
view p = record {
  timestamp = AcceptResponseView.timestamp p;
  user_ref_num = AcceptResponseView.user_ref_num p;
  side = AcceptResponseView.side p;
  quantity = AcceptResponseView.quantity p;
  symbol = AcceptResponseView.symbol p;
  price = AcceptResponseView.price p;
  time_in_force = AcceptResponseView.time_in_force p;
  display = AcceptResponseView.display p;
  order_reference_number = AcceptResponseView.order_reference_number p;
  capacity = AcceptResponseView.capacity p;
  inter_market_sweep_elig = AcceptResponseView.inter_market_sweep_elig p;
  cross_type = AcceptResponseView.cross_type p;
  order_state = AcceptResponseView.order_state p;
  cl_ord_id = AcceptResponseView.cl_ord_id p;
  appendage_length = AcceptResponseView.appendage_length p;
}

unfoldable pub build : AcceptResponse → Buffer
unfolding AcceptResponseBuilder.new AcceptResponseBuilder.bytes AcceptResponseBuilder.timestamp
    AcceptResponseBuilder.user_ref_num AcceptResponseBuilder.side AcceptResponseBuilder.quantity
    AcceptResponseBuilder.symbol AcceptResponseBuilder.price AcceptResponseBuilder.time_in_force
    AcceptResponseBuilder.display AcceptResponseBuilder.order_reference_number
    AcceptResponseBuilder.capacity AcceptResponseBuilder.inter_market_sweep_elig
    AcceptResponseBuilder.cross_type AcceptResponseBuilder.order_state
    AcceptResponseBuilder.cl_ord_id AcceptResponseBuilder.appendage_length
build m = AcceptResponseBuilder.bytes (
    AcceptResponseBuilder.appendage_length m.appendage_length (
      AcceptResponseBuilder.cl_ord_id m.cl_ord_id (
        AcceptResponseBuilder.order_state m.order_state (
          AcceptResponseBuilder.cross_type m.cross_type (
            AcceptResponseBuilder.inter_market_sweep_elig m.inter_market_sweep_elig (
              AcceptResponseBuilder.capacity m.capacity (
                AcceptResponseBuilder.order_reference_number m.order_reference_number (
                  AcceptResponseBuilder.display m.display (
                    AcceptResponseBuilder.time_in_force m.time_in_force (
                      AcceptResponseBuilder.price m.price (
                        AcceptResponseBuilder.symbol m.symbol (
                          AcceptResponseBuilder.quantity m.quantity (
                            AcceptResponseBuilder.side m.side (
                              AcceptResponseBuilder.user_ref_num m.user_ref_num (
                                AcceptResponseBuilder.timestamp m.timestamp
                                  AcceptResponseBuilder.new)))))))))))))))

-- the fields in the order of the wire, with no gap between them
layout : AcceptResponse → Buffer
unfolding to_le fit
layout m =
    AcceptResponseView.type_byte
    ∷ (to_le 8 (bswap 8 m.timestamp)
        ++ (to_le 4 (bswap 4 m.user_ref_num)
            ++ ((m.side ∷ [])
                ++ (to_le 4 (bswap 4 m.quantity)
                    ++ (fit 8 m.symbol
                        ++ (to_le 8 (bswap 8 m.price)
                            ++ ((m.time_in_force ∷ [])
                                ++ ((m.display ∷ [])
                                    ++ (to_le 8 (bswap 8 m.order_reference_number)
                                        ++ ((m.capacity ∷ [])
                                            ++ ((m.inter_market_sweep_elig ∷ [])
                                                ++ ((m.cross_type ∷ [])
                                                    ++ ((m.order_state ∷ [])
                                                        ++ (fit 14 m.cl_ord_id
                                                            ++ (to_le 2 (
                                                            bswap 2
                                                            m.appendage_length))))))))))))))))

build-layout : (m : AcceptResponse) → build m ≡ layout m
unfolding build layout store_bytes
build-layout m = simp store_str-fit

-- A built message has the wire size and starts with its type byte.
pub wire-build :
    (m : AcceptResponse)
    → (length (build m) ≡ AcceptResponseView.wire_size)
      × (get_or (build m) 0 0 ≡ AcceptResponseView.type_byte)
unfolding layout
wire-build m = rw build-layout (refl, refl)

view-layout :
    (m : AcceptResponse)
    → IsWire m
    → view (layout m) ≡ record m { symbol = fit 8 m.symbol; cl_ord_id = fit 14 m.cl_ord_id }
unfolding view layout load_bytes
view-layout m h i = record {
  timestamp = swapped_store 8 m.timestamp h.timestamp i;
  user_ref_num = swapped_store 4 m.user_ref_num h.user_ref_num i;
  side = m.side;
  quantity = swapped_store 4 m.quantity h.quantity i;
  symbol = fit 8 m.symbol;
  price = swapped_store 8 m.price h.price i;
  time_in_force = m.time_in_force;
  display = m.display;
  order_reference_number = swapped_store 8 m.order_reference_number h.order_reference_number i;
  capacity = m.capacity;
  inter_market_sweep_elig = m.inter_market_sweep_elig;
  cross_type = m.cross_type;
  order_state = m.order_state;
  cl_ord_id = fit 14 m.cl_ord_id;
  appendage_length = swapped_store 2 m.appendage_length h.appendage_length i;
}

-- What AcceptResponseView reads from what AcceptResponseBuilder wrote with every setter is each value that was set,
-- a text padded with spaces or cut to the width of its field.
pub view-build :
    (m : AcceptResponse)
    → IsWire m
    → view (build m) ≡ record m { symbol = fit 8 m.symbol; cl_ord_id = fit 14 m.cl_ord_id }
view-build m h = rw build-layout (view-layout m h)

layout-view :
    (p : Buffer) → All IsByte p → AcceptResponseView.type_byte ∷ load_bytes p 1 63 ≡ layout (view p)
unfolding view layout load_bytes
layout-view p h = λ i.
    AcceptResponseView.type_byte
    ∷ (sym (swap_load64 p 1 h) i
        ++ (sym (swap_load32 p 9 h) i
            ++ ((get_or p 13 0 ∷ [])
                ++ (sym (swap_load32 p 14 h) i
                    ++ (load_bytes p 18 8
                        ++ (sym (swap_load64 p 26 h) i
                            ++ ((get_or p 34 0 ∷ [])
                                ++ ((get_or p 35 0 ∷ [])
                                    ++ (sym (swap_load64 p 36 h) i
                                        ++ ((get_or p 44 0 ∷ [])
                                            ++ ((get_or p 45 0 ∷ [])
                                                ++ ((get_or p 46 0 ∷ [])
                                                    ++ ((get_or p 47 0 ∷ [])
                                                        ++ (load_bytes p 48 14
                                                            ++ (sym (swap_load16 p 62 h)
                                                            i)))))))))))))))

-- Every byte of a AcceptResponse message belongs to one field: building from what was read gives the
-- bytes back.
pub build-view :
    (p : Buffer)
    → All IsByte p
    → length p ≡ AcceptResponseView.wire_size
    → get_or p 0 0 ≡ AcceptResponseView.type_byte
    → build (view p) ≡ p
unfolding load_bytes
build-view p h len ty =
    build-layout (view p)
    ∙ sym (layout-view p h)
    ∙ ap (λ b. b ∷ load_bytes p 1 63) (sym ty)
    ∙ load_bytes_all p 64 len
