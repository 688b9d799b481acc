-- ===== src/Messages/RoundTrip/ExecutedResponse.antt =====
-- A whole ExecutedResponse message: the fields that ExecutedResponseView reads, and the chain of setters that
-- ExecutedResponseBuilder writes them with.
use low_level_programming.Shared.{
  ℕ, ◌≡◌, refl, [], ◌∷◌, ◌++◌, get_or, length, All, IsByte, IsU16, IsU32, IsU64, ap, sym, ◌∙◌,
}
use low_level_programming.Messages.Bytes.{Buffer, load_bytes, store_bytes, to_le, bswap}
use low_level_programming.Messages.Bytes.Laws.{swapped_store}
use low_level_programming.Messages.Bytes.Fields.{
  fit, load_bytes_all, swap_load16, swap_load32, swap_load64,
}
use low_level_programming.Messages.ExecutedResponseView
use low_level_programming.Messages.ExecutedResponseBuilder

pub record ExecutedResponse : Type 0 where
  pub timestamp : ℕ
  pub user_ref_num : ℕ
  pub quantity : ℕ
  pub price : ℕ
  pub liquidity_flag : ℕ
  pub match_number : ℕ
  pub appendage_length : ℕ

-- Each field fits its C++ type.
pub record IsWire (m : ExecutedResponse) : Type 0 where
  pub timestamp : IsU64 m.timestamp
  pub user_ref_num : IsU32 m.user_ref_num
  pub quantity : IsU32 m.quantity
  pub price : IsU64 m.price
  pub liquidity_flag : IsByte m.liquidity_flag
  pub match_number : IsU64 m.match_number
  pub appendage_length : IsU16 m.appendage_length

unfoldable pub view : Buffer → ExecutedResponse
unfolding ExecutedResponseView.timestamp ExecutedResponseView.user_ref_num
    ExecutedResponseView.quantity ExecutedResponseView.price ExecutedResponseView.liquidity_flag
    ExecutedResponseView.match_number ExecutedResponseView.appendage_length
view p = record {
  timestamp = ExecutedResponseView.timestamp p;
  user_ref_num = ExecutedResponseView.user_ref_num p;
  quantity = ExecutedResponseView.quantity p;
  price = ExecutedResponseView.price p;
  liquidity_flag = ExecutedResponseView.liquidity_flag p;
  match_number = ExecutedResponseView.match_number p;
  appendage_length = ExecutedResponseView.appendage_length p;
}

unfoldable pub build : ExecutedResponse → Buffer
unfolding ExecutedResponseBuilder.new ExecutedResponseBuilder.bytes
    ExecutedResponseBuilder.timestamp ExecutedResponseBuilder.user_ref_num
    ExecutedResponseBuilder.quantity ExecutedResponseBuilder.price
    ExecutedResponseBuilder.liquidity_flag ExecutedResponseBuilder.match_number
    ExecutedResponseBuilder.appendage_length
build m = ExecutedResponseBuilder.bytes (
    ExecutedResponseBuilder.appendage_length m.appendage_length (
      ExecutedResponseBuilder.match_number m.match_number (
        ExecutedResponseBuilder.liquidity_flag m.liquidity_flag (
          ExecutedResponseBuilder.price m.price (
            ExecutedResponseBuilder.quantity m.quantity (
              ExecutedResponseBuilder.user_ref_num m.user_ref_num
                (ExecutedResponseBuilder.timestamp m.timestamp ExecutedResponseBuilder.new)))))))

-- the fields in the order of the wire, with no gap between them
layout : ExecutedResponse → Buffer
unfolding to_le fit
layout m =
    ExecutedResponseView.type_byte
    ∷ (to_le 8 (bswap 8 m.timestamp)
        ++ (to_le 4 (bswap 4 m.user_ref_num)
            ++ (to_le 4 (bswap 4 m.quantity)
                ++ (to_le 8 (bswap 8 m.price)
                    ++ ((m.liquidity_flag ∷ [])
                        ++ (to_le 8 (bswap 8 m.match_number)
                            ++ (to_le 2 (bswap 2 m.appendage_length))))))))

build-layout : (m : ExecutedResponse) → build m ≡ layout m
unfolding build layout store_bytes
build-layout m = refl

-- A built message has the wire size and starts with its type byte.
pub wire-build :
    (m : ExecutedResponse)
    → (length (build m) ≡ ExecutedResponseView.wire_size)
      × (get_or (build m) 0 0 ≡ ExecutedResponseView.type_byte)
unfolding layout
wire-build m = rw build-layout (refl, refl)

view-layout : (m : ExecutedResponse) → IsWire m → view (layout m) ≡ m
unfolding view layout load_bytes
view-layout m h i = record {
  timestamp = swapped_store 8 m.timestamp h.timestamp i;
  user_ref_num = swapped_store 4 m.user_ref_num h.user_ref_num i;
  quantity = swapped_store 4 m.quantity h.quantity i;
  price = swapped_store 8 m.price h.price i;
  liquidity_flag = m.liquidity_flag;
  match_number = swapped_store 8 m.match_number h.match_number i;
  appendage_length = swapped_store 2 m.appendage_length h.appendage_length i;
}

-- What ExecutedResponseView reads from what ExecutedResponseBuilder wrote with every setter is each value that was set.
pub view-build : (m : ExecutedResponse) → IsWire m → view (build m) ≡ m
view-build m h = rw build-layout (view-layout m h)

layout-view :
    (p : Buffer)
    → All IsByte p
    → ExecutedResponseView.type_byte ∷ load_bytes p 1 35 ≡ layout (view p)
unfolding view layout load_bytes
layout-view p h = λ i.
    ExecutedResponseView.type_byte
    ∷ (sym (swap_load64 p 1 h) i
        ++ (sym (swap_load32 p 9 h) i
            ++ (sym (swap_load32 p 13 h) i
                ++ (sym (swap_load64 p 17 h) i
                    ++ ((get_or p 25 0 ∷ [])
                        ++ (sym (swap_load64 p 26 h) i ++ (sym (swap_load16 p 34 h) i)))))))

-- Every byte of a ExecutedResponse message belongs to one field: building from what was read gives the
-- bytes back.
pub build-view :
    (p : Buffer)
    → All IsByte p
    → length p ≡ ExecutedResponseView.wire_size
    → get_or p 0 0 ≡ ExecutedResponseView.type_byte
    → build (view p) ≡ p
unfolding load_bytes
build-view p h len ty =
    build-layout (view p)
    ∙ sym (layout-view p h)
    ∙ ap (λ b. b ∷ load_bytes p 1 35) (sym ty)
    ∙ load_bytes_all p 36 len
