-- ===== src/Messages/CancelRejectResponseView.antt =====
-- `class CancelRejectResponseView` of 4_order_book_proj/src/messages.hpp, lines 187 to 198. A view is the buffer
-- that its pointer leads to.
use low_level_programming.Shared.{ℕ}
use low_level_programming.Messages.Bytes.{Buffer, load_be16, load_be32, load_be64}

abbrev pub type_byte : ℕ
type_byte = b'I'

abbrev pub wire_size : ℕ
wire_size = 15

unfoldable pub timestamp : Buffer → ℕ
unfolding load_be64
timestamp p = load_be64 p 1

unfoldable pub user_ref_num : Buffer → ℕ
unfolding load_be32
user_ref_num p = load_be32 p 9

unfoldable pub appendage_length : Buffer → ℕ
unfolding load_be16
appendage_length p = load_be16 p 13
