-- ===== src/Messages/CancelRequestView.antt =====
-- `class CancelRequestView` of 4_order_book_proj/src/messages.hpp, lines 124 to 134. A view is the buffer
-- that its pointer leads to.
use low_level_programming.Shared.{ℕ}
use low_level_programming.Messages.Bytes.{Buffer, load_be32}

abbrev pub type_byte : ℕ
type_byte = b'X'

abbrev pub wire_size : ℕ
wire_size = 9

unfoldable pub user_ref_num : Buffer → ℕ
unfolding load_be32
user_ref_num p = load_be32 p 1

unfoldable pub quantity : Buffer → ℕ
unfolding load_be32
quantity p = load_be32 p 5
