-- ===== src/Messages/CancelledResponseView.antt =====
-- `class CancelledResponseView` of 4_order_book_proj/src/messages.hpp, lines 173 to 185. A view is the buffer
-- that its pointer leads to.
use low_level_programming.Shared.{ℕ}
use low_level_programming.Messages.Bytes.{Buffer, load_be32, load_be64, load_char}

abbrev pub type_byte : ℕ
type_byte = b'C'

abbrev pub wire_size : ℕ
wire_size = 18

unfoldable pub timestamp : Buffer → ℕ
unfolding load_be64
timestamp p = load_be64 p 1

unfoldable pub user_ref_num : Buffer → ℕ
unfolding load_be32
user_ref_num p = load_be32 p 9

unfoldable pub quantity : Buffer → ℕ
unfolding load_be32
quantity p = load_be32 p 13

unfoldable pub reason : Buffer → ℕ
unfolding load_char
reason p = load_char p 17
