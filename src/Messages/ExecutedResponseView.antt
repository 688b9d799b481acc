-- ===== src/Messages/ExecutedResponseView.antt =====
-- `class ExecutedResponseView` of 4_order_book_proj/src/messages.hpp, lines 200 to 215. A view is the buffer
-- that its pointer leads to.
use low_level_programming.Shared.{ℕ}
use low_level_programming.Messages.Bytes.{Buffer, load_be16, load_be32, load_be64, load_char}

abbrev pub type_byte : ℕ
type_byte = b'E'

abbrev pub wire_size : ℕ
wire_size = 36

unfoldable pub timestamp : Buffer → ℕ
unfolding load_be64
timestamp p = load_be64 p 1

unfoldable pub user_ref_num : Buffer → ℕ
unfolding load_be32
user_ref_num p = load_be32 p 9

unfoldable pub quantity : Buffer → ℕ
unfolding load_be32
quantity p = load_be32 p 13

unfoldable pub price : Buffer → ℕ
unfolding load_be64
price p = load_be64 p 17

unfoldable pub liquidity_flag : Buffer → ℕ
unfolding load_char
liquidity_flag p = load_char p 25

unfoldable pub match_number : Buffer → ℕ
unfolding load_be64
match_number p = load_be64 p 26

unfoldable pub appendage_length : Buffer → ℕ
unfolding load_be16
appendage_length p = load_be16 p 34
