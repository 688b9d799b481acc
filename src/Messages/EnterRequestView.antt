-- ===== src/Messages/EnterRequestView.antt =====
-- `class EnterRequestView` of 4_order_book_proj/src/messages.hpp, lines 89 to 122. A view is the buffer
-- that its pointer leads to.
use low_level_programming.Shared.{ℕ, List}
use low_level_programming.Messages.Bytes.{
  Buffer, load_be16, load_be32, load_be64, load_char, load_str,
}

abbrev pub type_byte : ℕ
type_byte = b'O'

abbrev pub wire_size : ℕ
wire_size = 47

unfoldable pub bytes_of : Buffer → Buffer
bytes_of p = p

unfoldable pub user_ref_num : Buffer → ℕ
unfolding load_be32
user_ref_num p = load_be32 p 1

unfoldable pub side : Buffer → ℕ
unfolding load_char
side p = load_char p 5

unfoldable pub quantity : Buffer → ℕ
unfolding load_be32
quantity p = load_be32 p 6

unfoldable pub symbol : Buffer → List ℕ
unfolding load_str
symbol p = load_str p 10 8

unfoldable pub price : Buffer → ℕ
unfolding load_be64
price p = load_be64 p 18

unfoldable pub time_in_force : Buffer → ℕ
unfolding load_char
time_in_force p = load_char p 26

unfoldable pub display : Buffer → ℕ
unfolding load_char
display p = load_char p 27

unfoldable pub capacity : Buffer → ℕ
unfolding load_char
capacity p = load_char p 28

unfoldable pub inter_market_sweep_elig : Buffer → ℕ
unfolding load_char
inter_market_sweep_elig p = load_char p 29

unfoldable pub cross_type : Buffer → ℕ
unfolding load_char
cross_type p = load_char p 30

unfoldable pub cl_ord_id : Buffer → List ℕ
unfolding load_str
cl_ord_id p = load_str p 31 14

unfoldable pub appendage_length : Buffer → ℕ
unfolding load_be16
appendage_length p = load_be16 p 45
