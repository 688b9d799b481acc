-- ===== src/Messages/AcceptResponseView.antt =====
-- `class AcceptResponseView` of 4_order_book_proj/src/messages.hpp, lines 136 to 171. A view is the buffer
-- that its pointer leads to.
use low_level_programming.Shared.{ℕ, List}
use low_level_programming.Messages.Bytes.{
  Buffer, load_be16, load_be32, load_be64, load_char, load_str,
}

abbrev pub type_byte : ℕ
type_byte = b'A'

abbrev pub wire_size : ℕ
wire_size = 64

unfoldable pub timestamp : Buffer → ℕ
unfolding load_be64
timestamp p = load_be64 p 1

unfoldable pub user_ref_num : Buffer → ℕ
unfolding load_be32
user_ref_num p = load_be32 p 9

unfoldable pub side : Buffer → ℕ
unfolding load_char
side p = load_char p 13

unfoldable pub quantity : Buffer → ℕ
unfolding load_be32
quantity p = load_be32 p 14

unfoldable pub symbol : Buffer → List ℕ
unfolding load_str
symbol p = load_str p 18 8

unfoldable pub price : Buffer → ℕ
unfolding load_be64
price p = load_be64 p 26

unfoldable pub time_in_force : Buffer → ℕ
unfolding load_char
time_in_force p = load_char p 34

unfoldable pub display : Buffer → ℕ
unfolding load_char
display p = load_char p 35

unfoldable pub order_reference_number : Buffer → ℕ
unfolding load_be64
order_reference_number p = load_be64 p 36

unfoldable pub capacity : Buffer → ℕ
unfolding load_char
capacity p = load_char p 44

unfoldable pub inter_market_sweep_elig : Buffer → ℕ
unfolding load_char
inter_market_sweep_elig p = load_char p 45

unfoldable pub cross_type : Buffer → ℕ
unfolding load_char
cross_type p = load_char p 46

unfoldable pub order_state : Buffer → ℕ
unfolding load_char
order_state p = load_char p 47

unfoldable pub cl_ord_id : Buffer → List ℕ
unfolding load_str
cl_ord_id p = load_str p 48 14

unfoldable pub appendage_length : Buffer → ℕ
unfolding load_be16
appendage_length p = load_be16 p 62
