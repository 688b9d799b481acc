-- ===== src/Messages/AcceptResponseBuilder.antt =====
-- `class AcceptResponseBuilder` of 4_order_book_proj/src/messages.hpp, lines 303 to 374. A setter takes the
-- value and the buffer that it writes to, and returns the buffer.
use low_level_programming.Shared.{ℕ, List, replicate}
use low_level_programming.Messages.Bytes.{
  Buffer, store_be16, store_be32, store_be64, store_char, store_str,
}
use low_level_programming.Messages.AcceptResponseView.{type_byte, wire_size}

-- `buf{}`, with the type byte that the constructor writes
unfoldable pub new : Buffer
unfolding store_char
new = store_char (replicate wire_size 0) 0 type_byte

unfoldable pub timestamp : ℕ → Buffer → Buffer
unfolding store_be64
timestamp v buf = store_be64 buf 1 v

unfoldable pub user_ref_num : ℕ → Buffer → Buffer
unfolding store_be32
user_ref_num v buf = store_be32 buf 9 v

unfoldable pub side : ℕ → Buffer → Buffer
unfolding store_char
side v buf = store_char buf 13 v

unfoldable pub quantity : ℕ → Buffer → Buffer
unfolding store_be32
quantity v buf = store_be32 buf 14 v

unfoldable pub symbol : List ℕ → Buffer → Buffer
symbol v buf = store_str buf 18 v 8

unfoldable pub price : ℕ → Buffer → Buffer
unfolding store_be64
price v buf = store_be64 buf 26 v

unfoldable pub time_in_force : ℕ → Buffer → Buffer
unfolding store_char
time_in_force v buf = store_char buf 34 v

unfoldable pub display : ℕ → Buffer → Buffer
unfolding store_char
display v buf = store_char buf 35 v

unfoldable pub order_reference_number : ℕ → Buffer → Buffer
unfolding store_be64
order_reference_number v buf = store_be64 buf 36 v

unfoldable pub capacity : ℕ → Buffer → Buffer
unfolding store_char
capacity v buf = store_char buf 44 v

unfoldable pub inter_market_sweep_elig : ℕ → Buffer → Buffer
unfolding store_char
inter_market_sweep_elig v buf = store_char buf 45 v

unfoldable pub cross_type : ℕ → Buffer → Buffer
unfolding store_char
cross_type v buf = store_char buf 46 v

unfoldable pub order_state : ℕ → Buffer → Buffer
unfolding store_char
order_state v buf = store_char buf 47 v

unfoldable pub cl_ord_id : List ℕ → Buffer → Buffer
cl_ord_id v buf = store_str buf 48 v 14

unfoldable pub appendage_length : ℕ → Buffer → Buffer
unfolding store_be16
appendage_length v buf = store_be16 buf 62 v

unfoldable pub bytes : Buffer → Buffer
bytes buf = buf
