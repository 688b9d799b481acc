-- ===== src/Messages/EnterRequestBuilder.antt =====
-- `class EnterRequestBuilder` of 4_order_book_proj/src/messages.hpp, lines 222 to 281. A setter takes the
-- value and the buffer that it writes to, and returns the buffer.
use low_level_programming.Shared.{ℕ, List, replicate}
use low_level_programming.Messages.Bytes.{
  Buffer, store_be16, store_be32, store_be64, store_char, store_str,
}
use low_level_programming.Messages.EnterRequestView.{type_byte, wire_size}

-- `buf{}`, with the type byte that the constructor writes
unfoldable pub new : Buffer
unfolding store_char
new = store_char (replicate wire_size 0) 0 type_byte

unfoldable pub user_ref_num : ℕ → Buffer → Buffer
unfolding store_be32
user_ref_num v buf = store_be32 buf 1 v

unfoldable pub side : ℕ → Buffer → Buffer
unfolding store_char
side v buf = store_char buf 5 v

unfoldable pub quantity : ℕ → Buffer → Buffer
unfolding store_be32
quantity v buf = store_be32 buf 6 v

unfoldable pub symbol : List ℕ → Buffer → Buffer
symbol v buf = store_str buf 10 v 8

unfoldable pub price : ℕ → Buffer → Buffer
unfolding store_be64
price v buf = store_be64 buf 18 v

unfoldable pub time_in_force : ℕ → Buffer → Buffer
unfolding store_char
time_in_force v buf = store_char buf 26 v

unfoldable pub display : ℕ → Buffer → Buffer
unfolding store_char
display v buf = store_char buf 27 v

unfoldable pub capacity : ℕ → Buffer → Buffer
unfolding store_char
capacity v buf = store_char buf 28 v

unfoldable pub inter_market_sweep_elig : ℕ → Buffer → Buffer
unfolding store_char
inter_market_sweep_elig v buf = store_char buf 29 v

unfoldable pub cross_type : ℕ → Buffer → Buffer
unfolding store_char
cross_type v buf = store_char buf 30 v

unfoldable pub cl_ord_id : List ℕ → Buffer → Buffer
cl_ord_id v buf = store_str buf 31 v 14

unfoldable pub appendage_length : ℕ → Buffer → Buffer
unfolding store_be16
appendage_length v buf = store_be16 buf 45 v

unfoldable pub bytes : Buffer → Buffer
bytes buf = buf
