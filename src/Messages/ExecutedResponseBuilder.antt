-- ===== src/Messages/ExecutedResponseBuilder.antt =====
-- `class ExecutedResponseBuilder` of 4_order_book_proj/src/messages.hpp, lines 426 to 465. A setter takes the
-- value and the buffer that it writes to, and returns the buffer.
use low_level_programming.Shared.{ℕ, replicate}
use low_level_programming.Messages.Bytes.{Buffer, store_be16, store_be32, store_be64, store_char}
use low_level_programming.Messages.ExecutedResponseView.{type_byte, wire_size}

-- `buf{}`, with the type byte that the constructor writes
unfoldable pub new : Buffer
unfolding store_char
new = store_char (replicate wire_size 0) 0 type_byte

unfoldable pub timestamp : ℕ → Buffer → Buffer
unfolding store_be64
timestamp v buf = store_be64 buf 1 v

unfoldable pub user_ref_num : ℕ → Buffer → Buffer
unfolding store_be32
user_ref_num v buf = store_be32 buf 9 v

unfoldable pub quantity : ℕ → Buffer → Buffer
unfolding store_be32
quantity v buf = store_be32 buf 13 v

unfoldable pub price : ℕ → Buffer → Buffer
unfolding store_be64
price v buf = store_be64 buf 17 v

unfoldable pub liquidity_flag : ℕ → Buffer → Buffer
unfolding store_char
liquidity_flag v buf = store_char buf 25 v

unfoldable pub match_number : ℕ → Buffer → Buffer
unfolding store_be64
match_number v buf = store_be64 buf 26 v

unfoldable pub appendage_length : ℕ → Buffer → Buffer
unfolding store_be16
appendage_length v buf = store_be16 buf 34 v

unfoldable pub bytes : Buffer → Buffer
bytes buf = buf
