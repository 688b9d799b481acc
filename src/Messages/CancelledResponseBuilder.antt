-- ===== src/Messages/CancelledResponseBuilder.antt =====
-- `class CancelledResponseBuilder` of 4_order_book_proj/src/messages.hpp, lines 376 to 402. A setter takes the
-- value and the buffer that it writes to, and returns the buffer.
use low_level_programming.Shared.{ℕ, replicate}
use low_level_programming.Messages.Bytes.{Buffer, store_be32, store_be64, store_char}
use low_level_programming.Messages.CancelledResponseView.{type_byte, wire_size}

-- `buf{}`, with the type byte that the constructor writes
unfoldable pub new : Buffer
unfolding store_char
new = store_char (replicate wire_size 0) 0 type_byte

unfoldable pub timestamp : ℕ → Buffer → Buffer
unfolding store_be64
timestamp v buf = store_be64 buf 1 v

unfoldable pub user_ref_num : ℕ → Buffer → Buffer
unfolding store_be32
user_ref_num v buf = store_be32 buf 9 v

unfoldable pub quantity : ℕ → Buffer → Buffer
unfolding store_be32
quantity v buf = store_be32 buf 13 v

unfoldable pub reason : ℕ → Buffer → Buffer
unfolding store_char
reason v buf = store_char buf 17 v

unfoldable pub bytes : Buffer → Buffer
bytes buf = buf
