-- ===== src/Messages/CancelRequestBuilder.antt =====
-- `class CancelRequestBuilder` of 4_order_book_proj/src/messages.hpp, lines 283 to 301. A setter takes the
-- value and the buffer that it writes to, and returns the buffer.
use low_level_programming.Shared.{ℕ, replicate}
use low_level_programming.Messages.Bytes.{Buffer, store_be32, store_char}
use low_level_programming.Messages.CancelRequestView.{type_byte, wire_size}

-- `buf{}`, with the type byte that the constructor writes
unfoldable pub new : Buffer
unfolding store_char
new = store_char (replicate wire_size 0) 0 type_byte

unfoldable pub user_ref_num : ℕ → Buffer → Buffer
unfolding store_be32
user_ref_num v buf = store_be32 buf 1 v

unfoldable pub quantity : ℕ → Buffer → Buffer
unfolding store_be32
quantity v buf = store_be32 buf 5 v

unfoldable pub bytes : Buffer → Buffer
bytes buf = buf
