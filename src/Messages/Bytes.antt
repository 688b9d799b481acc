-- ===== src/Messages/Bytes.antt =====
-- `namespace detail` of 4_order_book_proj/src/messages.hpp, lines 37 to 83: loads and stores of
-- fixed-width fields. A buffer is the list of its bytes, and `p + off` is an offset into it.
-- A read past the end, which C++ leaves undefined, gives 0 here, and a write past the end is
-- dropped; every buffer of the program is an array that holds the fields which are read.
-- `memcpy` into an integer reads the bytes as the host does, the lowest first, and
-- `__builtin_bswapN` reverses them.
pub mod Laws
pub mod Fields
use low_level_programming.Shared.{
  ℕ, zero, suc, ◌+◌, ◌-◌, ◌*◌, ◌/◌, ◌%◌, min, List, [], ◌∷◌, reverse, length, get_or, set, take,
  replicate, ltb, if◌then◌else◌,
}

abbrev pub Buffer : Type 0
Buffer = List ℕ

-- `memcpy` of n bytes out of a buffer and into one
unfoldable pub load_bytes : Buffer → ℕ → ℕ → List ℕ
load_bytes p off zero = []
load_bytes p off (suc n) = get_or p off 0 ∷ load_bytes p (off + 1) n

unfoldable pub store_bytes : Buffer → ℕ → List ℕ → Buffer
store_bytes p off [] = p
store_bytes p off (b ∷ bs) = store_bytes (set p off b) (off + 1) bs

-- an integer in the memory of a little-endian host
unfoldable pub from_le : List ℕ → ℕ
from_le [] = 0
from_le (b ∷ bs) = b + 256 * from_le bs

unfoldable pub to_le : ℕ → ℕ → List ℕ
to_le zero v = []
to_le (suc n) v = v % 256 ∷ to_le n (v / 256)

-- `__builtin_bswap16`, `32` and `64` at n = 2, 4 and 8
unfoldable pub bswap : ℕ → ℕ → ℕ
unfolding from_le to_le
bswap n v = from_le (reverse (to_le n v))

unfoldable pub load_be16 : Buffer → ℕ → ℕ
unfolding load_bytes
load_be16 p off = let v = from_le (load_bytes p off 2) in bswap 2 v

unfoldable pub load_be32 : Buffer → ℕ → ℕ
unfolding load_bytes
load_be32 p off = let v = from_le (load_bytes p off 4) in bswap 4 v

unfoldable pub load_be64 : Buffer → ℕ → ℕ
unfolding load_bytes
load_be64 p off = let v = from_le (load_bytes p off 8) in bswap 8 v

unfoldable pub load_char : Buffer → ℕ → ℕ
load_char p off = get_or p off 0

unfoldable pub load_str : Buffer → ℕ → ℕ → List ℕ
unfolding load_bytes
load_str p off n = load_bytes p off n

unfoldable pub store_be16 : Buffer → ℕ → ℕ → Buffer
unfolding store_bytes to_le
store_be16 p off v = let be = bswap 2 v in store_bytes p off (to_le 2 be)

unfoldable pub store_be32 : Buffer → ℕ → ℕ → Buffer
unfolding store_bytes to_le
store_be32 p off v = let be = bswap 4 v in store_bytes p off (to_le 4 be)

unfoldable pub store_be64 : Buffer → ℕ → ℕ → Buffer
unfolding store_bytes to_le
store_be64 p off v = let be = bswap 8 v in store_bytes p off (to_le 8 be)

unfoldable pub store_char : Buffer → ℕ → ℕ → Buffer
store_char p off c = set p off c

-- the `memcpy` of the text, then the `memset` of what is left of the field
unfoldable pub store_str : Buffer → ℕ → List ℕ → ℕ → Buffer
unfolding store_bytes
store_str p off s n =
    let copy_n = min (length s) n in
    let p' = store_bytes p off (take copy_n s) in
    if ltb copy_n n then store_bytes p' (off + copy_n) (replicate (n - copy_n) b' ') else p'
