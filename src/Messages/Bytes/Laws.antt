-- ===== src/Messages/Bytes/Laws.antt =====
-- The laws of the loads and stores: byte order, and what a field holds after a store.
use mathlib.Core.List.{reverse_aux}
use native.Mathlib.Nat.{pow-suc}
use low_level_programming.Shared.{
  ℕ, zero, suc, ◌/◌, ◌^◌, ◌<◌, ◌≡◌, refl, sym, ap, ap₂, ◌∙◌, List, [], ◌∷◌, reverse,
  reverse-reverse, arith, length, length-reverse, All, IsByte,
}
use low_level_programming.Messages.Bytes.{from_le, to_le, bswap}

pub length-to_le : (n v : ℕ) → length (to_le n v) ≡ n
unfolding to_le
length-to_le zero v = refl
length-to_le (suc n) v = ap suc (length-to_le n (v / 256))

pub to_le-bytes : (n v : ℕ) → All IsByte (to_le n v)
unfolding to_le
to_le-bytes zero v = tt
to_le-bytes (suc n) v = (omega arith, to_le-bytes n (v / 256))

pub from_le-to_le : (n v : ℕ) → v < 256 ^ n → from_le (to_le n v) ≡ v
unfolding from_le to_le
from_le-to_le zero v h = omega arith
from_le-to_le (suc n) v h =
    omega (arith, pow-suc 256 n, from_le-to_le n (v / 256) (omega (arith, pow-suc 256 n)))

pub from_le-lt : (bs : List ℕ) → All IsByte bs → from_le bs < 256 ^ length bs
unfolding from_le
from_le-lt [] h = omega arith
from_le-lt (b ∷ bs) h = omega (arith, pow-suc 256 (length bs), from_le-lt bs h.1)

pub to_le-from_le : (bs : List ℕ) → All IsByte bs → to_le (length bs) (from_le bs) ≡ bs
unfolding from_le to_le
to_le-from_le [] h = refl
to_le-from_le (b ∷ bs) h =
    ap₂ ◌∷◌ (omega arith) (ap (to_le (length bs)) (omega arith) ∙ to_le-from_le bs h.1)

All-reverse_aux : (xs ys : List ℕ) → All IsByte xs → All IsByte ys → All IsByte (reverse_aux xs ys)
All-reverse_aux [] ys h k = k
All-reverse_aux (x ∷ xs) ys h k = All-reverse_aux xs (x ∷ ys) h.1 (h.0, k)

to_le-from_le-reverse : (n v : ℕ) → to_le n (from_le (reverse (to_le n v))) ≡ reverse (to_le n v)
to_le-from_le-reverse n v =
    ap (λ k. to_le k (from_le (reverse (to_le n v))))
      (sym (length-reverse (to_le n v) ∙ length-to_le n v))
    ∙ to_le-from_le (reverse (to_le n v)) (All-reverse_aux (to_le n v) [] (to_le-bytes n v) tt)

-- Swapping the bytes of an n-byte integer twice gives it back.
pub bswap-bswap : (n v : ℕ) → v < 256 ^ n → bswap n (bswap n v) ≡ v
unfolding bswap
bswap-bswap n v h = rw (to_le-from_le-reverse, reverse-reverse, from_le-to_le n v h)

pub bswap-lt : (n v : ℕ) → bswap n v < 256 ^ n
unfolding bswap
bswap-lt n v =
    let lt : from_le (reverse (to_le n v)) < 256 ^ length (reverse (to_le n v)) =
      from_le-lt (reverse (to_le n v)) (All-reverse_aux (to_le n v) [] (to_le-bytes n v) tt) in
    rw (length-reverse (to_le n v), length-to_le n v) at lt

-- What a field read as the host reads it holds after a store of `v`.
pub swapped_store : (n v : ℕ) → v < 256 ^ n → bswap n (from_le (to_le n (bswap n v))) ≡ v
swapped_store n v h = rw (from_le-to_le n (bswap n v) (bswap-lt n v)) (bswap-bswap n v h)

-- Storing what was read from n bytes gives those bytes.
pub stored_load :
    (bs : List ℕ)
    → All IsByte bs
    → to_le (length bs) (bswap (length bs) (bswap (length bs) (from_le bs))) ≡ bs
stored_load bs h = rw (bswap-bswap (length bs) (from_le bs) (from_le-lt bs h)) (to_le-from_le bs h)
