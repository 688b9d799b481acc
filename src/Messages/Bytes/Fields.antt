-- ===== src/Messages/Bytes/Fields.antt =====
-- What a text field holds, and whole fields of a buffer.
use low_level_programming.Shared.{
  ℕ, zero, suc, ◌+◌, ◌-◌, min, ◌≡◌, refl, ap, ◌∙◌, inl, inr, List, [], ◌∷◌, ◌++◌, append-nil, arith,
  length, length-take, get_or, set, take, replicate, All, IsByte, ltb, Bool-cases, tests,
}
use low_level_programming.Messages.Bytes.{
  Buffer, load_bytes, store_bytes, to_le, bswap, load_be16, load_be32, load_be64, store_str,
}
use low_level_programming.Messages.Bytes.Laws.{stored_load}

-- the n characters of `s` from index i on, with spaces past its end
unfoldable pub fit_from : ℕ → ℕ → List ℕ → List ℕ
fit_from i zero s = []
fit_from i (suc n) s = get_or s i b' ' ∷ fit_from (i + 1) n s

unfoldable pub fit : ℕ → List ℕ → List ℕ
unfolding fit_from
fit n s = fit_from 0 n s

fit_from-cons : (i n c : ℕ) (s : List ℕ) → fit_from (suc i) n (c ∷ s) ≡ fit_from i n s
unfolding fit_from
fit_from-cons i zero c s = refl
fit_from-cons i (suc n) c s =
    ap (λ t. get_or s i b' ' ∷ t)
      (ap (λ j. fit_from j n (c ∷ s)) (omega arith) ∙ fit_from-cons (i + 1) n c s)

fit_from-nil : (i n : ℕ) → fit_from i n [] ≡ replicate n b' '
unfolding fit_from
fit_from-nil i zero = refl
fit_from-nil i (suc n) = ap (λ t. b' ' ∷ t) (fit_from-nil (i + 1) n)

-- A field holds the text cut to its width, and spaces in what is left.
pub fit-eq-append : (n : ℕ) (s : List ℕ) → fit n s ≡ take n s ++ replicate (n - length s) b' '
unfolding fit
fit-eq-append zero s = let left : 0 - length s ≡ 0 = omega arith in rw left
fit-eq-append (suc n) [] =
    let left : suc n - 0 ≡ suc n = omega arith in rw left (fit_from-nil 0 (suc n))
fit-eq-append (suc n) (c ∷ s) =
    let left : suc n - suc (length s) ≡ n - length s = omega arith in
    rw left (ap (λ t. c ∷ t) (fit_from-cons 0 n c s ∙ fit-eq-append n s))

pub store_bytes-append :
    (p : Buffer) (off : ℕ) (xs ys : List ℕ)
    → store_bytes (store_bytes p off xs) (off + length xs) ys ≡ store_bytes p off (xs ++ ys)
unfolding store_bytes
store_bytes-append p off [] ys = ap (λ k. store_bytes p k ys) (omega arith)
store_bytes-append p off (x ∷ xs) ys =
    ap (λ k. store_bytes (store_bytes (set p off x) (off + 1) xs) k ys) (omega arith)
    ∙ store_bytes-append (set p off x) (off + 1) xs ys

take-min : (n : ℕ) (s : List ℕ) → take (min (length s) n) s ≡ take n s
take-min zero s = let e : min (length s) 0 ≡ 0 = omega arith in rw e
take-min (suc n) [] = let e : min 0 (suc n) ≡ 0 = omega arith in rw e
take-min (suc n) (c ∷ s) =
    let e : min (suc (length s)) (suc n) ≡ suc (min (length s) n) = omega arith in
    rw e (ap (λ t. c ∷ t) (take-min n s))

-- `store_str` writes the whole field, whatever the length of the text.
pub store_str-fit :
    (p : Buffer) (off : ℕ) (s : List ℕ) (n : ℕ) → store_str p off s n ≡ store_bytes p off (fit n s)
unfolding store_str
store_str-fit p off s n = elim (Bool-cases (ltb (min (length s) n) n)) [
  | inl short ↦
      let copied : min (length s) n ≡ length (take n s) = omega (arith, length-take n s) in
      let left : n - length (take n s) ≡ n - length s = omega (tests, length-take n s) in
      rw (short, take-min n s, copied, left, store_bytes-append, ← fit-eq-append)
  | inr full ↦
      let left : n - length s ≡ 0 = omega tests in
      rw (full, take-min n s, fit-eq-append, left, append-nil)
]

pub load_bytes-cons :
    (b : ℕ) (p : Buffer) (off n : ℕ) → load_bytes (b ∷ p) (suc off) n ≡ load_bytes p off n
unfolding load_bytes
load_bytes-cons b p off zero = refl
load_bytes-cons b p off (suc n) =
    ap (λ t. get_or p off 0 ∷ t)
      (ap (λ j. load_bytes (b ∷ p) j n) (omega arith) ∙ load_bytes-cons b p (off + 1) n)

-- Reading a whole buffer gives its bytes.
pub load_bytes_all : (p : Buffer) (n : ℕ) → length p ≡ n → load_bytes p 0 n ≡ p
unfolding load_bytes
load_bytes_all [] zero h = refl
load_bytes_all [] (suc n) h = absurd (omega arith)
load_bytes_all (b ∷ p) zero h = absurd (omega arith)
load_bytes_all (b ∷ p) (suc n) h =
    ap (λ t. b ∷ t)
      (ap (λ j. load_bytes (b ∷ p) j n) (omega arith)
        ∙ load_bytes-cons b p 0 n
        ∙ load_bytes_all p n (omega arith))

get_or-byte : (p : Buffer) (i : ℕ) → All IsByte p → IsByte (get_or p i 0)
get_or-byte [] i h = omega arith
get_or-byte (b ∷ p) zero h = h.0
get_or-byte (b ∷ p) (suc i) h = get_or-byte p i h.1

load_bytes-bytes : (p : Buffer) (off n : ℕ) → All IsByte p → All IsByte (load_bytes p off n)
unfolding load_bytes
load_bytes-bytes p off zero h = tt
load_bytes-bytes p off (suc n) h = (get_or-byte p off h, load_bytes-bytes p (off + 1) n h)

pub swap_load16 :
    (p : Buffer) (off : ℕ) → All IsByte p → to_le 2 (bswap 2 (load_be16 p off)) ≡ load_bytes p off 2
unfolding load_be16
swap_load16 p off h = stored_load (load_bytes p off 2) (load_bytes-bytes p off 2 h)

pub swap_load32 :
    (p : Buffer) (off : ℕ) → All IsByte p → to_le 4 (bswap 4 (load_be32 p off)) ≡ load_bytes p off 4
unfolding load_be32
swap_load32 p off h = stored_load (load_bytes p off 4) (load_bytes-bytes p off 4 h)

pub swap_load64 :
    (p : Buffer) (off : ℕ) → All IsByte p → to_le 8 (bswap 8 (load_be64 p off)) ≡ load_bytes p off 8
unfolding load_be64
swap_load64 p off h = stored_load (load_bytes p off 8) (load_bytes-bytes p off 8 h)
