-- ===== src/Network/Uring/Buffers.antt =====
-- A buffer as the part that was sent and the part that is left.
use low_level_programming.Shared.{
  ℕ, zero, suc, ◌+◌, ◌≤◌, ◌≡◌, refl, ap, ◌∙◌, List, [], ◌∷◌, ◌++◌, length, length-set, set, arith,
}
use low_level_programming.Messages.Bytes.{Buffer, load_bytes, store_bytes}
use low_level_programming.Messages.Bytes.Fields.{load_bytes-cons}
use low_level_programming.Network.Uring.Completion.{drop}

load_bytes-shift :
    (b : ℕ) (buf : Buffer) (n : ℕ) → load_bytes (b ∷ buf) (0 + 1) n ≡ load_bytes buf 0 n
load_bytes-shift b buf n =
    ap (λ i. load_bytes (b ∷ buf) i n) (omega arith) ∙ load_bytes-cons b buf 0 n

-- The first n bytes and what is left after dropping them are the whole buffer.
pub load_bytes-drop :
    (n : ℕ) (buf : Buffer) → n ≤ length buf → load_bytes buf 0 n ++ drop n buf ≡ buf
unfolding load_bytes
load_bytes-drop zero buf h = refl
load_bytes-drop (suc n) [] h = absurd (omega arith)
load_bytes-drop (suc n) (b ∷ buf) h =
    ap (λ bs. b ∷ (bs ++ drop n buf)) (load_bytes-shift b buf n)
    ∙ ap (λ bs. b ∷ bs) (load_bytes-drop n buf (omega arith))

pub length-drop : (n : ℕ) (buf : Buffer) → n ≤ length buf → length (drop n buf) + n ≡ length buf
length-drop zero buf h = omega arith
length-drop (suc n) [] h = absurd (omega arith)
length-drop (suc n) (b ∷ buf) h = omega (arith, length-drop n buf (omega arith))

pub length-store_bytes :
    (buf : Buffer) (off : ℕ) (bs : List ℕ) → length (store_bytes buf off bs) ≡ length buf
unfolding store_bytes
length-store_bytes buf off [] = refl
length-store_bytes buf off (b ∷ bs) =
    length-store_bytes (set buf off b) (off + 1) bs ∙ length-set buf off b

pub length-load_bytes : (buf : Buffer) (off n : ℕ) → length (load_bytes buf off n) ≡ n
unfolding load_bytes
length-load_bytes buf off zero = refl
length-load_bytes buf off (suc n) = ap suc (length-load_bytes buf (off + 1) n)

pub store_bytes_none : (buf : Buffer) (bs : List ℕ) → bs ≡ [] → store_bytes buf 0 bs ≡ buf
unfolding store_bytes
store_bytes_none buf bs e = ap (λ (l : List ℕ). store_bytes buf 0 l) e

pub drop_all : (n : ℕ) (buf : Buffer) → length buf ≤ n → drop n buf ≡ []
drop_all zero [] h = refl
drop_all zero (b ∷ buf) h = absurd (omega arith)
drop_all (suc n) [] h = refl
drop_all (suc n) (b ∷ buf) h = drop_all n buf (omega arith)
