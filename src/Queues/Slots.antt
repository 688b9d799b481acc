-- ===== src/Queues/Slots.antt =====
-- A ring of cells with sequence numbers. A position is counted in a `size_t`, and its cell is
-- `buffer_[pos & mask_]`, where `mask_` is the size less one.
use Prim.Native.Nat.{digits, bit_and-bitwise, ◌∣◌}
use native.Mathlib.Nat.{
  pow-suc, one-le-pow, zero-mod, mod-lt, mod-eq_of_lt, mod-mod_of_dvd, add-mul-mod_self_left,
  mod-add-div, dvd_refl, dvd-mul_right_of_dvd,
}
use native.Mathlib.Decide.{dec_lt}
use low_level_programming.Shared.{
  ℕ, zero, suc, ◌+◌, ◌-◌, ◌*◌, ◌/◌, ◌%◌, ◌^◌, ◌<◌, ◌≤◌, min, ◌≡◌, ◌≢◌, sym, ap, ap₂, ◌∙◌, arith,
  Option, update, bit_and,
}

-- `value` is `none` until something is stored in the cell.
pub record Cell {ℓ} (A : Type ℓ) : Type ℓ where
  pub sequence : ℕ
  pub value : Option A

unfoldable pub slot : (size : ℕ) → ℕ → ℕ
slot size pos = bit_and pos (size - 1)

-- `for (size_t i = 0; i < S; i++) buffer_[i].sequence.store(i)`
unfoldable pub init_cells {ℓ} : {A : Type ℓ} → ℕ → (ℕ → Cell A) → ℕ → Cell A
init_cells zero cells = cells
init_cells (suc i) cells =
    let cells' = init_cells i cells in update cells' i (record (cells' i) { sequence = i })

half_mod : (a m : ℕ) → 0 < m → a % (m * 2) ≡ a / 2 % m * 2 + a % 2
half_mod a m pos =
    let q = a / 2 in
    let low : ℕ = q % m * 2 + a % 2 in
    let split : low + m * 2 * (q / m) ≡ a =
      omega (arith, ap (λ (t : ℕ). t * 2) (mod-add-div q m)) in
    let small : low < m * 2 = omega (arith, mod-lt q pos) in
    ap (λ t. t % (m * 2)) (sym split)
    ∙ add-mul-mod_self_left low (m * 2) (q / m)
    ∙ mod-eq_of_lt small

-- the digits under a mask of ones are the remainder
mask_digits : (n a k : ℕ) → a ≤ n → digits (λ _. 0) min n a (2 ^ k - 1) ≡ a % 2 ^ k
mask_digits zero zero k le = sym (zero-mod (2 ^ k))
mask_digits zero (suc a) k le = absurd (omega arith)
mask_digits (suc n) zero k le = sym (zero-mod (2 ^ k))
mask_digits (suc n) (suc a) zero le =
    let rest : digits (λ _. 0) min n (suc a / 2) 0 ≡ suc a / 2 % 1 =
      mask_digits n (suc a / 2) zero (omega arith) in
    omega arith
mask_digits (suc n) (suc a) (suc k) le =
    let m : ℕ = 2 ^ k in
    let pos : 0 < m = one-le-pow k 2 (omega arith) in
    let mask : 2 ^ suc k ≡ m * 2 = pow-suc 2 k in
    let half : (2 ^ suc k - 1) / 2 ≡ m - 1 = omega arith in
    let odd : (2 ^ suc k - 1) % 2 ≡ 1 = omega arith in
    let rest : digits (λ _. 0) min n (suc a / 2) (m - 1) ≡ suc a / 2 % m =
      mask_digits n (suc a / 2) k (omega arith) in
    let low : min (suc a % 2) 1 ≡ suc a % 2 = omega arith in
    ap₂ (λ (x y : ℕ). digits (λ _. 0) min n (suc a / 2) x * 2 + min (suc a % 2) y) half odd
    ∙ ap₂ (λ (x y : ℕ). x * 2 + y) rest low
    ∙ sym (half_mod (suc a) m pos)
    ∙ ap (λ t. suc a % t) (sym mask)

slot-mod : (k pos : ℕ) → slot (2 ^ k) pos ≡ pos % 2 ^ k
unfolding slot
slot-mod k pos = simp bit_and-bitwise (mask_digits pos pos k (omega arith))

two_pow-dvd : (k m d : ℕ) → m ≡ d + k → 2 ^ k ∣ 2 ^ m
two_pow-dvd k m zero e = let same : m ≡ k = omega arith in rw same (dvd_refl (2 ^ k))
two_pow-dvd k zero (suc d) e = absurd (omega arith)
two_pow-dvd k (suc m) (suc d) e =
    rw (pow-suc 2 m) (dvd-mul_right_of_dvd (2 ^ k) (two_pow-dvd k m d (omega arith)) 2)

-- A position that has wrapped around 2 ^ 64 has the cell that it would have without.
pub slot_wrap : (k i : ℕ) → k ≤ 64 → slot (2 ^ k) (i % 2 ^ 64) ≡ i % 2 ^ k
slot_wrap k i le =
    slot-mod k (i % 2 ^ 64) ∙ mod-mod_of_dvd (2 ^ k) i (two_pow-dvd k 64 (64 - k) (omega arith))

-- Positions less than one round apart have different cells.
pub mod_apart : (m i j : ℕ) → i < j → j < i + m → i % m ≢ j % m
mod_apart m i j lt near same =
    let ei = mod-add-div i m in
    let ej = mod-add-div j m in
    elim (dec_lt (i / m) (j / m)) [
      | yes up ↦ let more : m * (i / m) + m ≤ m * (j / m) = grind arith in absurd (omega arith)
      | no down ↦ let less : m * (j / m) ≤ m * (i / m) = grind arith in absurd (omega arith)
    ]
