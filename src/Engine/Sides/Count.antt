-- ===== src/Engine/Sides/Count.antt =====
-- Counting the orders of a side over all levels.
use low_level_programming.Shared.{
  ℕ, zero, suc, ◌+◌, ◌<◌, ◌≤◌, ◌≡◌, refl, Bool, List, [], ◌∷◌, ◌++◌, arith, ◌==◌, if◌then◌else◌,
  update, length,
}
use native.Mathlib.Decide.{dec_lt}
use low_level_programming.Messages.EnterRequestView
use low_level_programming.Engine.OrderList.Chain.{Entry}
use low_level_programming.Engine.Memory.{Book}

abbrev pub is_buy : Entry → Bool
is_buy x = EnterRequestView.side x.raw == b'B'

abbrev pub buys : List Entry → ℕ
buys [] = 0
buys (x ∷ xs) = (if is_buy x then 1 else 0) + buys xs

abbrev pub sells : List Entry → ℕ
sells [] = 0
sells (x ∷ xs) = (if is_buy x then 0 else 1) + sells xs

pub buys-add-sells : (xs : List Entry) → buys xs + sells xs ≡ length xs
buys-add-sells [] = refl
buys-add-sells (x ∷ xs) = ground (arith, buys-add-sells xs)

pub buys-append : (xs ys : List Entry) → buys (xs ++ ys) ≡ buys xs + buys ys
buys-append [] ys = omega arith
buys-append (x ∷ xs) ys = omega (arith, buys-append xs ys)

pub sells-append : (xs ys : List Entry) → sells (xs ++ ys) ≡ sells xs + sells ys
sells-append [] ys = omega arith
sells-append (x ∷ xs) ys = omega (arith, sells-append xs ys)

-- the sum of `w` over the levels below `n`
unfoldable pub total : (List Entry → ℕ) → ℕ → Book → ℕ
total w zero book = 0
total w (suc n) book = total w n book + w (book n)

module _ (w : List Entry → ℕ) where
  total-update_above :
      (n i : ℕ) (book : Book) (xs : List Entry)
      → n ≤ i
      → total w n (update book i xs) ≡ total w n book
  unfolding total
  total-update_above zero i book xs h = refl
  total-update_above (suc n) i book xs h = ground (arith, total-update_above n i book xs)

  pub total-update :
      (n i : ℕ) (book : Book) (xs : List Entry)
      → i < n
      → total w n (update book i xs) + w (book i) ≡ total w n book + w xs
  unfolding total
  total-update zero i book xs h = absurd (omega arith)
  total-update (suc n) i book xs h = elim (dec_lt i n) [
    | yes below ↦ ground (arith, total-update n i book xs below)
    | no at ↦ ground (arith, total-update_above n i book xs)
  ]

  -- A level holds no more than all levels.
  pub le-total : (n i : ℕ) (book : Book) → i < n → w (book i) ≤ total w n book
  unfolding total
  le-total zero i book h = absurd (omega arith)
  le-total (suc n) i book h = elim (dec_lt i n) [
    | yes below ↦ omega (arith, le-total n i book below)
    | no at ↦ ground arith
  ]

  -- If the levels hold something together, one of them does.
  pub total-pos : (n : ℕ) (book : Book) → 0 < total w n book → (i : ℕ) × (i < n) × (0 < w (book i))
  unfolding total
  total-pos zero book h = absurd (omega arith)
  total-pos (suc n) book h = elim (dec_lt 0 (w (book n))) [
    | yes here ↦ (n, omega arith, here)
    | no below ↦ let (i, lt, pos) = total-pos n book (omega arith) in (i, omega arith, pos)
  ]

  pub total-zero : (n : ℕ) (book : Book) → ((i : ℕ) → i < n → w (book i) ≡ 0) → total w n book ≡ 0
  unfolding total
  total-zero zero book h = refl
  total-zero (suc n) book h =
      omega (arith, total-zero n book (λ i lt. h i (omega arith)), h n (omega arith))

  pub total-congr : (n : ℕ) (f g : Book) → ((i : ℕ) → w (f i) ≡ w (g i)) → total w n f ≡ total w n g
  unfolding total
  total-congr zero f g h = refl
  total-congr (suc n) f g h = omega (arith, total-congr n f g h, h n)
