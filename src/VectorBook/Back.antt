-- ===== src/VectorBook/Back.antt =====
-- The last order of a vector.
use low_level_programming.Shared.{
  ℕ, suc, ◌+◌, ◌-◌, ◌≤◌, ◌≡◌, refl, ap, some, List, [], ◌∷◌, arith, length,
}
use low_level_programming.VectorBook.{Order, back, pop_back, set_back, fill_back}

-- all the shares of a book
abbrev pub shares : List Order → ℕ
shares [] = 0
shares (x ∷ xs) = x.size + shares xs

pub length-pop_back :
    (xs : List Order) (o : Order) → back xs ≡ some o → length (pop_back xs) + 1 ≡ length xs
length-pop_back [] o h = cc
length-pop_back (x ∷ []) o h = refl
length-pop_back (x ∷ y ∷ ys) o h = omega (arith, length-pop_back (y ∷ ys) o h)

pub length-set_back : (xs : List Order) (n : ℕ) → length (set_back xs n) ≡ length xs
length-set_back [] n = refl
length-set_back (x ∷ []) n = refl
length-set_back (x ∷ y ∷ ys) n = ap suc (length-set_back (y ∷ ys) n)

pub shares-pop_back :
    (xs : List Order) (o : Order) → back xs ≡ some o → shares (pop_back xs) + o.size ≡ shares xs
shares-pop_back [] o h = cc
shares-pop_back (x ∷ []) o h = ground arith
shares-pop_back (x ∷ y ∷ ys) o h = omega (arith, shares-pop_back (y ∷ ys) o h)

pub shares-set_back :
    (xs : List Order) (o : Order) (n : ℕ)
    → back xs ≡ some o
    → shares (set_back xs n) + o.size ≡ shares xs + n
shares-set_back [] o n h = cc
shares-set_back (x ∷ []) o n h = ground arith
shares-set_back (x ∷ y ∷ ys) o n h = omega (arith, shares-set_back (y ∷ ys) o n h)

-- A fill takes its shares out of the book.
pub shares-fill_back :
    (xs : List Order) (o : Order) (fill : ℕ)
    → back xs ≡ some o
    → fill ≤ o.size
    → shares (fill_back xs o fill) + fill ≡ shares xs
shares-fill_back xs o fill h le =
    ground (arith, shares-pop_back xs o h, shares-set_back xs o (o.size - fill) h)
