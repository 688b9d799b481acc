-- ===== src/Arenas/ImplicitList/Layout.antt =====
-- The blocks that lie between two addresses.
use low_level_programming.Shared.{
  ◌⊎◌, ℕ, zero, suc, ◌+◌, ◌*◌, ◌^◌, ◌<◌, ◌≤◌, ◌≡◌, refl, ap, ◌∙◌, Bool, true, false, ◌&&◌, List, [],
  ◌∷◌, ◌++◌, ◌==◌, ltb, leb, add64, sub64, update, All, arith, Bool-cases, inl, inr, length,
  Outcome, ok,
}
use low_level_programming.Arenas.ImplicitList.{Header, parse_header, search_block}
use native.Mathlib.Nat.{mod-eq_of_lt}

abbrev pub Layout : (ℕ → ℕ) → (p : ℕ) → List Header → (q : ℕ) → Type 0
Layout m p [] q = p ≡ q
Layout m p (b ∷ bs) q =
    (m p ≡ b.block_size) × (m (p + 8) ≡ b.allocated) × Layout m (p + 16 + b.block_size) bs q

-- the bytes of some blocks with their headers
abbrev pub total : List Header → ℕ
total [] = 0
total (b ∷ bs) = 16 + b.block_size + total bs

pub Layout-total : (m : ℕ → ℕ) (p q : ℕ) (bs : List Header) → Layout m p bs q → p + total bs ≡ q
Layout-total m p q [] l = omega arith
Layout-total m p q (b ∷ bs) l = omega (arith, Layout-total m (p + 16 + b.block_size) q bs l.2)

pub length-total : (bs : List Header) → 16 * length bs ≤ total bs
length-total [] = omega arith
length-total (b ∷ bs) = omega (arith, length-total bs)

-- Only what lies between the addresses matters.
pub Layout-frame :
    (m m' : ℕ → ℕ) (p q : ℕ) (bs : List Header)
    → ((i : ℕ) → p ≤ i → i < q → m' i ≡ m i)
    → Layout m p bs q
    → Layout m' p bs q
Layout-frame m m' p q [] same l = l
Layout-frame m m' p q (b ∷ bs) same l =
    let end : p + 16 + b.block_size + total bs ≡ q =
      Layout-total m (p + 16 + b.block_size) q bs l.2 in
    (
      same p (omega arith) (omega arith) ∙ l.0,
      same (p + 8) (omega arith) (omega arith) ∙ l.1,
      Layout-frame m m' (p + 16 + b.block_size) q bs (λ i lo hi. same i (omega arith) hi) l.2,
    )

-- A write of the flag of a block.
pub Layout-flag :
    (m : ℕ → ℕ) (p q : ℕ) (xs : List Header) (b : Header) (ys : List Header) (flag : ℕ)
    → Layout m p (xs ++ b ∷ ys) q
    → Layout (update m (p + total xs + 8) flag) p (xs ++ record b { allocated = flag } ∷ ys) q
Layout-flag m p q [] b ys flag l = (
  ground (arith, l.0),
  ground arith,
  Layout-frame m _ (p + 16 + b.block_size) q ys (λ i lo hi. ground arith) l.2,
)
Layout-flag m p q (x ∷ xs) b ys flag l =
    let rest = Layout-flag m (p + 16 + x.block_size) q xs b ys flag l.2 in
    let same : p + 16 + x.block_size + total xs + 8 ≡ p + (16 + x.block_size + total xs) + 8 =
      omega arith in
    (ground (arith, l.0), ground (arith, l.1), rw same at rest)

-- A block at the end.
pub Layout-append :
    (m : ℕ → ℕ) (p q : ℕ) (bs : List Header) (b : Header)
    → Layout m p bs q
    → m q ≡ b.block_size
    → m (q + 8) ≡ b.allocated
    → Layout m p (bs ++ b ∷ []) (q + 16 + b.block_size)
Layout-append m p q [] b l size flag = (rw l size, rw l flag, omega arith)
Layout-append m p q (x ∷ bs) b l size flag =
    (l.0, l.1, Layout-append m (p + 16 + x.block_size) q bs b l.2 size flag)

-- neither free nor large enough, or not both
abbrev pub Misfit : ℕ → Header → Type 0
Misfit size b = ((b.allocated == 0) && leb size b.block_size) ≡ false

-- The first free block that is large enough, or the end.
abbrev pub Search : (size p q : ℕ) (bs : List Header) → Outcome (Bool × ℕ) → Type 0
Search size p q bs out =
    ((out ≡ ok (false, q)) × All (Misfit size) bs)
    ⊎ ((xs : List Header) × (b : Header) × (ys : List Header) × (bs ≡ xs ++ b ∷ ys)
        × All (Misfit size) xs
        × (b.allocated ≡ 0)
        × (size ≤ b.block_size)
        × (out ≡ ok (true, p + total xs)))

pub search_block-Search :
    (fuel size : ℕ) (m : ℕ → ℕ) (p q : ℕ) (bs : List Header)
    → Layout m p bs q
    → q < 2 ^ 64
    → length bs < fuel
    → Search size p q bs (search_block fuel size m p q)
unfolding search_block
search_block-Search zero size m p q bs l word enough = absurd (omega arith)
search_block-Search (suc fuel) size m p q [] l word enough =
    let end : ltb p q ≡ false = ground arith in
    inl (rw (search_block, end) (ap (λ t. ok (false, t)) l), tt)
search_block-Search (suc fuel) size m p q (b ∷ bs) l word enough =
    let end : p + 16 + b.block_size + total bs ≡ q =
      Layout-total m (p + 16 + b.block_size) q bs l.2 in
    let more : ltb p q ≡ true = ground arith in
    let payload : add64 p 16 ≡ p + 16 = mod-eq_of_lt (omega arith) in
    let size_at : sub64 (p + 16) 16 ≡ p = omega arith in
    let flag_at : sub64 (p + 16) 8 ≡ p + 8 = omega arith in
    let next : add64 (p + 16) b.block_size ≡ p + 16 + b.block_size = mod-eq_of_lt (omega arith) in
    elim (Bool-cases ((b.allocated == 0) && leb size b.block_size)) [
      | inl fits ↦ inr (
        [],
        b,
        bs,
        refl,
        tt,
        ground arith,
        ground arith,
        rw (search_block, more, payload, parse_header, size_at, flag_at, l.0, l.1, fits)
            (ap (λ t. ok (true, t)) (omega arith)),
      )
      | inr misfit ↦
          let run : search_block (suc fuel) size m p q
              ≡ search_block fuel size m (p + 16 + b.block_size) q =
            rw (search_block, more, payload, parse_header, size_at, flag_at, l.0, l.1, misfit, next)
              refl in
          elim (search_block-Search fuel size m (p + 16 + b.block_size) q bs l.2 word
            (omega arith)) [
              | inl (e, all) ↦ inl (run ∙ e, (misfit, all))
              | inr (xs, c, ys, split, all, free, fits, e) ↦ inr (
                b ∷ xs,
                c,
                ys,
                ap (λ t. b ∷ t) split,
                (misfit, all),
                free,
                fits,
                run ∙ e ∙ ap (λ t. ok (true, t)) (omega arith),
              )
            ]
    ]
