-- ===== src/Arenas/MetaList/Layout.antt =====
-- The entries and the blocks that they describe.
use low_level_programming.Shared.{
  ◌⊎◌, ℕ, zero, suc, ◌+◌, ◌-◌, ◌*◌, ◌^◌, ◌<◌, ◌≤◌, ◌≡◌, refl, sym, ap, ◌∙◌, true, false, ◌&&◌, List,
  [], ◌∷◌, ◌++◌, ◌==◌, ltb, leb, add64, update, All, arith, Bool-cases, inl, inr, length,
  length-append, Outcome, ok, Option, none, some,
}
use low_level_programming.Arenas.MetaList.{search_entry}
use native.Mathlib.Nat.{mod-eq_of_lt}

-- The size of a block and whether it is allocated.
pub record Entry : Type 0 where
  pub bytes : ℕ
  pub allocated : ℕ

-- The entries of `es` from p to q, and their blocks from d to e.
abbrev pub Entries : (ℕ → ℕ) → (p d : ℕ) → List Entry → (q e : ℕ) → Type 0
Entries m p d [] q e = (p ≡ q) × (d ≡ e)
Entries m p d (x ∷ xs) q e =
    (m p ≡ x.bytes)
    × (m (p + 8) ≡ x.allocated)
    × (m (p + 16) ≡ d + 16)
    × (m (d + 8) ≡ p)
    × Entries m (p + 24) (d + 16 + x.bytes) xs q e

abbrev pub total : List Entry → ℕ
total [] = 0
total (x ∷ xs) = 16 + x.bytes + total xs

pub Entries-ends :
    (m : ℕ → ℕ) (p d q e : ℕ) (xs : List Entry)
    → Entries m p d xs q e
    → (p + 24 * length xs ≡ q) × (d + total xs ≡ e)
Entries-ends m p d q e [] l = (omega (arith, l.0), omega (arith, l.1))
Entries-ends m p d q e (x ∷ xs) l =
    let (a, b) = Entries-ends m (p + 24) (d + 16 + x.bytes) q e xs l.4 in (omega arith, omega arith)

pub Entries-frame :
    (m m' : ℕ → ℕ) (p d q e : ℕ) (xs : List Entry)
    → ((i : ℕ) → p ≤ i → i < q → m' i ≡ m i)
    → ((i : ℕ) → d ≤ i → i < e → m' i ≡ m i)
    → Entries m p d xs q e
    → Entries m' p d xs q e
Entries-frame m m' p d q e [] meta data_ l = l
Entries-frame m m' p d q e (x ∷ xs) meta data_ l =
    let (a, b) = Entries-ends m (p + 24) (d + 16 + x.bytes) q e xs l.4 in
    (
      meta p (omega arith) (omega arith) ∙ l.0,
      meta (p + 8) (omega arith) (omega arith) ∙ l.1,
      meta (p + 16) (omega arith) (omega arith) ∙ l.2,
      data_ (d + 8) (omega arith) (omega arith) ∙ l.3,
      Entries-frame m m' (p + 24) (d + 16 + x.bytes) q e xs (λ i lo hi. meta i (omega arith) hi)
          (λ i lo hi. data_ i (omega arith) hi) l.4,
    )

-- A write of the flag of a block, in a region apart from the blocks.
pub Entries-flag :
    (m : ℕ → ℕ) (p d q e : ℕ) (xs : List Entry) (x : Entry) (ys : List Entry) (flag : ℕ)
    → (q ≤ d) ⊎ (e ≤ p)
    → Entries m p d (xs ++ x ∷ ys) q e
    → Entries
        (update m (p + 24 * length xs + 8) flag)
        p
        d
        (xs ++ record x { allocated = flag } ∷ ys)
        q
        e
Entries-flag m p d q e [] x ys flag apart l =
    let (a, b) = Entries-ends m (p + 24) (d + 16 + x.bytes) q e ys l.4 in
    (
      ground (arith, l.0),
      ground arith,
      ground (arith, l.2),
      ground (arith, l.3, apart, a, b),
      Entries-frame m _ (p + 24) (d + 16 + x.bytes) q e ys (λ i lo hi. ground arith)
          (λ i lo hi. ground (arith, apart)) l.4,
    )
Entries-flag m p d q e (y ∷ xs) x ys flag apart l =
    let (a, b) = Entries-ends m (p + 24) (d + 16 + y.bytes) q e (xs ++ x ∷ ys) l.4 in
    let len : length (xs ++ x ∷ ys) ≡ length xs + suc (length ys) = length-append xs (x ∷ ys) in
    let apart' : (q ≤ d + 16 + y.bytes) ⊎ (e ≤ p + 24) = elim apart [
      | inl h ↦ inl (omega arith)
      | inr h ↦ inr (omega arith)
    ] in
    let rest = Entries-flag m (p + 24) (d + 16 + y.bytes) q e xs x ys flag apart' l.4 in
    let same : p + 24 + 24 * length xs + 8 ≡ p + 24 * length (y ∷ xs) + 8 = omega arith in
    (
      ground (arith, l.0),
      ground (arith, l.1),
      ground (arith, l.2),
      ground (arith, l.3, apart, a, b),
      rw same at rest,
    )

-- An entry at the end, and its block.
pub Entries-append :
    (m : ℕ → ℕ) (p d q e : ℕ) (xs : List Entry) (x : Entry)
    → Entries m p d xs q e
    → m q ≡ x.bytes
    → m (q + 8) ≡ x.allocated
    → m (q + 16) ≡ e + 16
    → m (e + 8) ≡ q
    → Entries m p d (xs ++ x ∷ []) (q + 24) (e + 16 + x.bytes)
Entries-append m p d q e [] x l h₀ h₁ h₂ h₃ = (
  ap m l.0 ∙ h₀,
  ap (λ t. m (t + 8)) l.0 ∙ h₁,
  ap (λ t. m (t + 16)) l.0 ∙ h₂ ∙ ap (λ t. t + 16) (sym l.1),
  ap (λ t. m (t + 8)) l.1 ∙ h₃ ∙ sym l.0,
  (omega (arith, l.0), omega (arith, l.1)),
)
Entries-append m p d q e (y ∷ xs) x l h₀ h₁ h₂ h₃ =
    (l.0, l.1, l.2, l.3, Entries-append m (p + 24) (d + 16 + y.bytes) q e xs x l.4 h₀ h₁ h₂ h₃)

abbrev pub Misfit : ℕ → Entry → Type 0
Misfit size x = ((x.allocated == 0) && leb size x.bytes) ≡ false

-- The first free block that is large enough, or none.
abbrev pub Search : (size p : ℕ) (es : List Entry) → Outcome (Option ℕ) → Type 0
Search size p es out =
    ((out ≡ ok none) × All (Misfit size) es)
    ⊎ ((xs : List Entry) × (x : Entry) × (ys : List Entry) × (es ≡ xs ++ x ∷ ys)
        × All (Misfit size) xs
        × (x.allocated ≡ 0)
        × (size ≤ x.bytes)
        × (out ≡ ok (some (p + 24 * length xs))))

pub search_entry-Search :
    (fuel size : ℕ) (m : ℕ → ℕ) (p d q e : ℕ) (es : List Entry)
    → Entries m p d es q e
    → q < 2 ^ 64
    → length es < fuel
    → Search size p es (search_entry fuel size m p q)
unfolding search_entry
search_entry-Search zero size m p d q e es l word enough = absurd (omega arith)
search_entry-Search (suc fuel) size m p d q e [] l word enough =
    let end : ltb p q ≡ false = ground (arith, l.0) in inl (rw (search_entry, end) refl, tt)
search_entry-Search (suc fuel) size m p d q e (x ∷ es) l word enough =
    let (a, b) = Entries-ends m (p + 24) (d + 16 + x.bytes) q e es l.4 in
    let more : ltb p q ≡ true = ground arith in
    let flag : add64 p 8 ≡ p + 8 = mod-eq_of_lt (omega arith) in
    let next : add64 p 24 ≡ p + 24 = mod-eq_of_lt (omega arith) in
    elim (Bool-cases ((x.allocated == 0) && leb size x.bytes)) [
      | inl fits ↦ inr (
        [],
        x,
        es,
        refl,
        tt,
        ground arith,
        ground arith,
        rw (search_entry, more, flag, l.0, l.1, fits) (ap (λ t. ok (some t)) (omega arith)),
      )
      | inr misfit ↦
          let run : search_entry (suc fuel) size m p q ≡ search_entry fuel size m (p + 24) q =
            rw (search_entry, more, flag, l.0, l.1, misfit, next) refl in
          elim (search_entry-Search fuel size m (p + 24) (d + 16 + x.bytes) q e es l.4 word
            (omega arith)) [
              | inl (found, all) ↦ inl (run ∙ found, (misfit, all))
              | inr (xs, y, ys, split, all, free, fits, found) ↦ inr (
                x ∷ xs,
                y,
                ys,
                ap (λ t. x ∷ t) split,
                (misfit, all),
                free,
                fits,
                run ∙ found ∙ ap (λ t. ok (some t)) (omega arith),
              )
            ]
    ]

-- What the last entry says of the end of the blocks.
pub Entries-last :
    (m : ℕ → ℕ) (p d q e : ℕ) (xs : List Entry)
    → Entries m p d xs q e
    → 0 < length xs
    → (p + 24 ≤ q) × (m (q - 24 + 16) + m (q - 24) ≡ e)
Entries-last m p d q e [] l some_in = absurd (omega arith)
Entries-last m p d q e (x ∷ []) l some_in =
    let here : q - 24 ≡ p = omega (arith, l.4.0) in
    (omega (arith, l.4.0), rw here (omega (arith, l.0, l.2, l.4.1)))
Entries-last m p d q e (x ∷ y ∷ xs) l some_in =
    let (a, b) = Entries-last m (p + 24) (d + 16 + x.bytes) q e (y ∷ xs) l.4 (omega arith) in
    (omega arith, b)
