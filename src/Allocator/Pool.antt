-- ===== src/Allocator/Pool.antt =====
-- The pool against its contract: every slot is either free or handed out, and never both.
use low_level_programming.Shared.{
  ℕ, zero, suc, ◌+◌, ◌-◌, ◌<◌, ◌≡◌, refl, ap, ◌∙◌, true, false, none, some, List, [], ◌∷◌, arith,
  ◌==◌, ltb, if◌then◌else◌, update, update_self, length, ok,
}
use low_level_programming.Allocator.{Slot, free, Allocator, link_down, new, allocate, deallocate}
use low_level_programming.Allocator.FreeList.{has, first, FreeList, FreeList-update}

abbrev pub count : ℕ → List ℕ → ℕ
count x [] = 0
count x (y ∷ ys) = (if y == x then 1 else 0) + count x ys

-- drops the first occurrence
abbrev pub erase : ℕ → List ℕ → List ℕ
erase x [] = []
erase x (y ∷ ys) = if y == x then ys else y ∷ erase x ys

-- i, i + 1, … , n numbers
unfoldable pub range : ℕ → ℕ → List ℕ
range i zero = []
range i (suc n) = i ∷ range (suc i) n

has-count : (x : ℕ) (ys : List ℕ) → count x ys ≡ 0 → has x ys ≡ false
has-count x [] h = refl
has-count x (y ∷ ys) h = ground (arith, has-count x ys)

count-has : (x : ℕ) (ys : List ℕ) → has x ys ≡ false → count x ys ≡ 0
count-has x [] h = refl
count-has x (y ∷ ys) h = ground (arith, count-has x ys)

count-erase :
    (x p : ℕ) (ys : List ℕ)
    → count p ys ≡ 1
    → count x (erase p ys) + (if p == x then 1 else 0) ≡ count x ys
count-erase x p [] h = absurd (omega arith)
count-erase x p (y ∷ ys) h = ground (arith, count-erase x p ys)

length-erase : (p : ℕ) (ys : List ℕ) → count p ys ≡ 1 → suc (length (erase p ys)) ≡ length ys
length-erase p [] h = absurd (omega arith)
length-erase p (y ∷ ys) h = ground (arith, length-erase p ys)

length-range : (i n : ℕ) → length (range i n) ≡ n
unfolding range
length-range i zero = refl
length-range i (suc n) = ap suc (length-range (suc i) n)

count-range :
    (x i n : ℕ) → count x (range i n) ≡ (if ltb x i then 0 else if ltb x (i + n) then 1 else 0)
unfolding range
count-range x i zero = ground arith
count-range x i (suc n) = ground (arith, count-range x (suc i) n)

not-has-range : (c k : ℕ) → has c (range (suc c) k) ≡ false
not-has-range c k = has-count c (range (suc c) k) (rw (count-range c (suc c) k) (ground arith))

module _ {ℓ} {A : Type ℓ} where
  -- `xs` are the free slots in the order of the list, `live` those handed out.
  pub record IsPool (size : ℕ) (a : Allocator A) (xs live : List ℕ) : Type ℓ where
    pub head : a.free_head ≡ first xs
    pub links : FreeList a.slots xs
    pub each_once : (x : ℕ) → count x xs + count x live ≡ (if ltb x size then 1 else 0)
    pub total : length xs + length live ≡ size

  link_down-FreeList :
      (c k : ℕ) (m : ℕ → Slot A)
      → FreeList m (range c (suc k))
      → FreeList (link_down c m) (range 0 (c + suc k))
  unfolding link_down range
  link_down-FreeList zero k m f = let e : 0 + suc k ≡ suc k = omega arith in rw e f
  link_down-FreeList (suc c) k m f =
      let e : suc c + suc k ≡ c + suc (suc k) = omega arith in
      let out : has c (range (suc c) (suc k)) ≡ false = not-has-range c (suc k) in
      rw e (
        link_down-FreeList c (suc k) (update m c (free (some (suc c))))
          (update_self m c _, out, FreeList-update m (range (suc c) (suc k)) c _ out f))

abbrev last_link {ℓ} : (A : Type ℓ) → ℕ → ℕ → Slot A
last_link A k = update (λ _. free none) k (free none)

one_link {ℓ} : (A : Type ℓ) (k : ℕ) → FreeList (last_link A k) (range k 1)
unfolding range
one_link A k = (update_self {A = Slot A} (λ _. free none) k (free none), refl, tt)

built_links {ℓ} :
    (A : Type ℓ) (k : ℕ)
    → FreeList (link_down (suc k - 1) (last_link A (suc k - 1))) (range 0 (suc k))
built_links A k =
    let e : suc k - 1 ≡ k = omega arith in
    let e' : k + 1 ≡ suc k = omega arith in
    let one : FreeList (last_link A k) (range k 1) = one_link A k in
    let f : FreeList (link_down k (last_link A k)) (range 0 (k + 1)) =
      link_down-FreeList k 0 (last_link A k) one in
    rw e (rw e' at f)

module _ {ℓ} {A : Type ℓ} where
  -- When the mapping succeeds the constructor gives a pool of a positive size whose slots are all
  -- free, in order.
  pub new-IsPool :
      (size : ℕ)
      → 0 < size
      → (a : Allocator A) × (new true size ≡ ok a) × IsPool size a (range 0 size) []
  unfolding new range
  new-IsPool zero h = absurd (omega arith)
  new-IsPool (suc n) h = (
    _,
    refl,
    record {
      head = refl;
      links = built_links A n;
      each_once = λ x. ground (arith, count-range x 0 (suc n));
      total = omega (arith, length-range 0 (suc n));
    },
  )

  -- On a pool with a free slot allocate returns the first free slot, which is in range and handed
  -- out to nobody, writes no slot, and every slot is again free or handed out exactly once.
  pub allocate-IsPool :
      (size : ℕ) (a : Allocator A) (x : ℕ) (xs live : List ℕ)
      → IsPool size a (x ∷ xs) live
      → (a' : Allocator A) × (allocate a ≡ ok (some x, a'))
        × IsPool size a' xs (x ∷ live)
        × (x < size)
        × (count x live ≡ 0)
        × (a'.slots ≡ a.slots)
  unfolding allocate
  allocate-IsPool size a x xs live v = (
    record a { free_head = first xs },
    rw (v.head, v.links.0),
    record {
      head = refl;
      links = v.links.2;
      each_once = λ y. ground (arith, v.each_once y);
      total = omega (arith, v.total);
    },
    ground (arith, v.each_once x),
    ground (arith, v.each_once x),
    refl,
  )

  -- On a pool, giving back a slot that is handed out once succeeds, makes it the next slot to be
  -- handed out, and every slot is again free or handed out exactly once.
  pub deallocate-IsPool :
      (size : ℕ) (a : Allocator A) (p : ℕ) (xs live : List ℕ)
      → IsPool size a xs live
      → count p live ≡ 1
      → (a' : Allocator A) × (deallocate a (some p) ≡ ok a')
        × IsPool size a' (p ∷ xs) (erase p live)
  unfolding deallocate
  deallocate-IsPool size a p xs live v h = (
    record a { slots = update a.slots p (free a.free_head); free_head = some p },
    refl,
    record {
      head = refl;
      links = (
        update_self a.slots p _ ∙ ap free v.head,
        out,
        FreeList-update a.slots xs p _ out v.links,
      );
      each_once = λ y. omega (arith, v.each_once y, count-erase y p live h);
      total = omega (arith, v.total, length-erase p live h);
    },
  )
    where
      out : has p xs ≡ false
      out = has-count p xs (ground (arith, v.each_once p))
