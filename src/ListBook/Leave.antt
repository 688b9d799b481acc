-- ===== src/ListBook/Leave.antt =====
-- Orders that leave a side, or lose shares.
use low_level_programming.Shared.{
  ℕ, ◌-◌, ◌≡◌, refl, sym, ◌∙◌, ap, false, none, some, List, [], ◌∷◌, ◌++◌, arith, ◌==◌, ==→eq,
  if◌then◌else◌, update, update_self, Bool-cases, inl, inr, ok,
}
use low_level_programming.ListBook.{
  Pointer, Heap, Side, load, set_block, delete_block, remove, cancel_block, reduce, remove_filled,
}
use low_level_programming.ListBook.Chain.{Entry, has, find, first, block_of, Chain-frame, load-at}
use low_level_programming.ListBook.Links.{IsLinked}
use low_level_programming.ListBook.Links.Unlink.{unlink-IsLinked}
use low_level_programming.ListBook.Sides.{IsSide, find-insert, Distinct-drop}

-- the side once the order of y is out of its index and its block is deleted
erased-IsSide :
    (s : Side) (m : Heap) (hd tl : Pointer) (xs : List Entry) (y : Entry) (ys : List Entry)
    → IsSide s (xs ++ y ∷ ys)
    → IsLinked (record s { blocks = m; head = hd; tail = tl }) (xs ++ ys)
    → has y.ptr (xs ++ ys) ≡ false
    → IsSide
        (record s {
          blocks = update m y.ptr none;
          head = hd;
          tail = tl;
          index = update s.index y.order.id none;
        })
        (xs ++ ys)
erased-IsSide s m hd tl xs y ys v l out =
    let (distinct, gone) = Distinct-drop xs y ys v.distinct in
    record {
      linked = record {
        head = l.head;
        tail = l.tail;
        chain = Chain-frame m _ none (xs ++ ys) none (λ q h. ground arith) l.chain;
        below = l.below;
      };
      index = λ id. elim (Bool-cases (y.order.id == id)) [
        | inl same ↦ rw same (sym gone ∙ ap (λ i. find i (xs ++ ys)) (==→eq y.order.id id same))
        | inr other ↦ rw other (
            v.index id
            ∙ find-insert id xs y ys gone
            ∙ ap (λ t. if t then some y.ptr else find id (xs ++ ys)) other)
      ];
      distinct = distinct;
    }

-- On a side that stands for xs, y, ys, the block of y is unlinked, taken out of the index and
-- deleted with no fault, and the side stands for xs, ys.
pub remove-IsSide :
    (s : Side) (xs : List Entry) (y : Entry) (ys : List Entry)
    → IsSide s (xs ++ y ∷ ys)
    → (s' : Side) × (remove (some y.ptr) s ≡ ok s') × IsSide s' (xs ++ ys)
unfolding remove delete_block
remove-IsSide s xs y ys v =
    let (m, hd, tl, run, l, at, out) = unlink-IsLinked s xs y ys v.linked in
    (
      _,
      rw (run, load-at m y.ptr (block_of y none none) at) refl,
      erased-IsSide s m hd tl xs y ys v l out,
    )

pub cancel_block-IsSide :
    (s : Side) (xs : List Entry) (y : Entry) (ys : List Entry)
    → IsSide s (xs ++ y ∷ ys)
    → (s' : Side) × (cancel_block y.order.id (some y.ptr) s ≡ ok s') × IsSide s' (xs ++ ys)
unfolding cancel_block delete_block
cancel_block-IsSide s xs y ys v =
    let (m, hd, tl, run, l, at, out) = unlink-IsLinked s xs y ys v.linked in
    (
      _,
      rw (run, load-at m y.ptr (block_of y none none) at) refl,
      erased-IsSide s m hd tl xs y ys v l out,
    )

abbrev pub less_by : ℕ → Entry → Entry
less_by fill x = record x { order = record x.order { size = x.order.size - fill } }

-- The block of the head is read through.
pub head-load :
    (s : Side) (x : Entry) (xs : List Entry)
    → IsSide s (x ∷ xs)
    → load s.blocks (some x.ptr) ≡ ok (block_of x none (first none xs))
head-load s x xs v = load-at s.blocks x.ptr _ (v.linked.chain.0)

pub reduce-IsSide :
    (s : Side) (fill : ℕ) (x : Entry) (xs : List Entry)
    → IsSide s (x ∷ xs)
    → (s' : Side) × (reduce (some x.ptr) fill s ≡ ok s') × IsSide s' (less_by fill x ∷ xs)
unfolding reduce set_block
reduce-IsSide s fill x xs v =
    let l = v.linked in
    (
      record s {
        blocks = update s.blocks x.ptr (some (block_of (less_by fill x) none (first none xs)));
      },
      rw (head-load s x xs v) refl,
      record {
        linked = record {
          head = l.head;
          tail = l.tail;
          chain = (
            update_self s.blocks x.ptr _,
            l.chain.1,
            Chain-frame s.blocks _ (some x.ptr) xs none (λ q h. ground (arith, l.chain.1))
                l.chain.2,
          );
          below = l.below;
        };
        index = v.index;
        distinct = v.distinct;
      },
    )

abbrev pub without_filled : Entry → List Entry → List Entry
without_filled x xs = if x.order.size == 0 then xs else x ∷ xs

pub remove_filled-IsSide :
    (s : Side) (x : Entry) (xs : List Entry)
    → IsSide s (x ∷ xs)
    → (s' : Side) × (remove_filled (some x.ptr) s ≡ ok s') × IsSide s' (without_filled x xs)
unfolding remove_filled
remove_filled-IsSide s x xs v = elim (Bool-cases (x.order.size == 0)) [
  | inl empty ↦
      let (s', run, v') = remove-IsSide s [] x xs v in
      (s', rw (head-load s x xs v, empty) run, rw empty v')
  | inr left ↦ (s, rw (head-load s x xs v, left) refl, rw left v)
]
