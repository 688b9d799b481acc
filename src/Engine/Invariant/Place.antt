-- ===== src/Engine/Invariant/Place.antt =====
-- A new block at the end of its level: `place_block` on a valid state.
use low_level_programming.Shared.{
  ℕ, ◌<◌, ◌≡◌, refl, inl, inr, some, List, [], ◌∷◌, ◌++◌, arith, ◌==◌, Bool-cases, update, ==→eq,
  lt→ltb, ok, All, All-append,
}
use low_level_programming.Allocator.FreeList
use low_level_programming.Messages.Bytes.{Buffer, load_bytes}
use low_level_programming.Messages.EnterRequestView
use low_level_programming.Engine.State.{OrderList, Heap, Engine, order_key}
use low_level_programming.Engine.OrderList.{store}
use low_level_programming.Engine.OrderList.Chain.{Entry}
use low_level_programming.Engine.Memory.Append.{Memory-append}
use low_level_programming.Engine.Memory.{Book, Memory, not-has_of_free}
use low_level_programming.Engine.Match.{place_block}
use low_level_programming.Engine.Listed.{Listed, Listed-append, Listed-new}
use low_level_programming.Engine.Invariant.{IsOpen}

-- The block's copy of the request has its price and its side.
pub price_of_copy :
    (order : Buffer) → EnterRequestView.price (load_bytes order 0 47) ≡ EnterRequestView.price order
unfolding EnterRequestView.price load_bytes
price_of_copy order = refl

pub side_of_copy :
    (order : Buffer) → EnterRequestView.side (load_bytes order 0 47) ≡ EnterRequestView.side order
unfolding EnterRequestView.side load_bytes
side_of_copy order = refl

-- the resting order that a block at `p` stands for
abbrev pub resting : ℕ → ℕ → Buffer → (id q : ℕ) → Entry
resting p account order id q = record {
  ptr = p;
  raw = load_bytes order 0 47;
  curr_qty = q;
  id = id;
  key = order_key account (EnterRequestView.user_ref_num order);
}

-- the state in which `z` has joined level i
abbrev pub joined : ℕ → Entry → Heap → OrderList → Engine → Engine
joined i z m list e = record e {
  allocator = record e.allocator { slots = m };
  order_buffer = update e.order_buffer i list;
  order_blocks_map = update e.order_blocks_map z.key (some z.ptr);
}

module _ (size account : ℕ) (order : Buffer) (id q p : ℕ) (e : Engine) (book : Book)
    (fs : List ℕ) where
  abbrev level_of : ℕ
  level_of = EnterRequestView.price order

  abbrev z_new : Entry
  z_new = resting p account order id q

  pub place_block-Memory :
      Memory (record e.allocator { free_head = some p }) e.order_buffer book (p ∷ fs)
      → e.allocator.free_head ≡ FreeList.first fs
      → level_of < size
      → (m : Heap) × (list : OrderList) × (place_block size account order id q (some p) e
          ≡ ok (id, joined level_of z_new m list e))
        × Memory
            (joined level_of z_new m list e).allocator
            (joined level_of z_new m list e).order_buffer
            (update book level_of (book level_of ++ z_new ∷ []))
            fs
  unfolding place_block store
  place_block-Memory v head in_range =
      let held = v.unused.0 in
      let (m, list, run, v') = Memory-append level_of z_new v (price_of_copy order) in
      (m, list, rw (lt→ltb level_of size in_range, run), rw head v')

  -- The orders of the new book are open, and the keys still lead to blocks.
  pub IsOpen-join :
      IsOpen z_new
      → ((j : ℕ) → All IsOpen (book j))
      → (j : ℕ) → All IsOpen (update book level_of (book level_of ++ z_new ∷ []) j)
  IsOpen-join z o j = elim (Bool-cases (level_of == j)) [
    | inl here ↦ rw here (All-append IsOpen (book level_of) (z_new ∷ []) (o level_of) (z, tt))
    | inr there ↦ rw there (o j)
  ]

  pub mapped-join :
      Memory (record e.allocator { free_head = some p }) e.order_buffer book (p ∷ fs)
      → ((k r : ℕ) → e.order_blocks_map k ≡ some r → Listed book k r)
      → (k r : ℕ) → update e.order_blocks_map z_new.key (some p) k ≡ some r
      → Listed (update book level_of (book level_of ++ z_new ∷ [])) k r
  mapped-join v mapped k r h = elim (Bool-cases (z_new.key == k)) [
    | inl same ↦
        let at : p ≡ r = ground arith in
        let new : Listed (update book level_of (book level_of ++ z_new ∷ [])) z_new.key p =
          Listed-new book level_of z_new (not-has_of_free v level_of p (ground arith)) in
        rw (← at, ← ==→eq z_new.key k same) new
    | inr other ↦ Listed-append book level_of z_new k r (mapped k r (ground arith))
  ]
