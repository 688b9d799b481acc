-- ===== src/Engine/Invariant/Round.antt =====
-- One round of a matching loop: what it is to do, and the parts of it.
use low_level_programming.Shared.{
  ◌⊎◌, ℕ, ◌+◌, ◌<◌, ◌≤◌, ◌≡◌, refl, ap, inl, inr, true, false, none, some, List, [], ◌∷◌, arith,
  ltb, tests, Outcome, ok, sub32, IsU32,
}
use low_level_programming.Allocator.{Pointer}
use low_level_programming.Messages.Bytes.{Buffer}
use low_level_programming.Engine.State.{OrderBlock, Engine}
use low_level_programming.Engine.OrderList.Chain.{Entry, block_of, first}
use low_level_programming.Engine.Memory.{Book}
use low_level_programming.Engine.Send.{Timespec, send_fills, publish}
use low_level_programming.Engine.Fills.{Fill, FillStep, mail, send_fill}
use low_level_programming.Engine.Match.{
  fill_incoming, fill_sell, fill_buy, next_best_sell, next_best_buy,
}
use low_level_programming.Engine.Sides.Count.{is_buy, buys, sells}
use low_level_programming.Engine.Sides.Change.{best_sell_pure, best_buy_pure}
use low_level_programming.Engine.Invariant.Leave.{less_sell, less_buy, sell_leaves, buy_leaves}
use low_level_programming.Engine.Invariant.{core, IsBook, IsEngine}
use low_level_programming.Engine.Invariant.Remove.{removed}
use low_level_programming.Engine.Invariant.Resize.{resize-IsBook}

-- The messages of a fill leave the book as it is.
pub core-send_fills :
    (clock : ℕ → Timespec) (account : ℕ) (order : Buffer) (b : OrderBlock) (qty price : ℕ)
    (e : Engine)
    → core (send_fills clock account order b qty price e) ≡ core e
unfolding send_fills publish
core-send_fills clock account order b qty price e = refl

-- They are those of the fill, whatever the links of the block.
pub mail-send_fills :
    (clock : ℕ → Timespec) (account : ℕ) (order : Buffer) (x : Entry) (p n : Pointer)
    (qty qty' price : ℕ) (e : Engine)
    → qty ≡ qty'
    → mail (send_fills clock account order (block_of x p n) qty price e)
      ≡ mail (send_fill clock account order (record { entry = x; price = price; qty = qty' }) e)
unfolding send_fills publish
mail-send_fills clock account order x p n qty qty' price e same =
    ap (λ k. mail (send_fill clock account order (record { entry = x; price = price; qty = k }) e))
      same

module _ (size pool_size : ℕ) (clock : ℕ → Timespec) (account : ℕ) (order : Buffer) where
  -- What a round of the matching loop does: it takes from the resting order and from what is left
  -- of the incoming one the smaller of the two sizes, sends the two messages of that fill, and either
  -- fills the incoming order or takes an order out of the book. The resting order is the oldest of
  -- level i, the best one.
  pub record Round (Best : Book → ℕ → Type 0) (start : Book) (i : ℕ) (from : Engine) (q : ℕ)
      (before : ℕ) (out : Outcome (ℕ × Engine)) (count : Engine → ℕ) : Type 0 where
    pub q' : ℕ
    pub e' : Engine
    pub runs : out ≡ ok (q', e')
    pub shrinks : q' ≤ q
    pub progress : (q' ≡ 0) ⊎ (count e' + 1 ≡ before)
    pub valid : IsEngine size pool_size e'
    pub fill : Fill
    pub step : FillStep Best q start fill q' valid.book
    pub price : fill.price ≡ i
    pub sent : mail e' ≡ mail (send_fill clock account order fill from)

  -- The best sell order of a book that has one.
  pub best_sell_entry :
      (e : Engine) (book : Book) (fs : List ℕ)
      → IsBook size pool_size (core e) book fs
      → 0 < e.sell_orders
      → (x : Entry) × (xs : List Entry) × (book e.best_sell_idx ≡ x ∷ xs) × (is_buy x ≡ false)
  best_sell_entry e book fs v some_sell =
      go (book e.best_sell_idx) refl (best_sell_pure v.sides some_sell)
        (v.sides.sell_best some_sell)
    where
      go :
          (zs : List Entry)
          → book e.best_sell_idx ≡ zs
          → buys zs ≡ 0
          → 0 < sells zs
          → (x : Entry) × (xs : List Entry) × (book e.best_sell_idx ≡ x ∷ xs) × (is_buy x ≡ false)
      go [] at none_buy more = absurd (omega arith)
      go (x ∷ xs) at none_buy more = (x, xs, at, ground arith)

  pub best_buy_entry :
      (e : Engine) (book : Book) (fs : List ℕ)
      → IsBook size pool_size (core e) book fs
      → 0 < e.buy_orders
      → (x : Entry) × (xs : List Entry) × (book e.best_buy_idx ≡ x ∷ xs) × (is_buy x ≡ true)
  best_buy_entry e book fs v some_buy =
      go (book e.best_buy_idx) refl (best_buy_pure v.sides some_buy) (v.sides.buy_best some_buy)
    where
      go :
          (zs : List Entry)
          → book e.best_buy_idx ≡ zs
          → sells zs ≡ 0
          → 0 < buys zs
          → (x : Entry) × (xs : List Entry) × (book e.best_buy_idx ≡ x ∷ xs) × (is_buy x ≡ true)
      go [] at none_sell more = absurd (omega arith)
      go (x ∷ xs) at none_sell more = (x, xs, at, ground arith)

  -- The incoming order is filled by the first order of a level, which stays with a smaller size.
  pub partly_filled :
      {Best : Book → ℕ → Type 0} (from e : Engine) (q i : ℕ) (x : Entry) (xs : List Entry)
      (book : Book) (fs : List ℕ) (before : ℕ) (count : Engine → ℕ)
      → mail e
        ≡ mail (send_fill clock account order (record { entry = x; price = i; qty = q }) from)
      → Best book i
      → IsBook size pool_size (core e) book fs
      → i < size
      → book i ≡ x ∷ xs
      → 0 < q
      → ltb q x.curr_qty ≡ true
      → Round Best book i from q before
          (fill_incoming (some x.ptr) (block_of x none (first none xs)) q e)
          count
  unfolding fill_incoming
  partly_filled from e q i x xs book fs before count sent best v in_range at pos part =
      let opened = (rw at at (v.open_orders i)).0 in
      let left : ℕ = sub32 x.curr_qty q in
      let (_, v') =
        resize-IsBook size pool_size book fs e i left [] x xs v in_range at (omega tests)
          (omega arith) in
      record {
        q' = 0;
        e' = _;
        runs = refl;
        shrinks = omega arith;
        progress = inl refl;
        valid = record { book = _; fs = _; is_book = v' };
        fill = _;
        step = FillStep.part best at pos (omega tests) (omega tests);
        price = refl;
        sent = sent;
      }

  -- The first sell order of the best level is filled, and leaves.
  pub sell_filled :
      {Best : Book → ℕ → Type 0} (from e : Engine) (q i : ℕ) (x : Entry) (xs : List Entry)
      (book : Book) (fs : List ℕ) (before : ℕ)
      → mail e
        ≡ mail
            (send_fill clock account order (record { entry = x; price = i; qty = x.curr_qty }) from)
      → Best book i
      → IsBook size pool_size (core e) book fs
      → i < size
      → book i ≡ x ∷ xs
      → is_buy x ≡ false
      → IsU32 q
      → ltb q x.curr_qty ≡ false
      → e.sell_orders ≡ before
      → Round Best book i from q before
          (fill_sell size i (some x.ptr) (block_of x none (first none xs)) q e)
          (λ e'. e'.sell_orders)
  unfolding fill_sell next_best_sell
  sell_filled from e q i x xs book fs before sent best v in_range at sell small whole count =
      let (m, list, run, mem, some_sell, w, v', _, _) =
        sell_leaves e v i [] x xs in_range at sell in
      record {
        q' = sub32 q x.curr_qty;
        e' = next_best_sell size (removed i x.ptr x.key m list (less_sell e));
        runs = rw run;
        shrinks = omega tests;
        progress = inr (omega (arith, v.room, v.pool_small));
        valid = record { book = _; fs = _; is_book = v' };
        fill = _;
        step = FillStep.whole best at (omega tests);
        price = refl;
        sent = sent;
      }

  pub buy_filled :
      {Best : Book → ℕ → Type 0} (from e : Engine) (q i : ℕ) (x : Entry) (xs : List Entry)
      (book : Book) (fs : List ℕ) (before : ℕ)
      → mail e
        ≡ mail
            (send_fill clock account order (record { entry = x; price = i; qty = x.curr_qty }) from)
      → Best book i
      → IsBook size pool_size (core e) book fs
      → i < size
      → book i ≡ x ∷ xs
      → is_buy x ≡ true
      → IsU32 q
      → ltb q x.curr_qty ≡ false
      → e.buy_orders ≡ before
      → Round Best book i from q before
          (fill_buy size i (some x.ptr) (block_of x none (first none xs)) q e)
          (λ e'. e'.buy_orders)
  unfolding fill_buy next_best_buy
  buy_filled from e q i x xs book fs before sent best v in_range at buy small whole count =
      let (m, list, run, mem, some_buy, w, v', _, _) = buy_leaves e v i [] x xs in_range at buy in
      record {
        q' = sub32 q x.curr_qty;
        e' = next_best_buy (removed i x.ptr x.key m list (less_buy e));
        runs = rw run;
        shrinks = omega tests;
        progress = inr (omega (arith, v.room, v.pool_small));
        valid = record { book = _; fs = _; is_book = v' };
        fill = _;
        step = FillStep.whole best at (omega tests);
        price = refl;
        sent = sent;
      }
