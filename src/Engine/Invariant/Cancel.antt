-- ===== src/Engine/Invariant/Cancel.antt =====
-- `cancel_order` returns on every valid state, and keeps the invariant.
use low_level_programming.Shared.{
  ℕ, ◌<◌, ◌≡◌, refl, inl, inr, none, some, List, [], ◌∷◌, ◌++◌, arith, ltb, leb, Bool-cases,
  Option-cases, tests, ok, IsU32, All-middle, sub32,
}
use native.Mathlib.Decide.{dec_lt}
use low_level_programming.Messages.Bytes.{Buffer}
use low_level_programming.Messages.CancelRequestView
use low_level_programming.Engine.State.{OrderBlock, Engine, order_key}
use low_level_programming.Engine.OrderList.{store}
use low_level_programming.Engine.OrderList.Laws.{load-used}
use low_level_programming.Engine.OrderList.Chain.{Entry, block_of, first, last}
use low_level_programming.Engine.Memory.{Book, price_of}
use low_level_programming.Engine.Listed.{find-split}
use low_level_programming.Engine.Send.{Timespec, send_cancel_rejected, publish}
use low_level_programming.Engine.Cancel.{reduce_order, delete_order, cancel_found, cancel_order}
use low_level_programming.Engine.Invariant.{IsOpen, core, IsBook, IsEngine}
use low_level_programming.Engine.Invariant.Resize.{resize-IsBook}
use low_level_programming.Engine.Invariant.Refresh.{refreshed}
use low_level_programming.Engine.Invariant.Rested.{Returned, cancelled}

module _ (size pool_size : ℕ) (clock : ℕ → Timespec) (account : ℕ) where
  core-send_cancel_rejected :
      (urn : ℕ) (e : Engine) → core (send_cancel_rejected clock account urn e) ≡ core e
  unfolding send_cancel_rejected publish
  core-send_cancel_rejected urn e = refl

  rejected :
      (urn : ℕ) (e : Engine)
      → IsEngine size pool_size e
      → Returned size pool_size (ok (0, send_cancel_rejected clock account urn e))
  rejected urn e valid = record {
    result = 0;
    e' = _;
    runs = refl;
    valid = record {
      book = valid.book;
      fs = valid.fs;
      is_book = rw (core-send_cancel_rejected urn e) valid.is_book;
    };
  }

  module _ (urn : ℕ) (e : Engine) {book : Book} {fs : List ℕ}
      (v : IsBook size pool_size (core e) book fs) (i : ℕ) (xs : List Entry) (y : Entry)
      (ys : List Entry) (in_range : i < size) (at_i : book i ≡ xs ++ y ∷ ys) where
    abbrev block : OrderBlock
    block = block_of y (last none xs) (first none ys)

    reduce_order-Returned :
        (q c : ℕ)
        → 0 < q
        → q < y.curr_qty
        → IsU32 y.curr_qty
        → Returned size pool_size (reduce_order size clock account urn q c (some y.ptr) block e)
    unfolding reduce_order store
    reduce_order-Returned q c pos less small =
        let (_, v') =
          resize-IsBook size pool_size book fs e i q xs y ys v in_range at_i pos (omega arith) in
        cancelled size pool_size clock account [] c urn c b'U' _ _ fs v'

    delete_order-Returned :
        (c : ℕ)
        → y.key ≡ order_key account urn
        → Returned size pool_size (delete_order size clock account urn c (some y.ptr) block e)
    unfolding delete_order
    delete_order-Returned c at_key =
        let (m, list, run, v') = refreshed e v i xs y ys in_range at_i in
        let priced : price_of y ≡ i =
          All-middle (λ x. price_of x ≡ i) xs y ys (rw at_i at (v.memory.priced i)) in
        rw (← at_key, priced, run) (cancelled size pool_size clock account [] c urn c b'U' _ _ _ v')

    cancel_found-Returned :
        (q : ℕ)
        → y.key ≡ order_key account urn
        → Returned size pool_size (cancel_found size clock account urn q (some y.ptr) e)
    unfolding cancel_found
    cancel_found-Returned q at_key =
        let (holds, _) =
          resize-IsBook size pool_size book fs e i 1 xs y ys v in_range at_i (omega arith)
            (omega arith) in
        let opened : IsOpen y = All-middle IsOpen xs y ys (rw at_i at (v.open_orders i)) in
        elim (Bool-cases (leb y.curr_qty q)) [
          | inl more ↦
              rw (load-used e.allocator.slots y.ptr block holds, more)
                (rejected urn e (record { book = book; fs = fs; is_book = v }))
          | inr less ↦ elim (Bool-cases (ltb 0 q)) [
            | inl some_left ↦
                rw (load-used e.allocator.slots y.ptr block holds, less, some_left)
                  (reduce_order-Returned q (sub32 y.curr_qty q) (omega tests) (omega tests)
                    opened.1)
            | inr none_left ↦
                rw (load-used e.allocator.slots y.ptr block holds, less, none_left)
                  (delete_order-Returned (sub32 y.curr_qty q) at_key)
          ]
        ]

  -- On a valid state every cancel request is served with no fault, whether the key is unknown, the
  -- size is not smaller, the order is reduced or it is removed, and the state is valid again.
  pub cancel_order-Returned :
      (cancel : Buffer) (e : Engine)
      → IsEngine size pool_size e
      → Returned size pool_size (cancel_order size clock account cancel e)
  unfolding cancel_order
  cancel_order-Returned cancel e valid =
      let urn : ℕ = CancelRequestView.user_ref_num cancel in
      let v = valid.is_book in
      elim (Option-cases (e.order_blocks_map (order_key account urn))) [
        | inl missing ↦ rw missing (rejected urn e valid)
        | inr (p, at_p) ↦
            let (i, x, found, at_key) = v.mapped (order_key account urn) p at_p in
            let (xs, ys, at_i, ptr, _) = find-split p (valid.book i) x found in
            let in_range : i < size = elim (dec_lt i size) [
              | yes h ↦ h
              | no far ↦ let hollow : valid.book i ≡ [] = v.beyond i (omega arith) in absurd cc
            ] in
            rw (at_p, ← ptr)
              (cancel_found-Returned urn e v i xs x ys in_range at_i
                (CancelRequestView.quantity cancel) at_key)
      ]
