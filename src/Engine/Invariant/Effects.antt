-- ===== src/Engine/Invariant/Effects.antt =====
-- What a cancel of a live order does: the shares that it returns, the book, and the message; and a
-- cancel that is refused.
use low_level_programming.Shared.{
  ℕ, ◌-◌, ◌<◌, ◌≤◌, ◌≡◌, refl, ◌∙◌, ap, inl, inr, Bool, true, false, none, some, List, [], ◌∷◌,
  ◌++◌, arith, ltb, leb, if◌then◌else◌, Bool-cases, Option-cases, All, tests, Outcome, ok, IsU32,
  All-middle, update, sub32,
}
use native.Mathlib.Decide.{dec_lt}
use low_level_programming.Messages.Bytes.{Buffer}
use low_level_programming.Messages.CancelRequestView
use low_level_programming.Engine.State.{OrderBlock, OutboundMessage, Engine, order_key}
use low_level_programming.Engine.OrderList.{store}
use low_level_programming.Engine.OrderList.Laws.{load-used}
use low_level_programming.Engine.OrderList.Chain.{Entry, block_of, first, last}
use low_level_programming.Engine.Listed.{find-split}
use low_level_programming.Engine.Memory.{Book, price_of}
use low_level_programming.Engine.Fills.{outbound}
use low_level_programming.Engine.Send.{
  Timespec, timestamp_of, timestamp, cancelled_bytes, send_cancelled, cancel_rejected_bytes,
  send_cancel_rejected, publish,
}
use low_level_programming.Engine.Match.{next_best_sell, next_best_buy}
use low_level_programming.Engine.Cancel.{
  refresh_best, count_out, reduce_order, delete_order, cancel_found, cancel_order,
}
use low_level_programming.Engine.Sides.Count.{is_buy}
use low_level_programming.Engine.Invariant.{IsOpen, core, IsBook}
use low_level_programming.Engine.Invariant.Remove.{removed}
use low_level_programming.Engine.Invariant.Resize.{resize-IsBook}
use low_level_programming.Engine.Invariant.Refresh.{refreshed, refresh_buy, refresh_sell}

-- the fields that a removal does not touch
abbrev log : Engine → List OutboundMessage × ℕ
log e = (e.outgoing, e.clock_reads)

log-next_best_sell : (size : ℕ) (e : Engine) → log (next_best_sell size e) ≡ log e
unfolding next_best_sell
log-next_best_sell size e = refl

log-next_best_buy : (e : Engine) → log (next_best_buy e) ≡ log e
unfolding next_best_buy
log-next_best_buy e = refl

log-refresh_best :
    (size : ℕ) (buy : Bool) (i : ℕ) (e : Engine)
    → log (refresh_best size buy i (count_out buy e)) ≡ log e
log-refresh_best size true i e = elim (refresh_buy size i (count_out true e)) [
  | inl scan ↦ ap log scan ∙ log-next_best_buy (count_out true e)
  | inr (_, stay) ↦ ap log stay
]
log-refresh_best size false i e = elim (refresh_sell size i (count_out false e)) [
  | inl scan ↦ ap log scan ∙ log-next_best_sell size (count_out false e)
  | inr (_, stay) ↦ ap log stay
]

module _ (size pool_size : ℕ) (clock : ℕ → Timespec) (account urn : ℕ) where
  -- `c` shares are cancelled: the book is `book'`, and the client is told once, at the time that the
  -- clock shows.
  pub record Cancelled (c : ℕ) (e : Engine) (book' : Book) (out : Outcome (ℕ × Engine))
      : Type 0 where
    pub e' : Engine
    pub fs' : List ℕ
    pub runs : out ≡ ok (c, e')
    pub is_book : IsBook size pool_size (core e') book' fs'
    pub sent :
        e'.outgoing
        ≡ e.outgoing
          ++ (outbound account (cancelled_bytes (timestamp_of (clock e.clock_reads)) urn c b'U')
              ∷ [])

  told :
      (c : ℕ) (s e : Engine) (book' : Book) (fs' : List ℕ)
      → log s ≡ log e
      → IsBook size pool_size (core s) book' fs'
      → Cancelled c e book' (ok (c, send_cancelled clock account urn c b'U' s))
  unfolding send_cancelled timestamp publish
  told c s e book' fs' same v = record {
    e' = _;
    fs' = fs';
    runs = refl;
    is_book = v;
    sent =
        ap
          (λ (l : List OutboundMessage × ℕ).
            l.0 ++ (outbound account (cancelled_bytes (timestamp_of (clock l.1)) urn c b'U') ∷ []))
          same;
  }

  module _ (e : Engine) {book : Book} {fs : List ℕ} (v : IsBook size pool_size (core e) book fs)
      (i : ℕ) (xs : List Entry) (y : Entry) (ys : List Entry) (in_range : i < size)
      (at_i : book i ≡ xs ++ y ∷ ys) where
    abbrev block_y : OrderBlock
    block_y = block_of y (last none xs) (first none ys)

    -- the level of the order afterwards: it keeps its place, or leaves
    abbrev pub cancelled_level : ℕ → List Entry
    cancelled_level q = if ltb 0 q then xs ++ record y { curr_qty = q } ∷ ys else xs ++ ys

    reduced :
        (q c : ℕ)
        → 0 < q
        → q < y.curr_qty
        → IsU32 y.curr_qty
        → Cancelled c e
            (update book i (xs ++ record y { curr_qty = q } ∷ ys))
            (reduce_order size clock account urn q c (some y.ptr) block_y e)
    unfolding reduce_order store
    reduced q c pos less small =
        let (_, v') =
          resize-IsBook size pool_size book fs e i q xs y ys v in_range at_i pos (omega arith) in
        told c _ e _ fs refl v'

    deleted :
        (c : ℕ)
        → y.key ≡ order_key account urn
        → Cancelled c e
            (update book i (xs ++ ys))
            (delete_order size clock account urn c (some y.ptr) block_y e)
    unfolding delete_order
    deleted c at_key =
        let (m, list, run, v') = refreshed e v i xs y ys in_range at_i in
        let priced : price_of y ≡ i =
          All-middle (λ x. price_of x ≡ i) xs y ys (rw at_i at (v.memory.priced i)) in
        rw (← at_key, priced, run)
          (told c _ e _ _ (log-refresh_best size (is_buy y) i (removed i y.ptr y.key m list e)) v')

    -- On a valid state, a cancel request whose key leads to a resting order of that key, with a new
    -- size below the order's, returns the difference of the sizes; the order keeps its place in its
    -- level with the new size, or leaves the level when the new size is 0, no other level changes,
    -- the state is valid, and one more message is out, a cancelled response of that many shares
    -- with reason U at the time of the clock.
    pub cancel_order-Cancelled :
        (cancel : Buffer)
        → CancelRequestView.user_ref_num cancel ≡ urn
        → e.order_blocks_map (order_key account urn) ≡ some y.ptr
        → y.key ≡ order_key account urn
        → CancelRequestView.quantity cancel < y.curr_qty
        → Cancelled
            (y.curr_qty - CancelRequestView.quantity cancel)
            e
            (update book i (cancelled_level (CancelRequestView.quantity cancel)))
            (cancel_order size clock account cancel e)
    unfolding cancel_order cancel_found
    cancel_order-Cancelled cancel at_urn mapped at_key less =
        let q : ℕ = CancelRequestView.quantity cancel in
        let (holds, _) =
          resize-IsBook size pool_size book fs e i 1 xs y ys v in_range at_i (omega arith)
            (omega arith) in
        let opened : IsOpen y = All-middle IsOpen xs y ys (rw at_i at (v.open_orders i)) in
        let small : leb y.curr_qty q ≡ false = ground arith in
        let shares : sub32 y.curr_qty q ≡ y.curr_qty - q = omega (arith, opened.1) in
        rw (at_urn, mapped, load-used e.allocator.slots y.ptr block_y holds, small, shares)
          (elim (Bool-cases (ltb 0 q)) [
            | inl some_left ↦ rw some_left (reduced q (y.curr_qty - q) (omega tests) less opened.1)
            | inr none_left ↦ rw none_left (deleted (y.curr_qty - q) at_key)
          ])

  -- A refused cancel: nothing but the message.
  pub record Refused (e : Engine) (out : Outcome (ℕ × Engine)) : Type 0 where
    pub e' : Engine
    pub runs : out ≡ ok (0, e')
    pub same : core e' ≡ core e
    pub sent :
        e'.outgoing
        ≡ e.outgoing
          ++ (outbound account (cancel_rejected_bytes (timestamp_of (clock e.clock_reads)) urn)
              ∷ [])

  refused : (e : Engine) → Refused e (ok (0, send_cancel_rejected clock account urn e))
  unfolding send_cancel_rejected timestamp publish
  refused e = record { e' = _; runs = refl; same = refl; sent = refl }

  -- On a valid state, a cancel request such that no resting order of its key, if there is one, is
  -- larger than the new size returns 0 with no fault, changes nothing of the book, and one more
  -- message is out, a cancel reject at the time of the clock.
  pub cancel_order-Refused :
      (cancel : Buffer) (e : Engine) {book : Book} {fs : List ℕ}
      → IsBook size pool_size (core e) book fs
      → CancelRequestView.user_ref_num cancel ≡ urn
      → ((i : ℕ)
          → All
              (λ x. x.key ≡ order_key account urn → x.curr_qty ≤ CancelRequestView.quantity cancel)
              (book i))
      → Refused e (cancel_order size clock account cancel e)
  unfolding cancel_order cancel_found
  cancel_order-Refused cancel e {book} {fs} v at_urn none_larger =
      let q : ℕ = CancelRequestView.quantity cancel in
      elim (Option-cases (e.order_blocks_map (order_key account urn))) [
        | inl missing ↦ rw (at_urn, missing) (refused e)
        | inr (p, at_p) ↦
            let (i, x, found, at_key) = v.mapped (order_key account urn) p at_p in
            let (xs, ys, at_i, ptr, _) = find-split p (book i) x found in
            let in_range : i < size = elim (dec_lt i size) [
              | yes h ↦ h
              | no far ↦ let hollow : book i ≡ [] = v.beyond i (omega arith) in absurd cc
            ] in
            let (holds, _) =
              resize-IsBook size pool_size book fs e i 1 xs x ys v in_range at_i (omega arith)
                (omega arith) in
            let at_most : x.curr_qty ≤ q =
              All-middle (λ o. o.key ≡ order_key account urn → o.curr_qty ≤ q) xs x ys
                (rw at_i at (none_larger i)) at_key in
            let more : leb x.curr_qty q ≡ true = ground arith in
            rw
              (
                at_urn,
                at_p,
                ← ptr,
                load-used e.allocator.slots x.ptr (block_of x (last none xs) (first none ys)) holds,
                more,
              )
              (refused e)
      ]
