-- ===== src/Engine/Invariant/Reach.antt =====
-- The states that `run` reaches from a new engine.
use low_level_programming.Shared.{
  ℕ, ◌^◌, ◌<◌, ◌≡◌, refl, sym, ◌∙◌, ap, true, false, none, List, [], ◌∷◌, arith, Outcome, ok, ◌>>=◌,
  All, length, is_none,
}
use low_level_programming.Allocator.{Pointer}
use low_level_programming.Allocator.Pool.{range, new-IsPool}
use low_level_programming.Messages.Decode.{
  UouchMessage, enter_request, cancel_request, accept_response, cancelled_response,
  cancel_reject_response, executed_response, decode,
}
use low_level_programming.Engine.State.{OrderBlock, InboundMessage, Engine, start, new}
use low_level_programming.Engine.OrderList.Chain.{Entry, first}
use low_level_programming.Engine.Sides.Count.{buys, sells, total-zero, buys-add-sells}
use low_level_programming.Engine.Send.{Timespec}
use low_level_programming.Engine.Process.{dispatch, process, run}
use low_level_programming.Engine.Invariant.{IsEngine}
use low_level_programming.Engine.Invariant.Insert.{IsOrder, insert_order-Inserted}
use low_level_programming.Engine.Invariant.Cancel.{cancel_order-Returned}

-- With a mapped region the constructor gives an empty book over a pool of free blocks.
pub new-IsEngine :
    (size pool_size : ℕ)
    → 0 < size
    → size < 2 ^ 64
    → 0 < pool_size
    → pool_size < 2 ^ 64
    → (e : Engine) × (new true size pool_size ≡ ok e) × IsEngine size pool_size e
unfolding new start
new-IsEngine size pool_size some_level size_small some_block pool_small =
    let (pool, made, v) = new-IsPool {A = OrderBlock} pool_size some_block in
    (
      start size pool,
      rw made refl,
      record {
        book = λ _. [];
        fs = range 0 pool_size;
        is_book = record {
          memory = record {
            links = λ i. record { head = refl; tail = refl; chain = tt };
            priced = λ i. tt;
            head = v.head;
            unused = v.links;
          };
          sides = record {
            buy_count = omega (arith, total-zero buys size (λ _. []) (λ i _. refl));
            sell_count = omega (arith, total-zero sells size (λ _. []) (λ i _. refl));
            buy_top = λ i h k. refl;
            sell_top = λ i h. refl;
            buy_best = λ h. absurd (omega arith);
            sell_best = λ h. absurd (omega arith);
            no_buy = λ h. refl;
            no_sell = λ h. refl;
            sell_in = λ h. absurd (omega arith);
            buy_in = some_level;
            uncrossed = λ h k. absurd (omega arith);
          };
          beyond = λ i h. refl;
          open_orders = λ i. tt;
          room = omega (arith, v.total);
          mapped = λ k p h. absurd cc;
          size_small = size_small;
          pool_small = pool_small;
        };
      },
    )

full_head : {p : Pointer} (xs : List Entry) → p ≡ first none xs → 0 < length xs → is_none p ≡ false
full_head [] h pos = absurd (omega arith)
full_head (x ∷ xs) h pos = rw h refl

abbrev from_ok : Engine → Outcome Engine → Engine
from_ok d (ok e) = e
from_ok d _ = d

ok_inj : {a b : Engine} → ok a ≡ ok b → a ≡ b
ok_inj {a} h = ap (λ o. from_ok a o) h

-- a message that the inbound side may pass on: it decodes, and an order in it is well formed
abbrev pub IsRequest : (size : ℕ) → UouchMessage → Type 0
IsRequest size (enter_request order) = IsOrder size order
IsRequest size _ = Unit

abbrev pub IsInbound : (size : ℕ) → InboundMessage → Type 0
IsInbound size msg = (m : UouchMessage) × (decode msg.bytes ≡ ok m) × IsRequest size m

module _ (size pool_size : ℕ) (clock : ℕ → Timespec) where
  dispatch-IsEngine :
      (account : ℕ) (m : UouchMessage) (e : Engine)
      → IsRequest size m
      → IsEngine size pool_size e
      → (e' : Engine) × (dispatch size clock account m e ≡ ok e') × IsEngine size pool_size e'
  unfolding dispatch
  dispatch-IsEngine account (enter_request order) e good valid =
      let r = insert_order-Inserted size pool_size clock account order e valid good in
      (r.e', rw r.runs refl, r.valid)
  dispatch-IsEngine account (cancel_request cancel) e good valid =
      let r = cancel_order-Returned size pool_size clock account cancel e valid in
      (r.e', rw r.runs refl, r.valid)
  dispatch-IsEngine account (accept_response _) e good valid = (e, refl, valid)
  dispatch-IsEngine account (cancelled_response _) e good valid = (e, refl, valid)
  dispatch-IsEngine account (cancel_reject_response _) e good valid = (e, refl, valid)
  dispatch-IsEngine account (executed_response _) e good valid = (e, refl, valid)

  -- On a valid state an inbound message that decodes, with a known side and a market or in-range
  -- price if it is an order, is processed with no fault, and the state is valid again.
  pub process-IsEngine :
      (msg : InboundMessage) (e : Engine)
      → IsInbound size msg
      → IsEngine size pool_size e
      → (e' : Engine) × (process size clock msg e ≡ ok e') × IsEngine size pool_size e'
  unfolding process
  process-IsEngine msg e (m, decoded, good) valid =
      rw decoded (dispatch-IsEngine msg.account m e good valid)

  run_from :
      (msgs : List InboundMessage) (e : Engine)
      → All (IsInbound size) msgs
      → IsEngine size pool_size e
      → (e' : Engine) × (run size clock msgs e ≡ ok e') × IsEngine size pool_size e'
  unfolding run
  run_from [] e good valid = (e, refl, valid)
  run_from (msg ∷ rest) e good valid =
      let (e₁, step, valid₁) = process-IsEngine msg e good.0 valid in
      rw step (run_from rest e₁ good.1 valid₁)

  -- From a new engine over a mapped pool, with a positive number of levels and of blocks, each
  -- below 2^64, every sequence of inbound messages that decode, with a known side and a market or
  -- in-range price in each order, is processed to its end with no fault, no exception and no loop
  -- out of fuel, and the state is valid: levels, list links, free list, counters, best indices and
  -- key map agree.
  pub run-IsEngine :
      (msgs : List InboundMessage)
      → 0 < size
      → size < 2 ^ 64
      → 0 < pool_size
      → pool_size < 2 ^ 64
      → All (IsInbound size) msgs
      → (e : Engine) × ((new true size pool_size >>= run size clock msgs) ≡ ok e)
        × IsEngine size pool_size e
  run-IsEngine msgs some_level size_small some_block pool_small good =
      let (e₀, made, valid₀) =
        new-IsEngine size pool_size some_level size_small some_block pool_small in
      rw made (run_from msgs e₀ good valid₀)

  -- After every such run, when orders of both sides rest, the best bid is below the best ask, the
  -- best ask is a level, and both best indices lead to levels that hold an order.
  pub run-uncrossed :
      (msgs : List InboundMessage) (e : Engine)
      → 0 < size
      → size < 2 ^ 64
      → 0 < pool_size
      → pool_size < 2 ^ 64
      → All (IsInbound size) msgs
      → (new true size pool_size >>= run size clock msgs) ≡ ok e
      → 0 < e.buy_orders
      → 0 < e.sell_orders
      → (e.best_buy_idx < e.best_sell_idx)
        × (e.best_sell_idx < size)
        × (is_none (e.order_buffer e.best_buy_idx).head ≡ false)
        × (is_none (e.order_buffer e.best_sell_idx).head ≡ false)
  run-uncrossed msgs e some_level size_small some_block pool_small good ran some_buy some_sell =
      let (e', ran', valid') = run-IsEngine msgs some_level size_small some_block pool_small good in
      let same : e' ≡ e = ok_inj (sym ran' ∙ ran) in
      let valid : IsEngine size pool_size e = rw same at valid' in
      let v = valid.is_book in
      (
        v.sides.uncrossed some_buy some_sell,
        v.sides.sell_in some_sell,
        full_head (valid.book e.best_buy_idx) (v.memory.links e.best_buy_idx).head
            (omega (arith, v.sides.buy_best some_buy, buys-add-sells (valid.book e.best_buy_idx))),
        full_head (valid.book e.best_sell_idx) (v.memory.links e.best_sell_idx).head (
            omega
              (arith, v.sides.sell_best some_sell, buys-add-sells (valid.book e.best_sell_idx))),
      )
