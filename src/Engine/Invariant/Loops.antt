-- ===== src/Engine/Invariant/Loops.antt =====
-- The matching loops beside matching by price and time.
use low_level_programming.Shared.{
  List, [], ◌∷◌, ◌∙◌, ◌⊎◌, ℕ, zero, suc, ◌+◌, ◌<◌, ◌≤◌, ◌≡◌, refl, inl, inr, Bool, true, false, not,
  arith, ltb, leb, ◌&&◌, is_none, Bool-cases, tests, lt→ltb, Outcome, ok, IsU32,
}
use native.Mathlib.Decide.{dec_lt}
use low_level_programming.Messages.Bytes.{Buffer}
use low_level_programming.Messages.EnterRequestView
use low_level_programming.Engine.State.{Engine}
use low_level_programming.Engine.Send.{Timespec}
use low_level_programming.Engine.Memory.{Book}
use low_level_programming.Engine.Fills.{
  Fill, filled, Trace, Trace-filled, BestAsk, BestBid, mail, send_fill, send_all, send_all-mail,
}
use low_level_programming.Engine.Match.{buy_round, sell_round, buy_loop, sell_loop}
use low_level_programming.Engine.Invariant.{IsEngine}
use low_level_programming.Engine.Invariant.Round.{Round, best_buy_entry}
use low_level_programming.Engine.Invariant.Rounds.{buy_round-Round, sell_round-Round}

-- A finished loop: the fills that it made, in order, what is left of the order, and why no more of it
-- matches.
pub record Done (size pool_size : ℕ) (clock : ℕ → Timespec) (account : ℕ) (order : Buffer)
    (Best : Book → ℕ → Type 0) (Allowed : ℕ → Type 0) (start : Book) (from : Engine) (q : ℕ)
    (Stops : Engine → Type 0) (out : Outcome (ℕ × Engine)) : Type 0 where
  pub q' : ℕ
  pub e' : Engine
  pub runs : out ≡ ok (q', e')
  pub stops : (q' ≡ 0) ⊎ Stops e'
  pub valid : IsEngine size pool_size e'
  pub fills : List Fill
  pub trace : Trace Best Allowed q start fills q' valid.book
  pub balance : q' + filled fills ≡ q
  pub sent : mail e' ≡ mail (send_all clock account order fills from)

module _ (size pool_size : ℕ) (clock : ℕ → Timespec) (account : ℕ) (order : Buffer) where
  abbrev pub NoAsk : Engine → Type 0
  NoAsk e = 0 < e.sell_orders → EnterRequestView.price order < e.best_sell_idx

  abbrev pub NoBid : (limit : ℕ) → Engine → Type 0
  NoBid limit e = 0 < e.buy_orders → e.best_buy_idx < limit

  abbrev pub AllowedAsk : ℕ → Type 0
  AllowedAsk price = price ≤ EnterRequestView.price order

  abbrev pub AllowedBid : (limit : ℕ) → ℕ → Type 0
  AllowedBid limit price = limit ≤ price

  -- A round before a finished loop.
  Done-next :
      {Best : Book → ℕ → Type 0} {Allowed : ℕ → Type 0} {Stops : Engine → Type 0} {start : Book}
      {i q before : ℕ} {from : Engine} {round rest : Outcome (ℕ × Engine)} {count : Engine → ℕ}
      (r : Round size pool_size clock account order Best start i from q before round count)
      → Allowed r.fill.price
      → Done size pool_size clock account order Best Allowed r.valid.book r.e' r.q' Stops rest
      → Done size pool_size clock account order Best Allowed start from q Stops rest
  Done-next {from = from} r allowed d = record {
    q' = d.q';
    e' = d.e';
    runs = d.runs;
    stops = d.stops;
    valid = d.valid;
    fills = r.fill ∷ d.fills;
    trace = Trace.next allowed r.step d.trace;
    balance = Trace-filled (Trace.next allowed r.step d.trace);
    sent =
        d.sent
        ∙ send_all-mail clock account order d.fills r.e' (send_fill clock account order r.fill from)
            r.sent;
  }

  abbrev asks_match : Engine → ℕ → Bool
  asks_match e q =
      ltb 0 e.sell_orders
      && ltb e.best_sell_idx size
      && leb e.best_sell_idx (EnterRequestView.price order)
      && ltb 0 q

  asks_match_go : (e : Engine) (q : ℕ) → asks_match e q ≡ true → (0 < e.sell_orders) × (0 < q)
  asks_match_go e q h = ground arith

  asks_match_stop :
      (e : Engine) (q : ℕ)
      → (0 < e.sell_orders → e.best_sell_idx < size)
      → asks_match e q ≡ false
      → (q ≡ 0) ⊎ NoAsk e
  asks_match_stop e q in_range h = elim (dec_lt 0 q) [
    | no none_left ↦ inl (omega arith)
    | yes pos ↦ inr (λ some_sell. ground (arith, in_range some_sell))
  ]

  -- On a valid state, with a 32-bit quantity and fuel for two rounds more than there are resting
  -- sell orders (any fuel but 0 when the quantity is 0), the matching loop of a buy order returns,
  -- in a valid state, with no more than the quantity left. What it did is a sequence of fills by
  -- price and time: each takes the oldest order of a level such that no lower level holds a sell
  -- order and the level holds sell orders only, at a price at most the limit, and takes that order
  -- out or leaves it with what the incoming order, then filled, did not take; the book afterwards
  -- is what these fills leave. The messages out, the clock and the match number are those of the
  -- messages of these fills, in order. It ends because the order is filled or because no resting
  -- sell order has a price within its limit.
  pub buy_loop-Done :
      (fuel : ℕ) (q : ℕ) (e : Engine) (valid : IsEngine size pool_size e)
      → IsU32 q
      → 0 < fuel
      → (q ≡ 0) ⊎ (e.sell_orders + 1 < fuel)
      → Done size pool_size clock account order BestAsk AllowedAsk valid.book e q NoAsk
          (buy_loop size clock fuel account order q e)
  unfolding buy_loop
  buy_loop-Done zero q e valid small pos enough = absurd (omega arith)
  buy_loop-Done (suc fuel) q e valid small pos enough = elim (Bool-cases (asks_match e q)) [
    | inr stop ↦ rw stop (record {
      q' = q;
      e' = e;
      runs = refl;
      stops = asks_match_stop e q valid.is_book.sides.sell_in stop;
      valid = valid;
      fills = [];
      trace = Trace.stop;
      balance = omega arith;
      sent = refl;
    })
    | inl go ↦
        let (some_sell, more) = asks_match_go e q go in
        let r : Round size pool_size clock account order BestAsk valid.book e.best_sell_idx e q
            e.sell_orders (buy_round size clock account order q e) (λ e'. e'.sell_orders) =
          buy_round-Round size pool_size clock account order e q valid some_sell more small in
        let d : Done size pool_size clock account order BestAsk AllowedAsk r.valid.book r.e' r.q'
            NoAsk (buy_loop size clock fuel account order r.q' r.e') =
          buy_loop-Done fuel r.q' r.e' r.valid (omega (arith, r.shrinks)) (omega arith)
            (ground (arith, r.progress)) in
        let allowed : AllowedAsk r.fill.price = ground (arith, r.price) in
        rw go (rw r.runs (Done-next r allowed d))
  ]

  abbrev bids_match : ℕ → Engine → ℕ → Bool
  bids_match limit e q =
      not (is_none (e.order_buffer e.best_buy_idx).head) && leb limit e.best_buy_idx && ltb 0 q

  bids_match_stop :
      (limit : ℕ) (e : Engine) (q : ℕ)
      → is_none (e.order_buffer e.best_buy_idx).head ≡ false
      → bids_match limit e q ≡ false
      → (q ≡ 0) ⊎ NoBid limit e
  bids_match_stop limit e q full h = elim (dec_lt 0 q) [
    | no none_left ↦ inl (omega arith)
    | yes pos ↦ inr (λ some_buy. ground arith)
  ]

  -- The level of the best bid is not empty while bids rest.
  best_buy_full :
      (e : Engine)
      → IsEngine size pool_size e
      → 0 < e.buy_orders
      → is_none (e.order_buffer e.best_buy_idx).head ≡ false
  best_buy_full e valid some_buy =
      let v = valid.is_book in
      let (x, xs, at, _) =
        best_buy_entry size pool_size clock account order e valid.book valid.fs v some_buy in
      rw ((v.memory.links e.best_buy_idx).head, at)

  -- On a valid state, with a 32-bit quantity and fuel for two rounds more than there are resting
  -- buy orders (any fuel but 0 when the quantity is 0), the matching loop of a sell order returns,
  -- in a valid state, with no more than the quantity left. What it did is a sequence of fills by
  -- price and time: each takes the oldest order of a level such that no higher level holds a buy
  -- order and the level holds buy orders only, at a price at least the limit, and takes that order
  -- out or leaves it with what the incoming order, then filled, did not take; the book afterwards
  -- is what these fills leave. The messages out, the clock and the match number are those of the
  -- messages of these fills, in order. It ends because the order is filled or because every resting
  -- buy order is below its limit.
  pub sell_loop-Done :
      (fuel limit : ℕ) (q : ℕ) (e : Engine) (valid : IsEngine size pool_size e)
      → IsU32 q
      → 0 < fuel
      → (q ≡ 0) ⊎ (e.buy_orders + 1 < fuel)
      → Done size pool_size clock account order
          (BestBid size)
          (AllowedBid limit)
          valid.book
          e
          q
          (NoBid limit)
          (sell_loop size clock fuel account order limit q e)
  unfolding sell_loop
  sell_loop-Done zero limit q e valid small pos enough = absurd (omega arith)
  sell_loop-Done (suc fuel) limit q e valid small pos enough =
      elim (Bool-cases (ltb 0 e.buy_orders)) [
        | inr none_buy ↦ rw none_buy (record {
          q' = q;
          e' = e;
          runs = refl;
          stops = inr (λ h. absurd (omega tests));
          valid = valid;
          fills = [];
          trace = Trace.stop;
          balance = omega arith;
          sent = refl;
        })
        | inl some_buy ↦
            let here = lt→ltb e.best_buy_idx size valid.is_book.sides.buy_in in
            let full = best_buy_full e valid (omega tests) in
            elim (Bool-cases (bids_match limit e q)) [
              | inr stop ↦
                  rw (some_buy, here, stop)
                    (record {
                      q' = q;
                      e' = e;
                      runs = refl;
                      stops = bids_match_stop limit e q full stop;
                      valid = valid;
                      fills = [];
                      trace = Trace.stop;
                      balance = omega arith;
                      sent = refl;
                    })
              | inl go ↦
                  let more : 0 < q = ground arith in
                  let r : Round size pool_size clock account order (BestBid size) valid.book
                      e.best_buy_idx e q e.buy_orders (sell_round size clock account order q e)
                      (λ e'. e'.buy_orders) =
                    sell_round-Round size pool_size clock account order e q valid (omega tests) more
                      small in
                  let d : Done size pool_size clock account order (BestBid size) (AllowedBid limit)
                      r.valid.book r.e' r.q' (NoBid limit)
                      (sell_loop size clock fuel account order limit r.q' r.e') =
                    sell_loop-Done fuel limit r.q' r.e' r.valid (omega (arith, r.shrinks))
                      (omega arith) (ground (arith, r.progress)) in
                  let allowed : AllowedBid limit r.fill.price = ground (arith, r.price) in
                  rw (some_buy, here, go) (rw r.runs (Done-next r allowed d))
            ]
      ]
