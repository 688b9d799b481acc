-- ===== src/Engine/Invariant/Insert.antt =====
-- `insert_order` on a valid state: what it matches, what comes to rest, and the messages.
use low_level_programming.Shared.{
  ap, ◌∙◌, subst, ◌++◌, [], ◌∷◌, add64, ◌⊎◌, ℕ, ◌+◌, ◌^◌, ◌<◌, ◌≤◌, ◌≡◌, Bool, true, false, List,
  Outcome, ok, refl, inl, inr, arith, ◌==◌, ltb, if◌then◌else◌, Bool-cases, tests, IsU32,
}
use low_level_programming.Messages.Bytes.{Buffer, bswap, from_le, to_le, load_be32}
use low_level_programming.Messages.EnterRequestView
use low_level_programming.Engine.State.{market_price, Engine}
use low_level_programming.Engine.Memory.{Book}
use low_level_programming.Engine.Fills.{
  outbound, Fill, Trace, BestAsk, BestBid, Mail, mail, send_all, send_all-counter,
}
use low_level_programming.Engine.Send.{
  Timespec, timestamp, timestamp_of, accepted_bytes, send_accepted, publish,
}
use low_level_programming.Engine.Match.{accept, insert_buy_order, insert_sell_order, insert_order}
use low_level_programming.Engine.Invariant.{core, IsBook, IsEngine}
use low_level_programming.Engine.Invariant.Loops.{Done, buy_loop-Done, sell_loop-Done}
use low_level_programming.Engine.Invariant.Rested.{Rests, Rests-counter, Rested, none_left}
use low_level_programming.Engine.Invariant.Rest.{rest_buy-Rested, rest_sell-Rested}

-- Whatever the bytes, the size that is read fits in 32 bits.
bswap_bound : (v : ℕ) → bswap 4 v < 2 ^ 32
unfolding bswap from_le to_le
bswap_bound v = omega arith

pub quantity_bound : (order : Buffer) → IsU32 (EnterRequestView.quantity order)
unfolding EnterRequestView.quantity load_be32
quantity_bound order = bswap_bound _

-- an order that the inbound side may pass on: a known side, and a price that is a level or market
pub record IsOrder (size : ℕ) (order : Buffer) : Type 0 where
  pub side : (EnterRequestView.side order ≡ b'B') ⊎ (EnterRequestView.side order ≡ b'S')
  pub priced : (EnterRequestView.price order ≡ market_price) ⊎ (EnterRequestView.price order < size)

abbrev pub sell_limit : Buffer → ℕ
sell_limit order =
    if EnterRequestView.price order == market_price then 0 else EnterRequestView.price order

-- By the side of the order, `true` for a buy order: the level that is matched first, the prices
-- within its limit, and why no more of it matches.
abbrev pub BestFor : ℕ → Bool → Book → ℕ → Type 0
BestFor size true = BestAsk
BestFor size false = BestBid size

abbrev pub AllowedFor : Buffer → Bool → ℕ → Type 0
AllowedFor order true price = price ≤ EnterRequestView.price order
AllowedFor order false price = sell_limit order ≤ price

abbrev pub StopsFor : Buffer → Bool → Engine → Type 0
StopsFor order true e = 0 < e.sell_orders → EnterRequestView.price order < e.best_sell_idx
StopsFor order false e = 0 < e.buy_orders → e.best_buy_idx < sell_limit order

-- The order is accepted: it takes the next identifier, and one message is out, at the time of the clock.
abbrev pub accepted : (ℕ → Timespec) → (account : ℕ) → Buffer → Engine → Engine
accepted clock account order e = record e {
  counter = add64 e.counter 1;
  clock_reads = e.clock_reads + 1;
  outgoing =
      e.outgoing
      ++ (outbound account
            (accepted_bytes (timestamp_of (clock e.clock_reads)) order (add64 e.counter 1))
          ∷ []);
}

-- An insertion: it is accepted under the next identifier, then matched by price and time, to the
-- state `matched`, and then `left` shares come to rest or are cancelled.
pub record Inserted (size pool_size : ℕ) (clock : ℕ → Timespec) (account : ℕ) (order : Buffer)
    (buys : Bool) (e : Engine) (book : Book) (out : Outcome (ℕ × Engine)) : Type 0 where
  pub result : ℕ
  pub e' : Engine
  pub runs : out ≡ ok (result, e')
  pub valid : IsEngine size pool_size e'
  pub fills : List Fill
  pub left : ℕ
  pub matched : Engine
  pub matched_valid : IsEngine size pool_size matched
  pub trace :
      Trace
        (BestFor size buys)
        (AllowedFor order buys)
        (EnterRequestView.quantity order)
        book
        fills
        left
        matched_valid.book
  pub sent :
      mail matched ≡ mail (send_all clock account order fills (accepted clock account order e))
  pub counted : e'.counter ≡ add64 e.counter 1
  pub ends : (left ≡ 0) ⊎ StopsFor order buys matched
  pub rest :
      Rests clock account order
        (add64 e.counter 1)
        left
        matched
        e'
        matched_valid.fs
        matched_valid.book
        valid.book
        result

module _ (size pool_size : ℕ) (clock : ℕ → Timespec) (account : ℕ) (order : Buffer) where
  core-accept : (e : Engine) → core (accept size clock account order e) ≡ core e
  unfolding accept send_accepted publish
  core-accept e = refl

  accept_lem : (e : Engine) → accept size clock account order e ≡ accepted clock account order e
  unfolding accept send_accepted publish timestamp
  accept_lem e = refl

  accept-IsBook :
      (e : Engine) (valid : IsEngine size pool_size e)
      → IsBook size pool_size (core (accept size clock account order e)) valid.book valid.fs
  accept-IsBook e valid = rw (core-accept e) valid.is_book

  -- The loop, and what becomes of what it left.
  Done-Inserted :
      {buys : Bool} {e : Engine} {book : Book} {loop out : Outcome (ℕ × Engine)}
      (d : Done size pool_size clock account order
        (BestFor size buys)
        (AllowedFor order buys)
        book
        (accept size clock account order e)
        (EnterRequestView.quantity order)
        (StopsFor order buys)
        loop)
      → Rested size pool_size clock account order
          (accept size clock account order e).counter
          d.q'
          d.e'
          d.valid.fs
          d.valid.book
          out
      → Inserted size pool_size clock account order buys e book out
  Done-Inserted {e = e} d r =
      let sent : mail d.e'
          ≡ mail (send_all clock account order d.fills (accepted clock account order e)) =
        d.sent
        ∙ ap (λ (start : Engine). mail (send_all clock account order d.fills start))
            (accept_lem e) in
      record {
        result = r.result;
        e' = r.e';
        runs = r.runs;
        valid = r.valid;
        fills = d.fills;
        left = d.q';
        matched = d.e';
        matched_valid = d.valid;
        trace = d.trace;
        sent = sent;
        counted =
            Rests-counter size pool_size clock account order r.rest
            ∙ ap Mail.counter sent
            ∙ send_all-counter clock account order d.fills (accepted clock account order e);
        ends = d.stops;
        rest =
            subst
              (λ (id : ℕ).
                Rests clock account order id d.q' d.e' r.e' d.valid.fs d.valid.book r.valid.book
                  r.result)
              (ap Engine.counter (accept_lem e)) r.rest;
      }

  insert_buy_order-Inserted :
      (e : Engine) (valid : IsEngine size pool_size e)
      → IsOrder size order
      → EnterRequestView.side order ≡ b'B'
      → Inserted size pool_size clock account order true e valid.book
          (insert_buy_order size clock account order e)
  unfolding insert_buy_order
  insert_buy_order-Inserted e valid good side =
      let e₀ = accept size clock account order e in
      let v₀ : IsEngine size pool_size e₀ = record {
        book = valid.book;
        fs = valid.fs;
        is_book = accept-IsBook e valid;
      } in
      let d =
        buy_loop-Done size pool_size clock account order (e₀.sell_orders + 2)
          (EnterRequestView.quantity order) e₀ v₀ (quantity_bound order) (omega arith)
          (inr (omega arith)) in
      let small : IsU32 d.q' = omega (arith, d.balance, quantity_bound order) in
      elim (Bool-cases (ltb 0 d.q')) [
        | inr filled ↦ rw d.runs (
            rw filled (
              Done-Inserted d (record {
                result = 0;
                e' = d.e';
                runs = refl;
                valid = d.valid;
                rest = none_left (omega tests) refl refl refl;
              })))
        | inl left ↦ rw d.runs (
            rw left (
              Done-Inserted d (
                rest_buy-Rested size pool_size clock account order e₀.counter d.q' d.e' d.valid
                  (omega tests) small side good.priced (λ some_sell. ground (arith, d.stops)))))
      ]

  insert_sell_order-Inserted :
      (e : Engine) (valid : IsEngine size pool_size e)
      → IsOrder size order
      → EnterRequestView.side order ≡ b'S'
      → Inserted size pool_size clock account order false e valid.book
          (insert_sell_order size clock account order e)
  unfolding insert_sell_order
  insert_sell_order-Inserted e valid good side =
      let e₀ = accept size clock account order e in
      let v₀ : IsEngine size pool_size e₀ = record {
        book = valid.book;
        fs = valid.fs;
        is_book = accept-IsBook e valid;
      } in
      let d =
        sell_loop-Done size pool_size clock account order (e₀.buy_orders + 2) (sell_limit order)
          (EnterRequestView.quantity order) e₀ v₀ (quantity_bound order) (omega arith)
          (inr (omega arith)) in
      let small : IsU32 d.q' = omega (arith, d.balance, quantity_bound order) in
      elim (Bool-cases (ltb 0 d.q')) [
        | inr filled ↦ rw d.runs (
            rw filled (
              Done-Inserted d (record {
                result = 0;
                e' = d.e';
                runs = refl;
                valid = d.valid;
                rest = none_left (omega tests) refl refl refl;
              })))
        | inl left ↦ rw d.runs (
            rw left (
              Done-Inserted d (
                rest_sell-Rested size pool_size clock account order e₀.counter d.q' d.e' d.valid
                  (omega tests) small side good.priced (λ some_buy. ground (arith, d.stops)))))
      ]

  -- On a valid state an order of a known side with a market or in-range price is inserted with no
  -- fault and within the fuel, and the state is valid again. What was done is: the order is
  -- accepted under the next identifier, the counter of identifiers being one higher modulo 2^64
  -- afterwards, with one acceptance message that carries that identifier and the time of the clock;
  -- then it is matched by a sequence of fills by price and time, each of the oldest order of the
  -- best level of the other side at a price within the limit, the messages out being that
  -- acceptance and those of the fills, in order, with nothing between, until the order is filled or
  -- no resting order of the other side is within its limit; then what is left of a market order is
  -- cancelled with reason I, and of another with reason Z if no block is free, with the message of
  -- that cancellation, or it joins the end of the level of its price in the first free block, under
  -- its identifier, with no further message, and its key leads to that block. No other order
  -- changes, and the result is the identifier if the order rests and 0 if not.
  pub insert_order-Inserted :
      (e : Engine) (valid : IsEngine size pool_size e)
      → IsOrder size order
      → Inserted size pool_size clock account order
          (EnterRequestView.side order == b'B')
          e
          valid.book
          (insert_order size clock account order e)
  unfolding insert_order
  insert_order-Inserted e valid good = elim good.side [
    | inl buy ↦ rw buy (insert_buy_order-Inserted e valid good buy)
    | inr sell ↦ rw sell (insert_sell_order-Inserted e valid good sell)
  ]
