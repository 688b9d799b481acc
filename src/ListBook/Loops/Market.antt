-- ===== src/ListBook/Loops/Market.antt =====
-- The loop of the market orders does the same on both books.
use low_level_programming.Shared.{
  ℕ, zero, suc, ◌+◌, ◌-◌, ◌<◌, ◌≤◌, ◌≡◌, refl, Bool, List, [], ◌∷◌, arith, Bool-cases, inl, inr,
  ltb, leb, length, Outcome, ok,
}
use low_level_programming.VectorBook as Vector
use low_level_programming.VectorBook.{Order}
use low_level_programming.ListBook.{Side, market_loop}
use low_level_programming.ListBook.Chain.{Entry}
use low_level_programming.ListBook.Leave.{head-load, less_by}
use low_level_programming.ListBook.Priority.{IsPriority}
use low_level_programming.ListBook.Agree.{
  Agrees, vector, back-vector, pop_back-vector, set_back-vector, reduce-Agrees, remove-Agrees,
}

module _ {greater less : Order → Order → Bool} (pr : IsPriority greater less) (c : ℕ) where
  -- The list book's loop on the side and the vector book's on the vector.
  pub record MarketSame (out : Outcome (ℕ × Side)) (out' : Outcome (ℕ × List Order)) (most : ℕ)
      : Type 0 where
    pub last_id : ℕ
    pub s' : Side
    pub xs' : List Entry
    pub runs : out ≡ ok (last_id, s')
    pub runs' : out' ≡ ok (last_id, vector xs')
    pub agrees : Agrees greater c s' xs'
    pub shorter : length xs' ≤ most

  market_loop-done :
      (fuel fuel' last_id : ℕ) (s : Side) (xs : List Entry)
      → Agrees greater c s xs
      → 0 < fuel
      → 0 < fuel'
      → MarketSame
          (market_loop fuel 0 last_id s)
          (Vector.market_loop fuel' 0 last_id (vector xs))
          (length xs)
  unfolding market_loop Vector.market_loop
  market_loop-done zero fuel' last_id s xs a p p' = absurd (omega arith)
  market_loop-done (suc fuel) zero last_id s xs a p p' = absurd (omega arith)
  market_loop-done (suc fuel) (suc fuel') last_id s [] a p p' = record {
    last_id = last_id;
    s' = s;
    xs' = [];
    runs = simp (market_loop, a.side.linked.head);
    runs' = refl;
    agrees = a;
    shorter = omega arith;
  }
  market_loop-done (suc fuel) (suc fuel') last_id s (x ∷ xs) a p p' = record {
    last_id = last_id;
    s' = s;
    xs' = x ∷ xs;
    runs = simp (market_loop, a.side.linked.head, head-load s x xs a.side);
    runs' = rw (Vector.market_loop, back-vector x xs) refl;
    agrees = a;
    shorter = omega arith;
  }

  pub market_loop-Same :
      (fuel fuel' remaining last_id : ℕ) (s : Side) (xs : List Entry)
      → Agrees greater c s xs
      → length xs + 1 < fuel
      → length xs + 1 < fuel'
      → MarketSame
          (market_loop fuel remaining last_id s)
          (Vector.market_loop fuel' remaining last_id (vector xs))
          (length xs)
  unfolding market_loop Vector.market_loop
  market_loop-Same zero fuel' remaining last_id s xs a p p' = absurd (omega arith)
  market_loop-Same (suc fuel) zero remaining last_id s xs a p p' = absurd (omega arith)
  market_loop-Same (suc fuel) (suc fuel') remaining last_id s [] a p p' = record {
    last_id = last_id;
    s' = s;
    xs' = [];
    runs = simp (market_loop, a.side.linked.head);
    runs' = refl;
    agrees = a;
    shorter = omega arith;
  }
  market_loop-Same (suc fuel) (suc fuel') remaining last_id s (x ∷ xs) a p p' =
      elim (Bool-cases (ltb 0 remaining)) [
        | inr done ↦ record {
          last_id = last_id;
          s' = s;
          xs' = x ∷ xs;
          runs = simp (market_loop, a.side.linked.head, head-load s x xs a.side, done);
          runs' = rw (Vector.market_loop, back-vector x xs, done) refl;
          agrees = a;
          shorter = omega arith;
        }
        | inl more ↦ elim (Bool-cases (leb x.order.size remaining)) [
          | inl whole ↦
              let (s₁, run, a₁) = remove-Agrees pr c s x xs a in
              let r =
                market_loop-Same fuel fuel' (remaining - x.order.size) x.order.id s₁ xs a₁
                  (omega arith) (omega arith) in
              record {
                last_id = r.last_id;
                s' = r.s';
                xs' = r.xs';
                runs =
                    rw (market_loop, a.side.linked.head, head-load s x xs a.side, more, whole, run)
                      r.runs;
                runs' =
                    rw (Vector.market_loop, back-vector x xs, more, whole, pop_back-vector x xs)
                      r.runs';
                agrees = r.agrees;
                shorter = omega (arith, r.shorter);
              }
          | inr part ↦
              let (s₁, run, a₁) = reduce-Agrees pr c s remaining x xs a in
              let r =
                market_loop-done fuel fuel' x.order.id s₁ (less_by remaining x ∷ xs) a₁
                  (omega arith) (omega arith) in
              record {
                last_id = r.last_id;
                s' = r.s';
                xs' = r.xs';
                runs =
                    rw (market_loop, a.side.linked.head, head-load s x xs a.side, more, part, run)
                      r.runs;
                runs' =
                    rw
                      (
                        Vector.market_loop,
                        back-vector x xs,
                        more,
                        part,
                        set_back-vector x xs remaining,
                      )
                      r.runs';
                agrees = r.agrees;
                shorter = omega (arith, r.shorter);
              }
        ]
      ]
