-- ===== src/ListBook/Loops/Match.antt =====
-- The loop of `match` does the same on both books.
use low_level_programming.Shared.{
  ℕ, zero, suc, ◌+◌, ◌-◌, ◌<◌, ◌≤◌, min, ◌≡◌, refl, Bool, true, some, List, [], ◌∷◌, arith,
  Bool-cases, inl, inr, leb, ◌==◌, if◌then◌else◌, length, Outcome, ok,
}
use low_level_programming.VectorBook as Vector
use low_level_programming.VectorBook.{Order}
use low_level_programming.ListBook.{
  Side, buy_greater, sell_greater, match_loop, reduce, remove_filled,
}
use low_level_programming.ListBook.Chain.{Entry}
use low_level_programming.ListBook.Leave.{head-load, less_by, without_filled}
use low_level_programming.ListBook.Priority.{IsPriority, buy-IsPriority, sell-IsPriority}
use low_level_programming.ListBook.Agree.{
  Agrees, vector, back-vector, fill_back-vector, reduce-Agrees, remove_filled-Agrees,
}

module _ {greater less : Order → Order → Bool} (pr : IsPriority greater less) (c : ℕ) where
  -- a fill of the head, as `match` makes it
  pub fill-Agrees :
      (s : Side) (fill : ℕ) (x : Entry) (xs : List Entry)
      → Agrees greater c s (x ∷ xs)
      → (s₁ s₂ : Side) × (reduce (some x.ptr) fill s ≡ ok s₁)
        × (remove_filled (some x.ptr) s₁ ≡ ok s₂)
        × Agrees greater c s₂ (without_filled (less_by fill x) xs)
  fill-Agrees s fill x xs a =
      let (s₁, run₁, a₁) = reduce-Agrees pr c s fill x xs a in
      let (s₂, run₂, a₂) = remove_filled-Agrees pr c s₁ (less_by fill x) xs a₁ in
      (s₁, s₂, run₁, run₂, a₂)

pub record MatchSame (c : ℕ) (out : Outcome (Side × Side × Bool))
    (out' : Outcome (List Order × List Order × Bool)) (most : ℕ) : Type 0 where
  pub buy' : Side
  pub sell' : Side
  pub buys' : List Entry
  pub sells' : List Entry
  pub did' : Bool
  pub runs : out ≡ ok (buy', sell', did')
  pub runs' : out' ≡ ok (vector buys', vector sells', did')
  pub buy_agrees : Agrees buy_greater c buy' buys'
  pub sell_agrees : Agrees sell_greater c sell' sells'
  pub shorter : length buys' + length sells' ≤ most

length-filled :
    (x : Entry) (xs : List Entry) (fill : ℕ)
    → length (without_filled (less_by fill x) xs) + (if x.order.size - fill == 0 then 1 else 0)
      ≡ length xs + 1
length-filled x xs fill = ground arith

-- One of two orders is filled.
pub shorter :
    (x y : Entry) (xs ys : List Entry)
    → length (without_filled (less_by (min x.order.size y.order.size) x) xs)
        + length (without_filled (less_by (min x.order.size y.order.size) y) ys)
      < length (x ∷ xs) + length (y ∷ ys)
shorter x y xs ys = ground (
  arith,
  length-filled x xs (min x.order.size y.order.size),
  length-filled y ys (min x.order.size y.order.size),
)

-- The sides stay, and so do the vectors.
stay :
    (c : ℕ) (buy sell : Side) (buys sells : List Entry) (did : Bool)
    (out : Outcome (Side × Side × Bool)) (out' : Outcome (List Order × List Order × Bool))
    → Agrees buy_greater c buy buys
    → Agrees sell_greater c sell sells
    → out ≡ ok (buy, sell, did)
    → out' ≡ ok (vector buys, vector sells, did)
    → MatchSame c out out' (length buys + length sells)
stay c buy sell buys sells did out out' b s runs runs' = record {
  buy' = buy;
  sell' = sell;
  buys' = buys;
  sells' = sells;
  did' = did;
  runs = runs;
  runs' = runs';
  buy_agrees = b;
  sell_agrees = s;
  shorter = omega arith;
}

pub match_loop-Same :
    (c fuel fuel' : ℕ) (buy sell : Side) (buys sells : List Entry) (did : Bool)
    → Agrees buy_greater c buy buys
    → Agrees sell_greater c sell sells
    → length buys + length sells < fuel
    → length buys + length sells < fuel'
    → MatchSame c
        (match_loop fuel buy sell did)
        (Vector.match_loop fuel' (vector buys) (vector sells) did)
        (length buys + length sells)
unfolding match_loop Vector.match_loop
match_loop-Same c zero fuel' buy sell buys sells did b s p p' = absurd (omega arith)
match_loop-Same c (suc fuel) zero buy sell buys sells did b s p p' = absurd (omega arith)
match_loop-Same c (suc fuel) (suc fuel') buy sell [] sells did b s p p' =
    stay c buy sell [] sells did _ _ b s (simp (match_loop, b.side.linked.head)) refl
match_loop-Same c (suc fuel) (suc fuel') buy sell (x ∷ xs) [] did b s p p' =
    stay c buy sell (x ∷ xs) [] did _ _ b s
      (simp (match_loop, b.side.linked.head, s.side.linked.head))
      (rw (Vector.match_loop, back-vector x xs) refl)
match_loop-Same c (suc fuel) (suc fuel') buy sell (x ∷ xs) (y ∷ ys) did b s p p' =
    let fill = min x.order.size y.order.size in
    elim (Bool-cases (leb y.order.price x.order.price)) [
      | inr apart ↦
          stay c buy sell (x ∷ xs) (y ∷ ys) did _ _ b s
            (simp (
              match_loop,
              b.side.linked.head,
              s.side.linked.head,
              head-load buy x xs b.side,
              head-load sell y ys s.side,
              apart,
            ))
            (rw (Vector.match_loop, back-vector x xs, back-vector y ys, apart) refl)
      | inl meet ↦
          let (buy₁, buy₂, rb₁, rb₂, b') = fill-Agrees buy-IsPriority c buy fill x xs b in
          let (sell₁, sell₂, rs₁, rs₂, s') = fill-Agrees sell-IsPriority c sell fill y ys s in
          let fewer = shorter x y xs ys in
          let r =
            match_loop-Same c fuel fuel' buy₂ sell₂ _ _ true b' s' (omega arith) (omega arith) in
          record {
            buy' = r.buy';
            sell' = r.sell';
            buys' = r.buys';
            sells' = r.sells';
            did' = r.did';
            runs =
                rw
                  (
                    match_loop,
                    b.side.linked.head,
                    s.side.linked.head,
                    head-load buy x xs b.side,
                    head-load sell y ys s.side,
                    meet,
                    rb₁,
                    rs₁,
                    rb₂,
                    rs₂,
                  )
                  r.runs;
            runs' =
                rw
                  (
                    Vector.match_loop,
                    back-vector x xs,
                    back-vector y ys,
                    meet,
                    fill_back-vector x xs fill,
                    fill_back-vector y ys fill,
                  )
                  r.runs';
            buy_agrees = r.buy_agrees;
            sell_agrees = r.sell_agrees;
            shorter = omega (arith, r.shorter);
          }
    ]
