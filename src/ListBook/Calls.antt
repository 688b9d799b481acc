-- ===== src/ListBook/Calls.antt =====
-- The calls of the list book and of the sorted vector book, on books that hold the same.
use low_level_programming.Shared.{
  ℕ, ◌+◌, ◌<◌, ◌≤◌, ◌^◌, ◌≡◌, refl, ap, Bool, false, List, arith, length, Outcome, ok, add64,
}
use low_level_programming.VectorBook as Vector
use low_level_programming.VectorBook.{Order, VectorBook}
use native.Mathlib.Nat.{mod-eq_of_lt}
use low_level_programming.ListBook.{
  Side, ListBook, buy_greater, sell_greater, match, insert_block, insert_buy_order,
  insert_sell_order,
}
use low_level_programming.ListBook.Chain.{Entry}
use low_level_programming.ListBook.Agree.{Agrees, vector, length-vector}
use low_level_programming.ListBook.Loops.Match.{match_loop-Same}

abbrev pub vector_book : ℕ → (buys sells : List Entry) → VectorBook
vector_book c buys sells = record { buy_book = vector buys; sell_book = vector sells; counter = c }

-- The list book is well formed, its sides sorted, and the vector book holds the same orders.
pub record Same (l : ListBook) (v : VectorBook) : Type 0 where
  pub buys : List Entry
  pub sells : List Entry
  pub buy : Agrees buy_greater l.counter l.buy buys
  pub sell : Agrees sell_greater l.counter l.sell sells
  pub view : v ≡ vector_book l.counter buys sells

abbrev pub size : {l : ListBook} {v : VectorBook} → Same l v → ℕ
size s = length s.buys + length s.sells

-- Two calls return the same, and leave books that hold the same, with `most` orders at most.
pub record Answers (out : Outcome (ℕ × ListBook)) (out' : Outcome (ℕ × VectorBook))
    (counter most : ℕ) : Type 0 where
  pub result : ℕ
  pub l' : ListBook
  pub v' : VectorBook
  pub runs : out ≡ ok (result, l')
  pub runs' : out' ≡ ok (result, v')
  pub same : Same l' v'
  pub counts : l'.counter ≤ counter
  pub fewer : size same ≤ most

pub Answers-weaken :
    {out : Outcome (ℕ × ListBook)} {out' : Outcome (ℕ × VectorBook)} {c c' most most' : ℕ}
    → c ≤ c'
    → most ≤ most'
    → Answers out out' c most
    → Answers out out' c' most'
Answers-weaken le le' r = record {
  result = r.result;
  l' = r.l';
  v' = r.v';
  runs = r.runs;
  runs' = r.runs';
  same = r.same;
  counts = omega (arith, r.counts);
  fewer = omega (arith, r.fewer);
}

record Matches (c fuel most : ℕ) (buy sell : Side) (buys sells : List Entry) : Type 0 where
  l' : ListBook
  v' : VectorBook
  did : Bool
  runs : match fuel (record { counter = c; buy = buy; sell = sell }) ≡ ok (did, l')
  runs' : Vector.match (vector_book c buys sells) ≡ ok (did, v')
  same : Same l' v'
  counter : l'.counter ≡ c
  counter' : v'.counter ≡ c
  fewer : size same ≤ most

match-Matches :
    (c fuel : ℕ) (buy sell : Side) (buys sells : List Entry)
    → Agrees buy_greater c buy buys
    → Agrees sell_greater c sell sells
    → length buys + length sells < fuel
    → Matches c fuel (length buys + length sells) buy sell buys sells
unfolding match Vector.match
match-Matches c fuel buy sell buys sells b s enough =
    let r =
      match_loop-Same c fuel (length (vector buys) + length (vector sells) + 1) buy sell buys sells
        false b s enough (omega (arith, length-vector buys, length-vector sells)) in
    record {
      l' = record { counter = c; buy = r.buy'; sell = r.sell' };
      v' = vector_book c r.buys' r.sells';
      did = r.did';
      runs = rw r.runs refl;
      runs' = rw r.runs' refl;
      same = record {
        buys = r.buys';
        sells = r.sells';
        buy = r.buy_agrees;
        sell = r.sell_agrees;
        view = refl;
      };
      counter = refl;
      counter' = refl;
      fewer = r.shorter;
    }

add64-next : (c : ℕ) → c + 1 < 2 ^ 64 → add64 c 1 ≡ c + 1
add64-next c h = mod-eq_of_lt h

pub insert_buy_run :
    (fuel c : ℕ) (order : Order) (buy buy₁ sell : Side) (buys buys₁ sells : List Entry)
    → c + 1 < 2 ^ 64
    → insert_block fuel buy_greater (record order { id = c + 1 }) buy ≡ ok buy₁
    → Vector.place Vector.buy_less (record order { id = c + 1 }) (vector buys) ≡ vector buys₁
    → Agrees buy_greater (c + 1) buy₁ buys₁
    → Agrees sell_greater (c + 1) sell sells
    → length buys₁ + length sells < fuel
    → Answers
        (insert_buy_order fuel order (record { counter = c; buy = buy; sell = sell }))
        (Vector.insert_buy_order order (vector_book c buys sells))
        (c + 1)
        (length buys₁ + length sells)
unfolding insert_buy_order Vector.insert_buy_order
insert_buy_run fuel c order buy buy₁ sell buys buys₁ sells word run at b s enough =
    let r = match-Matches (c + 1) fuel buy₁ sell buys₁ sells b s enough in
    record {
      result = c + 1;
      l' = r.l';
      v' = r.v';
      runs = rw (add64-next c word, run, r.runs) refl;
      runs' = rw (add64-next c word, at, r.runs') (ap (λ t. ok (t, r.v')) r.counter');
      same = r.same;
      counts = omega (arith, r.counter);
      fewer = r.fewer;
    }

pub insert_sell_run :
    (fuel c : ℕ) (order : Order) (buy sell sell₁ : Side) (buys sells sells₁ : List Entry)
    → c + 1 < 2 ^ 64
    → insert_block fuel sell_greater (record order { id = c + 1 }) sell ≡ ok sell₁
    → Vector.place Vector.sell_less (record order { id = c + 1 }) (vector sells) ≡ vector sells₁
    → Agrees buy_greater (c + 1) buy buys
    → Agrees sell_greater (c + 1) sell₁ sells₁
    → length buys + length sells₁ < fuel
    → Answers
        (insert_sell_order fuel order (record { counter = c; buy = buy; sell = sell }))
        (Vector.insert_sell_order order (vector_book c buys sells))
        (c + 1)
        (length buys + length sells₁)
unfolding insert_sell_order Vector.insert_sell_order
insert_sell_run fuel c order buy sell sell₁ buys sells sells₁ word run at b s enough =
    let r = match-Matches (c + 1) fuel buy sell₁ buys sells₁ b s enough in
    record {
      result = c + 1;
      l' = r.l';
      v' = r.v';
      runs = rw (add64-next c word, run, r.runs) refl;
      runs' = rw (add64-next c word, at, r.runs') (ap (λ t. ok (t, r.v')) r.counter');
      same = r.same;
      counts = omega (arith, r.counter);
      fewer = r.fewer;
    }
