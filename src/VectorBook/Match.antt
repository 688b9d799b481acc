-- ===== src/VectorBook/Match.antt =====
-- `match` ends, and leaves a book whose best prices do not meet.
use low_level_programming.Shared.{
  ℕ, zero, suc, ◌+◌, ◌-◌, ◌<◌, min, ◌≡◌, refl, inl, inr, Bool, true, false, Option, some, List,
  arith, ◌==◌, leb, Bool-cases, Option-cases, tests, if◌then◌else◌, length, Outcome, ok,
}
use low_level_programming.VectorBook.{Order, VectorBook, back, fill_back, match_loop, match}
use low_level_programming.VectorBook.Back.{
  shares, length-pop_back, length-set_back, shares-fill_back,
}

-- no resting buy order meets the best sell order
abbrev pub Uncrossed : Option Order → Option Order → Type 0
Uncrossed (some b) (some s) = b.price < s.price
Uncrossed _ _ = Unit

-- A finished loop: as many shares left one book as the other.
pub record Matched (buys sells : List Order) (out : Outcome (List Order × List Order × Bool))
    : Type 0 where
  pub buys' : List Order
  pub sells' : List Order
  pub res' : Bool
  pub runs : out ≡ ok (buys', sells', res')
  pub uncrossed : Uncrossed (back buys') (back sells')
  pub filled : ℕ
  pub buy_shares : shares buys' + filled ≡ shares buys
  pub sell_shares : shares sells' + filled ≡ shares sells

length-fill_back :
    (xs : List Order) (o : Order) (fill : ℕ)
    → back xs ≡ some o
    → length (fill_back xs o fill) + (if o.size - fill == 0 then 1 else 0) ≡ length xs
length-fill_back xs o fill h =
    ground (arith, length-pop_back xs o h, length-set_back xs (o.size - fill))

-- One of the two orders is filled.
shorter :
    (buys sells : List Order) (b s : Order)
    → back buys ≡ some b
    → back sells ≡ some s
    → length (fill_back buys b (min b.size s.size)) + length (fill_back sells s (min b.size s.size))
      < length buys + length sells
shorter buys sells b s hb hs = ground (
  arith,
  length-fill_back buys b (min b.size s.size) hb,
  length-fill_back sells s (min b.size s.size) hs,
)

stopped :
    (buys sells : List Order) (res : Bool)
    → Uncrossed (back buys) (back sells)
    → Matched buys sells (ok (buys, sells, res))
stopped buys sells res u = record {
  buys' = buys;
  sells' = sells;
  res' = res;
  runs = refl;
  uncrossed = u;
  filled = 0;
  buy_shares = omega arith;
  sell_shares = omega arith;
}

match_loop-Matched :
    (fuel : ℕ) (buys sells : List Order) (res : Bool)
    → length buys + length sells < fuel
    → Matched buys sells (match_loop fuel buys sells res)
unfolding match_loop
match_loop-Matched zero buys sells res enough = absurd (omega arith)
match_loop-Matched (suc fuel) buys sells res enough = elim (Option-cases (back buys)) [
  | inl none_b ↦ rw (match_loop, none_b) (stopped buys sells res (rw none_b tt))
  | inr (b, hb) ↦ elim (Option-cases (back sells)) [
    | inl none_s ↦ rw (match_loop, hb, none_s) (stopped buys sells res (rw (hb, none_s) tt))
    | inr (s, hs) ↦ elim (Bool-cases (leb s.price b.price)) [
      | inr apart ↦
          rw (match_loop, hb, hs, apart) (stopped buys sells res (rw (hb, hs) (omega tests)))
      | inl meet ↦
          let fill = min b.size s.size in
          let r =
            match_loop-Matched fuel (fill_back buys b fill) (fill_back sells s fill) true
              (omega (arith, shorter buys sells b s hb hs)) in
          rw (match_loop, hb, hs, meet)
            (record {
              buys' = r.buys';
              sells' = r.sells';
              res' = r.res';
              runs = r.runs;
              uncrossed = r.uncrossed;
              filled = r.filled + fill;
              buy_shares =
                  omega (arith, r.buy_shares, shares-fill_back buys b fill hb (omega arith));
              sell_shares =
                  omega (arith, r.sell_shares, shares-fill_back sells s fill hs (omega arith));
            })
    ]
  ]
]

-- On every book match returns; of the last orders of the two books, if both are left, the buy price
-- is below the sell price, and as many shares left the buy book as the sell book.
pub match-Matched :
    (v : VectorBook)
    → (buys : List Order) × (sells : List Order) × (res : Bool) × (filled : ℕ) × (match v
        ≡ ok (res, record v { buy_book = buys; sell_book = sells }))
      × Uncrossed (back buys) (back sells)
      × (shares buys + filled ≡ shares v.buy_book)
      × (shares sells + filled ≡ shares v.sell_book)
unfolding match
match-Matched v =
    let r =
      match_loop-Matched (length v.buy_book + length v.sell_book + 1) v.buy_book v.sell_book false
        (omega arith) in
    (r.buys', r.sells', r.res', r.filled, rw r.runs refl, r.uncrossed, r.buy_shares, r.sell_shares)
