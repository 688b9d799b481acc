-- ===== src/VectorBook/Orders.antt =====
-- Limit orders and the loop of the market orders, on any book.
use low_level_programming.Shared.{
  ◌⊎◌, ℕ, zero, suc, ◌+◌, ◌-◌, ◌<◌, ◌≤◌, ◌≡◌, refl, inl, inr, Bool, true, false, none, some, List,
  [], ◌∷◌, arith, ltb, leb, Bool-cases, Option-cases, tests, length, add64, ok,
}
use low_level_programming.VectorBook.{
  Order, VectorBook, back, pop_back, set_back, place, buy_less, sell_less, insert_buy_order,
  insert_sell_order, market_loop,
}
use low_level_programming.VectorBook.Back.{
  shares, length-pop_back, shares-pop_back, shares-set_back,
}
use low_level_programming.VectorBook.Match.{Uncrossed, match-Matched}

shares-place :
    (less : Order → Order → Bool) (o : Order) (xs : List Order)
    → shares (place less o xs) ≡ o.size + shares xs
shares-place less o [] = refl
shares-place less o (x ∷ xs) = elim (Bool-cases (less x o)) [
  | inl before ↦ rw before (omega (arith, shares-place less o xs))
  | inr here ↦ rw here refl
]

-- On every book a buy order is inserted and gets the next identifier; afterwards the last buy price
-- is below the last sell price if both books have an order, and the shares of the order are all in
-- the books but those that matched, as many on either side.
insert_buy_order-Uncrossed :
    (order : Order) (v : VectorBook)
    → (v' : VectorBook) × (filled : ℕ) × (insert_buy_order order v ≡ ok (add64 v.counter 1, v'))
      × (v'.counter ≡ add64 v.counter 1)
      × Uncrossed (back v'.buy_book) (back v'.sell_book)
      × (shares v'.buy_book + filled ≡ shares v.buy_book + order.size)
      × (shares v'.sell_book + filled ≡ shares v.sell_book)
unfolding insert_buy_order
insert_buy_order-Uncrossed order v =
    let id : ℕ = add64 v.counter 1 in
    let o : Order = record order { id = id } in
    let v₁ : VectorBook = record v { buy_book = place buy_less o v.buy_book; counter = id } in
    let (buys, sells, res, filled, run, u, b, s) = match-Matched v₁ in
    (
      record v₁ { buy_book = buys; sell_book = sells },
      filled,
      rw run refl,
      refl,
      u,
      omega (arith, b, shares-place buy_less o v.buy_book),
      s,
    )

-- On every book a sell order is inserted and gets the next identifier; afterwards the last buy
-- price is below the last sell price if both books have an order, and the shares of the order are
-- all in the books but those that matched, as many on either side.
insert_sell_order-Uncrossed :
    (order : Order) (v : VectorBook)
    → (v' : VectorBook) × (filled : ℕ) × (insert_sell_order order v ≡ ok (add64 v.counter 1, v'))
      × (v'.counter ≡ add64 v.counter 1)
      × Uncrossed (back v'.buy_book) (back v'.sell_book)
      × (shares v'.buy_book + filled ≡ shares v.buy_book)
      × (shares v'.sell_book + filled ≡ shares v.sell_book + order.size)
unfolding insert_sell_order
insert_sell_order-Uncrossed order v =
    let id : ℕ = add64 v.counter 1 in
    let o : Order = record order { id = id } in
    let v₁ : VectorBook = record v { sell_book = place sell_less o v.sell_book; counter = id } in
    let (buys, sells, res, filled, run, u, b, s) = match-Matched v₁ in
    (
      record v₁ { buy_book = buys; sell_book = sells },
      filled,
      rw run refl,
      refl,
      u,
      b,
      omega (arith, s, shares-place sell_less o v.sell_book),
    )

-- With nothing left the loop ends.
market_loop-zero :
    (fuel last_id : ℕ) (xs : List Order)
    → 0 < fuel
    → market_loop fuel 0 last_id xs ≡ ok (last_id, xs)
unfolding market_loop
market_loop-zero zero last_id xs enough = absurd (omega arith)
market_loop-zero (suc fuel) last_id xs enough = elim (Option-cases (back xs)) [
  | inl hollow ↦ rw (market_loop, hollow) refl
  | inr (best, at) ↦ rw (market_loop, at) refl
]

-- The best order is larger than what is left: it stays, smaller.
market_loop-part :
    (fuel remaining last_id : ℕ) (xs : List Order) (best : Order)
    → back xs ≡ some best
    → ltb 0 remaining ≡ true
    → leb best.size remaining ≡ false
    → 0 < fuel
    → market_loop (suc fuel) remaining last_id xs
      ≡ ok (best.id, set_back xs (best.size - remaining))
unfolding market_loop
market_loop-part fuel remaining last_id xs best at more part enough =
    rw (market_loop, at, more, part)
      (market_loop-zero fuel best.id (set_back xs (best.size - remaining)) enough)

-- With more fuel than one more than the orders of a book, the loop of a market order returns; the
-- shares that it took have left the book, they are no more than the size of the order, and they are
-- the size of the order or the book is empty.
pub market_loop-shares :
    (fuel remaining last_id : ℕ) (xs : List Order)
    → length xs + 1 < fuel
    → (id : ℕ) × (xs' : List Order) × (taken : ℕ) × (market_loop fuel remaining last_id xs
        ≡ ok (id, xs'))
      × (shares xs' + taken ≡ shares xs)
      × (taken ≤ remaining)
      × ((taken ≡ remaining) ⊎ (back xs' ≡ none))
unfolding market_loop
market_loop-shares zero remaining last_id xs enough = absurd (omega arith)
market_loop-shares (suc fuel) remaining last_id xs enough = elim (Option-cases (back xs)) [
  | inl hollow ↦
      (last_id, xs, 0, rw (market_loop, hollow) refl, omega arith, omega arith, inr hollow)
  | inr (best, at) ↦ elim (Bool-cases (ltb 0 remaining)) [
    | inr done ↦ (
      last_id,
      xs,
      0,
      rw (market_loop, at, done) refl,
      omega arith,
      omega arith,
      inl (omega tests),
    )
    | inl more ↦ elim (Bool-cases (leb best.size remaining)) [
      | inl whole ↦
          let (id, xs', taken, run, sum, le, stop) =
            market_loop-shares fuel (remaining - best.size) best.id (pop_back xs)
              (omega (arith, length-pop_back xs best at)) in
          (
            id,
            xs',
            taken + best.size,
            rw (market_loop, at, more, whole) run,
            omega (arith, shares-pop_back xs best at),
            omega tests,
            (elim stop [ inl all ↦ inl (omega tests) | inr hollow ↦ inr hollow ]),
          )
      | inr part ↦ (
        best.id,
        set_back xs (best.size - remaining),
        remaining,
        market_loop-part fuel remaining last_id xs best at more part (omega arith),
        omega (tests, shares-set_back xs best (best.size - remaining) at),
        omega arith,
        inl refl,
      )
    ]
  ]
]

-- On every book a buy order, whatever its price, 0 included, is inserted and gets the next
-- identifier; afterwards the last buy price is below the last sell price if both books have an
-- order, and the shares of the order are all in the books but those that matched, as many on either
-- side. The same holds of a sell order.
pub inserts-Uncrossed :
    (order : Order) (v : VectorBook)
    → ((v' : VectorBook) × (filled : ℕ) × (insert_buy_order order v ≡ ok (add64 v.counter 1, v'))
        × (v'.counter ≡ add64 v.counter 1)
        × Uncrossed (back v'.buy_book) (back v'.sell_book)
        × (shares v'.buy_book + filled ≡ shares v.buy_book + order.size)
        × (shares v'.sell_book + filled ≡ shares v.sell_book))
      × ((v' : VectorBook) × (filled : ℕ) × (insert_sell_order order v ≡ ok (add64 v.counter 1, v'))
          × (v'.counter ≡ add64 v.counter 1)
          × Uncrossed (back v'.buy_book) (back v'.sell_book)
          × (shares v'.buy_book + filled ≡ shares v.buy_book)
          × (shares v'.sell_book + filled ≡ shares v.sell_book + order.size))
inserts-Uncrossed order v =
    (insert_buy_order-Uncrossed order v, insert_sell_order-Uncrossed order v)
