-- ===== src/Engine/Tests/States.antt =====
-- A book of two levels and a pool of two blocks, with one resting order in slot 0, at level 1.
use low_level_programming.Shared.{
  none, ℕ, ◌+◌, ◌≡◌, ◌∙◌, refl, inl, inr, true, false, none, some, [], ◌∷◌, arith, ◌==◌, Bool-cases,
  update, ==→eq,
}
use low_level_programming.Allocator.{free, used}
use low_level_programming.Messages.Bytes.{
  Buffer, load_bytes, from_le, to_le, bswap, load_be64, load_char,
}
use low_level_programming.Messages.EnterRequestView
use low_level_programming.Engine.State.{order_key, OrderList, Engine, Heap}
use low_level_programming.Engine.OrderList.Chain.{Entry, block_of}
use low_level_programming.Engine.Memory.{Book, Memory}
use low_level_programming.Engine.Sides.{IsSides}
use low_level_programming.Engine.Sides.Count.{is_buy, total}
use low_level_programming.Engine.Invariant.{core, IsBook, IsEngine}

-- an enter request for 5 at price 1 of the side `side`, with user reference number 3
abbrev pub order_of : ℕ → Buffer
order_of side =
    b'O' ∷ 0 ∷ 0 ∷ 0 ∷ 3 ∷ side ∷ 0 ∷ 0 ∷ 0 ∷ 5 ∷ 0 ∷ 0 ∷ 0 ∷ 0 ∷ 0 ∷ 0 ∷ 0 ∷ 0 ∷ 0 ∷ 0 ∷ 0 ∷ 0 ∷ 0
    ∷ 0 ∷ 0 ∷ 1 ∷ []

pub price_of_order : (side : ℕ) → EnterRequestView.price (order_of side) ≡ 1
unfolding EnterRequestView.price load_be64 load_bytes from_le to_le bswap
price_of_order side = refl

pub side_of_order : (side : ℕ) → EnterRequestView.side (order_of side) ≡ side
unfolding EnterRequestView.side load_char
side_of_order side = refl

abbrev pub entry_of : ℕ → Entry
entry_of side = record { ptr = 0; raw = order_of side; curr_qty = 5; id = 1; key = order_key 9 3 }

abbrev pub heap_of : ℕ → Heap
heap_of side = update (λ _. free none) 0 (used (block_of (entry_of side) none none))

abbrev pub levels_of : ℕ → OrderList
levels_of =
    update (λ _. record { head = none; tail = none }) 1 (record { head = some 0; tail = some 0 })

abbrev pub book_of : ℕ → Book
book_of side = update (λ _. []) 1 (entry_of side ∷ [])

abbrev pub engine_of : (side bo so best_buy best_sell : ℕ) → Engine
engine_of side bo so best_buy best_sell = record {
  counter = 1;
  match_counter = 0;
  order_blocks_map = update (λ _. none) (order_key 9 3) (some 0);
  buy_orders = bo;
  sell_orders = so;
  order_buffer = levels_of;
  best_buy_idx = best_buy;
  best_sell_idx = best_sell;
  allocator = record { slots = heap_of side; free_head = some 1 };
  outgoing = [];
  clock_reads = 0;
}

abbrev pub ask_engine : Engine
ask_engine = engine_of b'S' 0 1 0 1

abbrev pub bid_engine : Engine
bid_engine = engine_of b'B' 1 0 1 2

Memory-of :
    (side : ℕ)
    → Memory (record { slots = heap_of side; free_head = some 1 }) levels_of (book_of side) (1 ∷ [])
Memory-of side = record {
  links = λ i. elim (Bool-cases (1 == i)) [
    | inl here ↦ rw here (record { head = refl; tail = refl; chain = (refl, refl, tt) })
    | inr there ↦ rw there (record { head = refl; tail = refl; chain = tt })
  ];
  priced = λ i. elim (Bool-cases (1 == i)) [
    | inl here ↦ rw here (price_of_order side ∙ ==→eq 1 i here, tt)
    | inr there ↦ rw there tt
  ];
  head = refl;
  unused = (refl, refl, tt);
}

book_of-IsBook :
    (side bo so best_buy best_sell : ℕ)
    → bo + so ≡ 1
    → IsSides 2 bo so best_buy best_sell (book_of side)
    → IsBook 2 2 (core (engine_of side bo so best_buy best_sell)) (book_of side) (1 ∷ [])
book_of-IsBook side bo so best_buy best_sell one v = record {
  memory = Memory-of side;
  sides = v;
  beyond = λ i h. ground arith;
  open_orders = λ i. elim (Bool-cases (1 == i)) [
    | inl here ↦ rw here ((omega arith, omega arith), tt)
    | inr there ↦ rw there tt
  ];
  room = omega arith;
  mapped = λ k p h. elim (Bool-cases (order_key 9 3 == k)) [
    | inl same ↦
        let at : 0 ≡ p = ground arith in
        (1, entry_of side, rw (← at) refl, ==→eq (order_key 9 3) k same)
    | inr other ↦ absurd (ground arith)
  ];
  size_small = omega arith;
  pool_small = omega arith;
}

pub ask_engine-IsBook : IsBook 2 2 (core ask_engine) (book_of b'S') (1 ∷ [])
unfolding total
ask_engine-IsBook =
    let sell : is_buy (entry_of b'S') ≡ false = rw (side_of_order b'S') refl in
    book_of-IsBook b'S' 0 1 0 1 refl (record {
      buy_count = rw sell refl;
      sell_count = rw sell refl;
      buy_top = λ i h k. ground arith;
      sell_top = λ i h. ground arith;
      buy_best = λ h. absurd (omega arith);
      sell_best = λ h. ground arith;
      no_buy = λ h. refl;
      no_sell = λ h. absurd (omega arith);
      sell_in = λ h. omega arith;
      buy_in = omega arith;
      uncrossed = λ h k. absurd (omega arith);
    })

pub bid_engine-IsBook : IsBook 2 2 (core bid_engine) (book_of b'B') (1 ∷ [])
unfolding total
bid_engine-IsBook =
    let buy : is_buy (entry_of b'B') ≡ true = rw (side_of_order b'B') refl in
    book_of-IsBook b'B' 1 0 1 2 refl (record {
      buy_count = rw buy refl;
      sell_count = rw buy refl;
      buy_top = λ i h k. ground arith;
      sell_top = λ i h. ground arith;
      buy_best = λ h. ground arith;
      sell_best = λ h. absurd (omega arith);
      no_buy = λ h. absurd (omega arith);
      no_sell = λ h. refl;
      sell_in = λ h. absurd (omega arith);
      buy_in = omega arith;
      uncrossed = λ h k. absurd (omega arith);
    })

pub ask_engine-IsEngine : IsEngine 2 2 ask_engine
ask_engine-IsEngine = record { book = _; fs = _; is_book = ask_engine-IsBook }

pub bid_engine-IsEngine : IsEngine 2 2 bid_engine
bid_engine-IsEngine = record { book = _; fs = _; is_book = bid_engine-IsBook }
