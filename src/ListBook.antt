-- ===== src/ListBook.antt =====
-- `OrderBook_List` of 4_order_book_proj/data_structure_bench/list_str.cpp: on either side a doubly
-- linked list of blocks, the best order first, and a map from the identifiers to the blocks. The
-- two sides have blocks of their own type, so each has a heap of its own. `new` gives the address
-- `fresh`, which is never given out again. To go through the null pointer, or to read a block that
-- was deleted, is a fault. The loops take fuel.
pub mod Chain
pub mod Links
pub mod Sides
pub mod Leave
pub mod Priority
pub mod Agree
pub mod Loops
pub mod Calls
pub mod Erase
pub mod Answers
pub mod Market
pub mod Run
mod Tests
use low_level_programming.Shared.{
  ℕ, zero, suc, ◌+◌, ◌-◌, ◌^◌, min, Bool, true, false, Option, none, some, is_none, ◌==◌, ltb, leb,
  if◌then◌else◌, add64, update, Outcome, ok, fault, stuck, ◌>>=◌,
}
use low_level_programming.VectorBook.{Order}

abbrev pub Pointer : Type 0
Pointer = Option ℕ

-- `BuyBlock` and `SellBlock` have the same fields.
pub record Block : Type 0 where
  pub order : Order
  pub next : Pointer
  pub prev : Pointer

abbrev pub Heap : Type 0
Heap = ℕ → Option Block

pub record Side : Type 0 where
  pub blocks : Heap
  pub fresh : ℕ
  pub head : Pointer
  pub tail : Pointer
  pub index : ℕ → Pointer

pub record ListBook : Type 0 where
  pub counter : ℕ
  pub buy : Side
  pub sell : Side

abbrev pub new_side : Side
new_side = record { blocks = λ _. none; fresh = 0; head = none; tail = none; index = λ _. none }

unfoldable pub new : ListBook
new = record { counter = 1; buy = new_side; sell = new_side }

-- `BuyOrder::operator>`
unfoldable pub buy_greater : Order → Order → Bool
buy_greater o o2 =
    if ltb o2.price o.price then true else if o.price == o2.price then ltb o.id o2.id else false

-- `SellOrder::operator>`
unfoldable pub sell_greater : Order → Order → Bool
sell_greater o o2 =
    if ltb o.price o2.price then true else if o.price == o2.price then ltb o.id o2.id else false

unfoldable pub load : Heap → Pointer → Outcome Block
load m none = fault
load m (some p) = elim (m p) [ some b ↦ ok b | none ↦ fault ]

unfoldable pub set_block : Heap → Pointer → Block → Heap
set_block m none b = m
set_block m (some p) b = update m p (some b)

unfoldable pub set_next : Pointer → Pointer → Side → Outcome Side
unfolding load set_block
set_next p q s = do
  b ← load s.blocks p
  ok (record s { blocks = set_block s.blocks p (record b { next = q }) })

unfoldable pub set_prev : Pointer → Pointer → Side → Outcome Side
unfolding load set_block
set_prev p q s = do
  b ← load s.blocks p
  ok (record s { blocks = set_block s.blocks p (record b { prev = q }) })

-- `while (cur && cur->order > order) cur = cur->next;`
unfoldable pub seek :
    ℕ → (greater : Order → Order → Bool) → Order → Heap → (cur : Pointer) → Outcome Pointer
seek zero greater order m cur = stuck
seek (suc fuel) greater order m none = ok none
seek (suc fuel) greater order m (some p) = do
  b ← load m (some p)
  let rest = seek fuel greater order m b.next
  if greater b.order order then rest else ok (some p)

-- `if (p) p->next = q; else head = q;`
abbrev pub link_next : Pointer → Pointer → Side → Outcome Side
link_next p q s = if is_none p then ok (record s { head = q }) else set_next p q s

-- `if (n) n->prev = q; else tail = q;`
abbrev pub link_prev : Pointer → Pointer → Side → Outcome Side
link_prev n q s = if is_none n then ok (record s { tail = q }) else set_prev n q s

-- a new node before `cur`
unfoldable pub link_before : (node cur : Pointer) → Side → Outcome Side
unfolding set_next set_prev
link_before node cur s = do
  s₁ ← set_next node cur s
  b ← load s₁.blocks cur
  s₂ ← set_prev node b.prev s₁
  s₃ ← link_next b.prev node s₂
  set_prev cur node s₃

-- a new node at the end
unfoldable pub link_last : (node : Pointer) → Side → Outcome Side
unfolding set_next set_prev
link_last node s = do
  s₁ ← set_prev node s.tail s
  s₂ ← set_next node none s₁
  s₃ ← link_next s.tail node s₂
  ok (record s₃ { tail = node })

-- `new BuyBlock()` with the order in it
abbrev pub new_block : Order → Side → Side
new_block order s = record s {
  blocks = update s.blocks s.fresh (some (record { order = order; next = none; prev = none }));
  fresh = s.fresh + 1;
}

-- from `new` to the entry of the index
unfoldable pub insert_block : ℕ → (greater : Order → Order → Bool) → Order → Side → Outcome Side
unfolding seek link_before link_last
insert_block fuel greater order s = do
  let node = some s.fresh
  let s₁ = new_block order s
  cur ← seek fuel greater order s₁.blocks s₁.head
  s₂ ← if is_none cur then link_last node s₁ else link_before node cur s₁
  ok (record s₂ { index = update s₂.index order.id node })

unfoldable pub unlink : Pointer → Side → Outcome Side
unfolding set_next set_prev
unlink n s = do
  b ← load s.blocks n
  s₁ ← link_next b.prev b.next s
  b₁ ← load s₁.blocks n
  s₂ ← link_prev b₁.next b₁.prev s₁
  s₃ ← set_next n none s₂
  set_prev n none s₃

-- `delete n`
unfoldable pub delete_block : Pointer → Side → Outcome Side
unfolding load
delete_block none s = ok s
delete_block (some p) s = do
  _ ← load s.blocks (some p)
  ok (record s { blocks = update s.blocks p none })

-- `unlink(n); index.erase(n->order.id); delete n;`
unfoldable pub remove : Pointer → Side → Outcome Side
unfolding unlink delete_block
remove n s = do
  s₁ ← unlink n s
  b ← load s₁.blocks n
  delete_block n (record s₁ { index = update s₁.index b.order.id none })

-- `n->order.size -= fill`
unfoldable pub reduce : Pointer → ℕ → Side → Outcome Side
unfolding load set_block
reduce n fill s = do
  b ← load s.blocks n
  let order = record b.order { size = b.order.size - fill }
  ok (record s { blocks = set_block s.blocks n (record b { order = order }) })

-- `if (n->order.size == 0)` it goes
unfoldable pub remove_filled : Pointer → Side → Outcome Side
remove_filled n s = do b ← load s.blocks n; if b.order.size == 0 then remove n s else ok s

-- the loop of `match`, with what it returns
unfoldable pub match_loop : ℕ → (buy sell : Side) → (did : Bool) → Outcome (Side × Side × Bool)
match_loop zero buy sell did = stuck
match_loop (suc fuel) buy sell did = elim buy.head [
  | none ↦ ok (buy, sell, did)
  | some p ↦ elim sell.head [
    | none ↦ ok (buy, sell, did)
    | some q ↦ do
      b ← load buy.blocks (some p)
      s ← load sell.blocks (some q)
      let fill = min b.order.size s.order.size
      let more = do
        buy₁ ← reduce (some p) fill buy
        sell₁ ← reduce (some q) fill sell
        buy₂ ← remove_filled (some p) buy₁
        sell₂ ← remove_filled (some q) sell₁
        match_loop fuel buy₂ sell₂ true
      if leb s.order.price b.order.price then more else ok (buy, sell, did)
  ]
]

unfoldable pub match : ℕ → ListBook → Outcome (Bool × ListBook)
match fuel l = do
  (buy, sell, did) ← match_loop fuel l.buy l.sell false
  ok (did, record l { buy = buy; sell = sell })

unfoldable pub insert_buy_order : ℕ → Order → ListBook → Outcome (ℕ × ListBook)
insert_buy_order fuel order l = do
  let id = add64 l.counter 1
  buy ← insert_block fuel buy_greater (record order { id = id }) l.buy
  (_, l') ← match fuel (record l { counter = id; buy = buy })
  ok (id, l')

unfoldable pub insert_sell_order : ℕ → Order → ListBook → Outcome (ℕ × ListBook)
insert_sell_order fuel order l = do
  let id = add64 l.counter 1
  sell ← insert_block fuel sell_greater (record order { id = id }) l.sell
  (_, l') ← match fuel (record l { counter = id; sell = sell })
  ok (id, l')

-- `unlink(n); index.erase(it); delete n;` for an identifier of the index
unfoldable pub cancel_block : (id : ℕ) → Pointer → Side → Outcome Side
cancel_block id n s = do
  s₁ ← unlink n s
  delete_block n (record s₁ { index = update s₁.index id none })

unfoldable pub cancel_buy_order : ℕ → ListBook → Outcome (ℕ × ListBook)
cancel_buy_order id l = elim (l.buy.index id) [
  | none ↦ ok (0, l)
  | some p ↦ do buy ← cancel_block id (some p) l.buy; ok (id, record l { buy = buy })
]

unfoldable pub cancel_sell_order : ℕ → ListBook → Outcome (ℕ × ListBook)
cancel_sell_order id l = elim (l.sell.index id) [
  | none ↦ ok (0, l)
  | some p ↦ do sell ← cancel_block id (some p) l.sell; ok (id, record l { sell = sell })
]

-- the loop of the market orders on the other side: the last order met, and the side
unfoldable pub market_loop : ℕ → (remaining last_id : ℕ) → Side → Outcome (ℕ × Side)
market_loop zero remaining last_id s = stuck
market_loop (suc fuel) remaining last_id s = elim s.head [
  | none ↦ ok (last_id, s)
  | some p ↦ do
    b ← load s.blocks (some p)
    let whole = do s₁ ← remove (some p) s; market_loop fuel (remaining - b.order.size) b.order.id s₁
    let part = do s₁ ← reduce (some p) remaining s; market_loop fuel 0 b.order.id s₁
    if ltb 0 remaining
        then (if leb b.order.size remaining then whole else part)
        else ok (last_id, s)
]

unfoldable pub market_buy_order : ℕ → Order → ListBook → Outcome (ℕ × ListBook)
market_buy_order fuel order l = do
  (last_id, sell) ← market_loop fuel order.size 0 l.sell
  let l' = record l { sell = sell }
  let insert = insert_buy_order fuel (record order { price = 2 ^ 64 - 1 }) l'
  if last_id == 0 then insert else ok (last_id, l')

unfoldable pub market_sell_order : ℕ → Order → ListBook → Outcome (ℕ × ListBook)
market_sell_order fuel order l = do
  (last_id, buy) ← market_loop fuel order.size 0 l.buy
  let l' = record l { buy = buy }
  let insert = insert_sell_order fuel (record order { price = 0 }) l'
  if last_id == 0 then insert else ok (last_id, l')

-- the order of the head, or a new one
unfoldable pub top : Side → Outcome Order
top s =
    if is_none s.head
    then ok (record { id = 0; price = 0; size = 0 })
    else do b ← load s.blocks s.head; ok b.order

unfoldable pub top_of_book : ListBook → Outcome (Order × Order)
top_of_book l = do b ← top l.buy; s ← top l.sell; ok (b, s)
