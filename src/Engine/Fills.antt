-- ===== src/Engine/Fills.antt =====
-- Matching by price and time, on the lists of resting orders: what the loops of
-- 4_order_book_proj/src/engine.hpp are to do, and the messages of the fills.
use low_level_programming.Shared.{
  ℕ, ◌+◌, ◌<◌, ◌≡◌, refl, ◌∙◌, ap, none, List, [], ◌∷◌, update, replicate, arith,
}
use low_level_programming.Messages.Bytes.{Buffer, store_bytes}
use low_level_programming.Messages.AcceptResponseView
use low_level_programming.Engine.State.{OutboundMessage, Engine}
use low_level_programming.Engine.OrderList.Chain.{Entry, block_of}
use low_level_programming.Engine.Memory.{Book}
use low_level_programming.Engine.Sides.Count.{buys, sells}
use low_level_programming.Engine.Send.{Timespec, send_fills, publish}

-- `qty` shares of the incoming order against the resting order `entry`, at its price
pub record Fill : Type 0 where
  pub entry : Entry
  pub price : ℕ
  pub qty : ℕ

abbrev pub filled : List Fill → ℕ
filled [] = 0
filled (f ∷ fs) = f.qty + filled fs

-- Level i holds sell orders only, and no lower level holds any.
abbrev pub BestAsk : Book → ℕ → Type 0
BestAsk book i = (buys (book i) ≡ 0) × ((j : ℕ) → j < i → sells (book j) ≡ 0)

-- Level i holds buy orders only, and no higher level holds any.
abbrev pub BestBid : (size : ℕ) → Book → ℕ → Type 0
BestBid size book i = (sells (book i) ≡ 0) × ((j : ℕ) → i < j → j < size → buys (book j) ≡ 0)

-- One fill, from what is left of the incoming order and the book to what is left after it: the
-- oldest order of the best level is filled and goes, or fills what is left and stays with the rest.
pub data FillStep (Best : Book → ℕ → Type 0) (q : ℕ) (book : Book) : Fill → ℕ → Book → Type 0 where
  whole :
      {i q' : ℕ} {x : Entry} {xs : List Entry}
      → Best book i
      → book i ≡ x ∷ xs
      → q' + x.curr_qty ≡ q
      → FillStep Best q book
          (record { entry = x; price = i; qty = x.curr_qty })
          q'
          (update book i xs)
  part :
      {i left : ℕ} {x : Entry} {xs : List Entry}
      → Best book i
      → book i ≡ x ∷ xs
      → 0 < q
      → 0 < left
      → left + q ≡ x.curr_qty
      → FillStep Best q book
          (record { entry = x; price = i; qty = q })
          0
          (update book i (record x { curr_qty = left } ∷ xs))

-- Fills one after the other, each at a price that the limit allows.
pub data Trace (Best : Book → ℕ → Type 0) (Allowed : ℕ → Type 0)
    : ℕ → Book → List Fill → ℕ → Book → Type 0 where
  stop : {q : ℕ} {book : Book} → Trace Best Allowed q book [] q book
  next :
      {q : ℕ} {book : Book} {f : Fill} {fs : List Fill} {q₁ q' : ℕ} {b₁ b' : Book}
      → Allowed f.price
      → FillStep Best q book f q₁ b₁
      → Trace Best Allowed q₁ b₁ fs q' b'
      → Trace Best Allowed q book (f ∷ fs) q' b'

FillStep-qty :
    {Best : Book → ℕ → Type 0} {q q' : ℕ} {book book' : Book} {f : Fill}
    → FillStep Best q book f q' book'
    → q' + f.qty ≡ q
FillStep-qty (whole best at sum) = sum
FillStep-qty (part best at pos left sum) = omega arith

-- What the fills take is what the incoming order loses.
pub Trace-filled :
    {Best : Book → ℕ → Type 0} {Allowed : ℕ → Type 0} {q q' : ℕ} {book book' : Book}
    {fs : List Fill}
    → Trace Best Allowed q book fs q' book'
    → q' + filled fs ≡ q
Trace-filled stop = omega arith
Trace-filled (next ok_price step rest) = omega (arith, FillStep-qty step, Trace-filled rest)

-- a response in the buffer of an outgoing message
abbrev pub outbound : ℕ → Buffer → OutboundMessage
outbound account bytes = record {
  account = account;
  bytes = store_bytes (replicate AcceptResponseView.wire_size 0) 0 bytes;
}

-- what the fills of an order change besides the book
pub record Mail : Type 0 where
  pub outgoing : List OutboundMessage
  pub clock_reads : ℕ
  pub match_counter : ℕ
  pub counter : ℕ

abbrev pub mail : Engine → Mail
mail e = record {
  outgoing = e.outgoing;
  clock_reads = e.clock_reads;
  match_counter = e.match_counter;
  counter = e.counter;
}

abbrev with_mail : Mail → Engine → Engine
with_mail m e = record e {
  outgoing = m.outgoing;
  clock_reads = m.clock_reads;
  match_counter = m.match_counter;
  counter = m.counter;
}

module _ (clock : ℕ → Timespec) (account : ℕ) (order : Buffer) where
  -- the two messages of a fill
  abbrev pub send_fill : Fill → Engine → Engine
  send_fill f e = send_fills clock account order (block_of f.entry none none) f.qty f.price e

  abbrev pub send_all : List Fill → Engine → Engine
  send_all [] e = e
  send_all (f ∷ fs) e = send_all fs (send_fill f e)

  send_fill-mail :
      (f : Fill) (e e' : Engine) → mail e ≡ mail e' → mail (send_fill f e) ≡ mail (send_fill f e')
  unfolding send_fills publish
  send_fill-mail f e e' same = ap (λ m. mail (send_fill f (with_mail m e))) same

  -- Messages depend on the messages, the clock and the match number alone.
  pub send_all-mail :
      (fs : List Fill) (e e' : Engine)
      → mail e ≡ mail e'
      → mail (send_all fs e) ≡ mail (send_all fs e')
  send_all-mail [] e e' same = same
  send_all-mail (f ∷ fs) e e' same =
      send_all-mail fs (send_fill f e) (send_fill f e') (send_fill-mail f e e' same)

  send_fill-counter : (f : Fill) (e : Engine) → (send_fill f e).counter ≡ e.counter
  unfolding send_fills publish
  send_fill-counter f e = refl

  -- Fills give out no identifier.
  pub send_all-counter : (fs : List Fill) (e : Engine) → (send_all fs e).counter ≡ e.counter
  send_all-counter [] e = refl
  send_all-counter (f ∷ fs) e = send_all-counter fs (send_fill f e) ∙ send_fill-counter f e
