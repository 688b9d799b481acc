-- ===== src/Engine/Invariant/Rested.antt =====
-- What becomes of what is left of an order, and its cancellation.
use low_level_programming.Shared.{
  ap, ◌∙◌, ◌⊎◌, ℕ, ◌<◌, ◌≡◌, refl, inl, inr, none, some, List, [], ◌∷◌, ◌++◌, update, Outcome, ok,
  ◌≢◌, sym, subst,
}
use low_level_programming.Allocator
use low_level_programming.Allocator.{Pointer, free, used, Allocator}
use low_level_programming.Allocator.FreeList
use low_level_programming.Messages.Bytes.{Buffer}
use low_level_programming.Messages.EnterRequestView
use low_level_programming.Engine.State.{order_key, market_price, OrderBlock, OrderList, Engine}
use low_level_programming.Engine.Memory.{Book, Memory}
use low_level_programming.Engine.Fills.{Mail, mail}
use low_level_programming.Engine.Send.{Timespec, send_cancelled, publish}
use low_level_programming.Engine.Invariant.{core, IsBook, IsEngine}
use low_level_programming.Engine.Invariant.Place.{resting}

-- An operation that returns, with no fault, in a valid state.
pub record Returned (size pool_size : ℕ) (out : Outcome (ℕ × Engine)) : Type 0 where
  pub result : ℕ
  pub e' : Engine
  pub runs : out ≡ ok (result, e')
  pub valid : IsEngine size pool_size e'

-- What becomes of the q shares that no resting order matched, in the state `e` with the orders `book`
-- and the free blocks `fs`: there are none, they are cancelled as the order is a market order or as no
-- block is free, or they join the end of their level in the first free block, to which the map then
-- leads from their key.
pub data Rests (clock : ℕ → Timespec) (account : ℕ) (order : Buffer) (id q : ℕ) (e e' : Engine)
    (fs : List ℕ) (book book' : Book) (result : ℕ) : Type 0 where
  none_left :
      q ≡ 0
      → result ≡ 0
      → book' ≡ book
      → mail e' ≡ mail e
      → Rests clock account order id q e e' fs book book' result
  no_market :
      0 < q
      → EnterRequestView.price order ≡ market_price
      → result ≡ 0
      → book' ≡ book
      → mail e' ≡ mail (send_cancelled clock account (EnterRequestView.user_ref_num order) q b'I' e)
      → Rests clock account order id q e e' fs book book' result
  no_block :
      0 < q
      → EnterRequestView.price order ≢ market_price
      → fs ≡ []
      → result ≡ 0
      → book' ≡ book
      → mail e' ≡ mail (send_cancelled clock account (EnterRequestView.user_ref_num order) q b'Z' e)
      → Rests clock account order id q e e' fs book book' result
  joins :
      {p : ℕ} {free_blocks : List ℕ}
      → 0 < q
      → EnterRequestView.price order ≢ market_price
      → fs ≡ p ∷ free_blocks
      → result ≡ id
      → book'
        ≡ update book
            (EnterRequestView.price order)
            (book (EnterRequestView.price order) ++ resting p account order id q ∷ [])
      → e'.order_blocks_map
        ≡ update e.order_blocks_map
            (order_key account (EnterRequestView.user_ref_num order))
            (some p)
      → mail e' ≡ mail e
      → Rests clock account order id q e e' fs book book' result

-- What is left of an order has come to rest, or is gone.
pub record Rested (size pool_size : ℕ) (clock : ℕ → Timespec) (account : ℕ) (order : Buffer)
    (id q : ℕ) (e : Engine) (fs : List ℕ) (book : Book) (out : Outcome (ℕ × Engine)) : Type 0 where
  pub result : ℕ
  pub e' : Engine
  pub runs : out ≡ ok (result, e')
  pub valid : IsEngine size pool_size e'
  pub rest : Rests clock account order id q e e' fs book valid.book result

module _ (size pool_size : ℕ) (clock : ℕ → Timespec) (account : ℕ) (order : Buffer) where
  pub core-send_cancelled :
      (urn qty reason : ℕ) (e : Engine)
      → core (send_cancelled clock account urn qty reason e) ≡ core e
  unfolding send_cancelled publish
  core-send_cancelled urn qty reason e = refl

  -- a cancellation leaves the book alone
  pub cancelled :
      (out urn qty reason : ℕ) (e : Engine) (book : Book) (fs : List ℕ)
      → IsBook size pool_size (core e) book fs
      → Returned size pool_size (ok (out, send_cancelled clock account urn qty reason e))
  cancelled out urn qty reason e book fs v = record {
    result = out;
    e' = _;
    runs = refl;
    valid = record { book = book; fs = fs; is_book = rw (core-send_cancelled urn qty reason e) v };
  }

  -- The free blocks under another name.
  pub Rested-fs :
      {id q : ℕ} {e : Engine} {fs fs' : List ℕ} {book : Book} {out : Outcome (ℕ × Engine)}
      → fs ≡ fs'
      → Rested size pool_size clock account order id q e fs' book out
      → Rested size pool_size clock account order id q e fs book out
  Rested-fs {id} {q} {e} {fs} {fs'} {book} {out} same r =
      subst (λ (l : List ℕ). Rested size pool_size clock account order id q e l book out) (sym same)
        r

  -- What is left is cancelled.
  pub gone :
      (id q reason : ℕ) (e : Engine) (book : Book) (fs : List ℕ)
      → IsBook size pool_size (core e) book fs
      → Rests clock account order id q e
          (send_cancelled clock account (EnterRequestView.user_ref_num order) q reason e)
          fs
          book
          book
          0
      → Rested size pool_size clock account order id q e fs book
          (ok (0, send_cancelled clock account (EnterRequestView.user_ref_num order) q reason e))
  gone id q reason e book fs v rest = record {
    result = 0;
    e' = _;
    runs = refl;
    valid = record {
      book = book;
      fs = fs;
      is_book = rw (core-send_cancelled (EnterRequestView.user_ref_num order) q reason e) v;
    };
    rest = rest;
  }

  -- What `allocate` does with a valid pool.
  pub allocated :
      (a : Allocator OrderBlock) (levels : ℕ → OrderList) (book : Book) (fs : List ℕ)
      → Memory a levels book fs
      → ((fs ≡ []) × (Allocator.allocate a ≡ ok (none, a)))
        ⊎ ((p : ℕ) × (fs' : List ℕ) × (fs ≡ p ∷ fs')
            × (Allocator.allocate a ≡ ok (some p, record a { free_head = FreeList.first fs' })))
  unfolding Allocator.allocate
  allocated a levels book [] v = inl (refl, rw v.head refl)
  allocated a levels book (p ∷ fs') v = inr (p, fs', refl, rw (v.head, v.unused.0) refl)

  send_cancelled-counter :
      (urn qty reason : ℕ) (e : Engine)
      → (send_cancelled clock account urn qty reason e).counter ≡ e.counter
  unfolding send_cancelled publish
  send_cancelled-counter urn qty reason e = refl

  -- What is left of an order takes no further identifier.
  pub Rests-counter :
      {id q : ℕ} {e e' : Engine} {fs : List ℕ} {book book' : Book} {result : ℕ}
      → Rests clock account order id q e e' fs book book' result
      → e'.counter ≡ e.counter
  Rests-counter (none_left _ _ _ same) = ap Mail.counter same
  Rests-counter {q = q} {e = e} (no_market _ _ _ _ same) =
      ap Mail.counter same ∙ send_cancelled-counter (EnterRequestView.user_ref_num order) q b'I' e
  Rests-counter {q = q} {e = e} (no_block _ _ _ _ _ same) =
      ap Mail.counter same ∙ send_cancelled-counter (EnterRequestView.user_ref_num order) q b'Z' e
  Rests-counter (joins _ _ _ _ _ _ same) = ap Mail.counter same
