-- ===== src/Queues/Spsc.antt =====
-- `spsc_queue` of 4_order_book_proj/src/queues.hpp and queues_impl.hpp: one thread enqueues and one
-- dequeues. Each access of a cell or of an index is a step of one of the two threads, and the steps
-- interleave in any order. A release store makes what was written before it visible to the acquire
-- load that reads it, so the steps act on one memory.
pub mod Invariant
pub mod Steps
pub mod Safety
pub mod Single
mod Tests
use low_level_programming.Shared.{
  ℕ, ◌+◌, ◌%◌, ◌^◌, ◌≡◌, ◌≢◌, Bool, Option, none, some, List, [], ◌∷◌, ◌++◌, ◌==◌, update, add64,
}
use low_level_programming.Queues.Slots.{Cell, slot, init_cells}

pub record Spsc {ℓ} (A : Type ℓ) : Type ℓ where
  pub cells : ℕ → Cell A
  pub enqueue_ptr : ℕ
  pub dequeue_ptr : ℕ

-- the constructor
unfoldable pub new {ℓ} : {A : Type ℓ} (size : ℕ) → Spsc A
unfolding init_cells
new size = record {
  cells = init_cells size (λ _. record { sequence = 0; value = none });
  enqueue_ptr = 0;
  dequeue_ptr = 0;
}

unfoldable pub is_empty {ℓ} : {A : Type ℓ} → Spsc A → Bool
is_empty q = q.enqueue_ptr == q.dequeue_ptr

-- Where the producer stands in `enqueue`, with the locals `pos` and `data`.
pub data Producer {ℓ} (A : Type ℓ) : Type ℓ where
  idle : Producer A
  -- at the test of the loop
  waits : (pos : ℕ) (x : A) → Producer A
  -- the loop has ended
  writes : (pos : ℕ) (x : A) → Producer A
  -- before the store of `sequence`
  wrote : (pos : ℕ) (x : A) → Producer A
  -- before the store of `enqueue_ptr_`
  published : (pos : ℕ) → Producer A

-- Where the consumer stands in `dequeue`, with the local `pos`, and `data` once it is read.
pub data Consumer {ℓ} (A : Type ℓ) : Type ℓ where
  idle : Consumer A
  waits : (pos : ℕ) → Consumer A
  reads : (pos : ℕ) → Consumer A
  has_read : (pos : ℕ) (v : Option A) → Consumer A
  released : (pos : ℕ) (v : Option A) → Consumer A

-- `sent` are the arguments of `enqueue` so far, `received` the results of `dequeue`.
pub record System {ℓ} (A : Type ℓ) : Type ℓ where
  pub queue : Spsc A
  pub producer : Producer A
  pub consumer : Consumer A
  pub sent : List A
  pub received : List (Option A)

abbrev pub init {ℓ} : {A : Type ℓ} → ℕ → System A
init size = record {
  queue = new size;
  producer = Producer.idle;
  consumer = Consumer.idle;
  sent = [];
  received = [];
}

abbrev pub store_cell {ℓ} : {A : Type ℓ} → ℕ → Cell A → Spsc A → Spsc A
store_cell i cell q = record q { cells = update q.cells i cell }

-- `c.data = std::move(data)`
abbrev pub put_value {ℓ} : {A : Type ℓ} → ℕ → A → Spsc A → Spsc A
put_value i x q = store_cell i (record (q.cells i) { value = some x }) q

-- `c.sequence.store(n)`
abbrev pub put_sequence {ℓ} : {A : Type ℓ} → ℕ → ℕ → Spsc A → Spsc A
put_sequence i n q = store_cell i (record (q.cells i) { sequence = n }) q

pub data Step {ℓ} {A : Type ℓ} (size : ℕ) (s : System A) : System A → Type ℓ where
  enqueue :
      (x : A)
      → s.producer ≡ Producer.idle
      → Step size s
          (record s { producer = Producer.waits s.queue.enqueue_ptr x; sent = s.sent ++ x ∷ [] })
  enqueue_pause :
      {pos : ℕ} {x : A}
      → s.producer ≡ Producer.waits pos x
      → (s.queue.cells (slot size pos)).sequence ≢ pos
      → Step size s s
  enqueue_pass :
      {pos : ℕ} {x : A}
      → s.producer ≡ Producer.waits pos x
      → (s.queue.cells (slot size pos)).sequence ≡ pos
      → Step size s (record s { producer = Producer.writes pos x })
  enqueue_write :
      {pos : ℕ} {x : A}
      → s.producer ≡ Producer.writes pos x
      → Step size s (record s {
        queue = put_value (slot size pos) x s.queue;
        producer = Producer.wrote pos x;
      })
  enqueue_publish :
      {pos : ℕ} {x : A}
      → s.producer ≡ Producer.wrote pos x
      → Step size s (record s {
        queue = put_sequence (slot size pos) (add64 pos 1) s.queue;
        producer = Producer.published pos;
      })
  enqueue_return :
      {pos : ℕ}
      → s.producer ≡ Producer.published pos
      → Step size s (record s {
        queue = record s.queue { enqueue_ptr = add64 pos 1 };
        producer = Producer.idle;
      })
  dequeue :
      s.consumer ≡ Consumer.idle
      → Step size s (record s { consumer = Consumer.waits s.queue.dequeue_ptr })
  dequeue_pause :
      {pos : ℕ}
      → s.consumer ≡ Consumer.waits pos
      → (s.queue.cells (slot size pos)).sequence ≢ add64 pos 1
      → Step size s s
  dequeue_pass :
      {pos : ℕ}
      → s.consumer ≡ Consumer.waits pos
      → (s.queue.cells (slot size pos)).sequence ≡ add64 pos 1
      → Step size s (record s { consumer = Consumer.reads pos })
  dequeue_read :
      {pos : ℕ}
      → s.consumer ≡ Consumer.reads pos
      → Step size s
          (record s { consumer = Consumer.has_read pos (s.queue.cells (slot size pos)).value })
  dequeue_release :
      {pos : ℕ} {v : Option A}
      → s.consumer ≡ Consumer.has_read pos v
      → Step size s (record s {
        queue = put_sequence (slot size pos) (add64 pos size) s.queue;
        consumer = Consumer.released pos v;
      })
  dequeue_return :
      {pos : ℕ} {v : Option A}
      → s.consumer ≡ Consumer.released pos v
      → Step size s (record s {
        queue = record s.queue { dequeue_ptr = add64 pos 1 };
        consumer = Consumer.idle;
        received = s.received ++ v ∷ [];
      })

pub data Reach {ℓ} {A : Type ℓ} (size : ℕ) : System A → Type ℓ where
  start : Reach size (init size)
  later : {s t : System A} → Reach size s → Step size s t → Reach size t
