-- ===== src/Queues/Spsc/Steps/Dequeue.antt =====
-- The steps of the consumer between the test of its loop and its return.
use native.Mathlib.Nat.{add-mod_right}
use low_level_programming.Shared.{
  ℕ, suc, ◌+◌, ◌%◌, ◌^◌, ◌<◌, ◌≤◌, ◌≡◌, sym, subst, ap, ◌∙◌, arith, Option, some, List, [], ◌∷◌,
  ◌++◌, map, length, update, update_self, add64,
}
use native.Mathlib.Decide.{dec_lt}
use low_level_programming.Queues.Slots.{Cell, slot}
use low_level_programming.Queues.Spsc.{Producer, Consumer, System, put_sequence}
use low_level_programming.Queues.Spsc.Invariant.{
  wrap, Holds, IsFree, ProducerAt, ConsumerAt, first, in_hand, pending, IsSpsc, store_apart,
  Holds-frame,
}
use low_level_programming.Queues.Spsc.Steps.Change.{ProducerAt-release}

module _ {ℓ} {A : Type ℓ} (size : ℕ) (at_least : 1 < size) (at_most : size < 2 ^ 64)
    (slot_lem : (i : ℕ) → slot size (wrap i) ≡ i % size) (s : System A) (v : IsSpsc size s) where
  abbrev t : ℕ
  t = v.h + length v.held

  abbrev cells : ℕ → Cell A
  cells = s.queue.cells

  abbrev At : Producer A → Type ℓ
  At p = ProducerAt size cells s.queue.enqueue_ptr v.h t p

  abbrev Log : Producer A → Consumer A → Type ℓ
  Log p c = s.received ++ (in_hand c ++ (map some v.held ++ map some (pending p))) ≡ map some s.sent

  slot_of : (pos i : ℕ) → pos ≡ wrap i → slot size pos ≡ i % size
  slot_of pos i e = ap (slot size) e ∙ slot_lem i

  pub dequeue_pass-IsSpsc :
      (pos : ℕ)
      → s.consumer ≡ Consumer.waits pos
      → (cells (slot size pos)).sequence ≡ add64 pos 1
      → IsSpsc size (record s { consumer = Consumer.reads pos })
  dequeue_pass-IsSpsc pos at seq =
      let ca : ConsumerAt s.queue.dequeue_ptr v.h v.held (Consumer.waits pos) =
        subst (ConsumerAt s.queue.dequeue_ptr v.h v.held) at v.consumer_at in
      let here : (cells (v.h % size)).sequence ≡ wrap (v.h + 1) =
        ap (λ i. (cells i).sequence) (sym (slot_of pos v.h ca.0)) ∙ seq ∙ (omega (arith, ca.0)) in
      record {
        h = v.h;
        held = v.held;
        bound = v.bound;
        full = v.full;
        unused = v.unused;
        producer_at = v.producer_at;
        consumer_at = (
          ca.0,
          elim (dec_lt 0 (length v.held)) [
            | yes some_held ↦ some_held
            | no empty ↦
                let free : (cells (v.h % size)).sequence ≡ wrap v.h =
                  v.unused v.h (omega arith) (omega arith) in
                absurd (omega arith)
          ],
          tt,
        );
        log = subst (Log s.producer) at v.log;
      }

  pub dequeue_read-IsSpsc :
      (pos : ℕ)
      → s.consumer ≡ Consumer.reads pos
      → IsSpsc size (record s { consumer = Consumer.has_read pos (cells (slot size pos)).value })
  dequeue_read-IsSpsc pos at =
      let ca : ConsumerAt s.queue.dequeue_ptr v.h v.held (Consumer.reads pos) =
        subst (ConsumerAt s.queue.dequeue_ptr v.h v.held) at v.consumer_at in
      record {
        h = v.h;
        held = v.held;
        bound = v.bound;
        full = v.full;
        unused = v.unused;
        producer_at = v.producer_at;
        consumer_at = (
          ca.0,
          ca.1,
          value_of v.held v.full ca.1 ∙ ap (λ i. (cells i).value) (sym (slot_of pos v.h ca.0)),
        );
        log = subst (Log s.producer) at v.log;
      }
    where
      value_of :
          (held : List A)
          → Holds size cells v.h held
          → 0 < length held
          → first held ≡ (cells (v.h % size)).value
      value_of [] full h = absurd (omega arith)
      value_of (x ∷ xs) full h = sym full.1

  pub dequeue_release-IsSpsc :
      (pos : ℕ) (w : Option A)
      → s.consumer ≡ Consumer.has_read pos w
      → IsSpsc size (record s {
        queue = put_sequence (slot size pos) (add64 pos size) s.queue;
        consumer = Consumer.released pos w;
      })
  dequeue_release-IsSpsc pos w at =
      go v.held v.bound v.full v.unused v.producer_at
        (subst (ConsumerAt s.queue.dequeue_ptr v.h v.held) at v.consumer_at)
        (subst (Log s.producer) at v.log)
    where
      go :
          (held : List A)
          → length held ≤ size
          → Holds size cells v.h held
          → IsFree size cells v.h (v.h + length held)
          → ProducerAt size cells s.queue.enqueue_ptr v.h (v.h + length held) s.producer
          → ConsumerAt s.queue.dequeue_ptr v.h held (Consumer.has_read pos w)
          → s.received ++ (map some held ++ map some (pending s.producer)) ≡ map some s.sent
          → IsSpsc size (record s {
            queue = put_sequence (slot size pos) (add64 pos size) s.queue;
            consumer = Consumer.released pos w;
          })
      go [] bound full unused pa ca log = absurd (omega (arith, ca.1))
      go (x ∷ xs) bound full unused pa ca log =
          let e : slot size pos ≡ v.h % size = slot_of pos v.h ca.0 in
          let cell : Cell A = record (cells (v.h % size)) { sequence = add64 pos size } in
          let fits : v.h + suc (length xs) ≡ v.h + 1 + length xs = omega arith in
          let spared : (i : ℕ)
              → v.h < i
              → i < v.h + size
              → update cells (v.h % size) cell (i % size) ≡ cells (i % size) =
            λ i lo hi. store_apart size cells v.h i cell (omega arith) (omega arith) hi in
          rw e (record {
            h = v.h + 1;
            held = xs;
            bound = omega arith;
            full =
                Holds-frame size cells (update cells (v.h % size) cell) (v.h + 1) xs
                  (λ i lo hi. spared i (omega arith) (omega arith)) full.2;
            unused = λ i lo hi. elim (dec_lt i (v.h + size)) [
              | yes old ↦ ap Cell.sequence (spared i (omega arith) old) ∙ unused i (omega arith) old
              | no new ↦
                  let same : v.h + size ≡ i = omega arith in
                  rw (← same, add-mod_right v.h size)
                    (ap Cell.sequence (update_self cells (v.h % size) cell) ∙ (omega (arith, ca.0)))
            ];
            producer_at =
                ProducerAt-release size cells (update cells (v.h % size) cell) s.queue.enqueue_ptr
                  v.h (v.h + suc (length xs)) (v.h + 1 + length xs) s.producer fits
                  (λ near. spared (v.h + suc (length xs)) (omega arith) near) pa;
            consumer_at = (omega (arith, ca.0), tt);
            log =
                ap (λ w. s.received ++ (w ∷ (map some xs ++ map some (pending s.producer))))
                  (sym ca.2)
                ∙ log;
          })
