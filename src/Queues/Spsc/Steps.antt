-- ===== src/Queues/Spsc/Steps.antt =====
-- Every step of either thread keeps the invariant.
pub mod Change
pub mod Enqueue
pub mod Dequeue
use native.Mathlib.Nat.{add-mod_right}
use low_level_programming.Shared.{
  ℕ, zero, suc, ◌+◌, ◌-◌, ◌%◌, ◌^◌, ◌<◌, ◌≤◌, ◌≡◌, ◌≢◌, refl, sym, subst, ap, ◌∙◌, arith, Option,
  none, some, List, [], ◌∷◌, ◌++◌, map, length, length-append, append-nil, append_assoc, update,
  update_self, add64, inl, inr, Bool-cases, ◌==◌, ==→eq, ==→ne,
}
use native.Mathlib.Decide.{dec_lt}
use low_level_programming.Queues.Slots.{Cell, slot}
use low_level_programming.Queues.Spsc.{
  Spsc, Producer, Consumer, System, Step, enqueue, enqueue_pause, enqueue_pass, enqueue_write,
  enqueue_publish, enqueue_return, dequeue, dequeue_pause, dequeue_pass, dequeue_read,
  dequeue_release, dequeue_return, store_cell, put_value, put_sequence,
}
use low_level_programming.Queues.Spsc.Invariant.{
  wrap, Holds, IsFree, ProducerAt, ConsumerAt, first, in_hand, pending, IsSpsc, store_apart,
  Holds-frame, Holds-append,
}
use low_level_programming.Queues.Spsc.Steps.Change.{
  map-append, first-append, ConsumerAt-append, ProducerAt-release,
}
use low_level_programming.Queues.Spsc.Steps.Enqueue.{
  enqueue_pass-IsSpsc, enqueue_write-IsSpsc, enqueue_publish-IsSpsc,
}
use low_level_programming.Queues.Spsc.Steps.Dequeue.{
  dequeue_pass-IsSpsc, dequeue_read-IsSpsc, dequeue_release-IsSpsc,
}

module _ {ℓ} {A : Type ℓ} (size : ℕ) (at_least : 1 < size) (at_most : size < 2 ^ 64)
    (slot_lem : (i : ℕ) → slot size (wrap i) ≡ i % size) where
  enqueue-IsSpsc :
      (s : System A) (x : A)
      → s.producer ≡ Producer.idle
      → IsSpsc size s
      → IsSpsc size
          (record s { producer = Producer.waits s.queue.enqueue_ptr x; sent = s.sent ++ x ∷ [] })
  enqueue-IsSpsc s x at v =
      let t : ℕ = v.h + length v.held in
      let pa : ProducerAt size s.queue.cells s.queue.enqueue_ptr v.h t Producer.idle =
        subst (ProducerAt size s.queue.cells s.queue.enqueue_ptr v.h t) at v.producer_at in
      let log : s.received ++ (in_hand s.consumer ++ (map some v.held ++ [])) ≡ map some s.sent =
        subst
          (λ p.
            s.received ++ (in_hand s.consumer ++ (map some v.held ++ map some (pending p)))
            ≡ map some s.sent)
          at v.log in
      record {
        h = v.h;
        held = v.held;
        bound = v.bound;
        full = v.full;
        unused = v.unused;
        producer_at = pa;
        consumer_at = v.consumer_at;
        log =
            ap (λ l. s.received ++ (in_hand s.consumer ++ (l ++ some x ∷ [])))
              (sym (append-nil (map some v.held)))
            ∙ ap (λ l. s.received ++ l)
                (sym (append_assoc (in_hand s.consumer) (map some v.held ++ []) (some x ∷ [])))
            ∙ sym (
                append_assoc s.received (in_hand s.consumer ++ (map some v.held ++ []))
                  (some x ∷ []))
            ∙ ap (λ l. l ++ some x ∷ []) log
            ∙ sym (map-append some s.sent (x ∷ []));
      }

  enqueue_return-IsSpsc :
      (s : System A) (pos : ℕ)
      → s.producer ≡ Producer.published pos
      → IsSpsc size s
      → IsSpsc size (record s {
        queue = record s.queue { enqueue_ptr = add64 pos 1 };
        producer = Producer.idle;
      })
  enqueue_return-IsSpsc s pos at v =
      let t : ℕ = v.h + length v.held in
      let pa : ProducerAt size s.queue.cells s.queue.enqueue_ptr v.h t (Producer.published pos) =
        subst (ProducerAt size s.queue.cells s.queue.enqueue_ptr v.h t) at v.producer_at in
      record {
        h = v.h;
        held = v.held;
        bound = v.bound;
        full = v.full;
        unused = v.unused;
        producer_at = pa;
        consumer_at = v.consumer_at;
        log =
            subst
              (λ p.
                s.received ++ (in_hand s.consumer ++ (map some v.held ++ map some (pending p)))
                ≡ map some s.sent)
              at v.log;
      }

  dequeue-IsSpsc :
      (s : System A)
      → s.consumer ≡ Consumer.idle
      → IsSpsc size s
      → IsSpsc size (record s { consumer = Consumer.waits s.queue.dequeue_ptr })
  dequeue-IsSpsc s at v = record {
    h = v.h;
    held = v.held;
    bound = v.bound;
    full = v.full;
    unused = v.unused;
    producer_at = v.producer_at;
    consumer_at = subst (ConsumerAt s.queue.dequeue_ptr v.h v.held) at v.consumer_at;
    log =
        subst
          (λ c.
            s.received ++ (in_hand c ++ (map some v.held ++ map some (pending s.producer)))
            ≡ map some s.sent)
          at v.log;
  }

  dequeue_return-IsSpsc :
      (s : System A) (pos : ℕ) (w : Option A)
      → s.consumer ≡ Consumer.released pos w
      → IsSpsc size s
      → IsSpsc size (record s {
        queue = record s.queue { dequeue_ptr = add64 pos 1 };
        consumer = Consumer.idle;
        received = s.received ++ w ∷ [];
      })
  dequeue_return-IsSpsc s pos w at v = record {
    h = v.h;
    held = v.held;
    bound = v.bound;
    full = v.full;
    unused = v.unused;
    producer_at = v.producer_at;
    consumer_at = subst (ConsumerAt s.queue.dequeue_ptr v.h v.held) at v.consumer_at;
    log =
        append_assoc s.received (w ∷ []) (map some v.held ++ map some (pending s.producer))
        ∙ subst
            (λ c.
              s.received ++ (in_hand c ++ (map some v.held ++ map some (pending s.producer)))
              ≡ map some s.sent)
            at v.log;
  }

  pub Step-IsSpsc : {s s' : System A} → Step size s s' → IsSpsc size s → IsSpsc size s'
  Step-IsSpsc {s} (enqueue x at) v = enqueue-IsSpsc s x at v
  Step-IsSpsc {s} (enqueue_pause at ne) v = v
  Step-IsSpsc {s} (enqueue_pass {pos} {x} at seq) v =
      enqueue_pass-IsSpsc size at_least at_most slot_lem s v pos x at seq
  Step-IsSpsc {s} (enqueue_write {pos} {x} at) v =
      enqueue_write-IsSpsc size at_least at_most slot_lem s v pos x at
  Step-IsSpsc {s} (enqueue_publish {pos} {x} at) v =
      enqueue_publish-IsSpsc size at_least at_most slot_lem s v pos x at
  Step-IsSpsc {s} (enqueue_return {pos} at) v = enqueue_return-IsSpsc s pos at v
  Step-IsSpsc {s} (dequeue at) v = dequeue-IsSpsc s at v
  Step-IsSpsc {s} (dequeue_pause at ne) v = v
  Step-IsSpsc {s} (dequeue_pass {pos} at seq) v =
      dequeue_pass-IsSpsc size at_least at_most slot_lem s v pos at seq
  Step-IsSpsc {s} (dequeue_read {pos} at) v =
      dequeue_read-IsSpsc size at_least at_most slot_lem s v pos at
  Step-IsSpsc {s} (dequeue_release {pos} {v = w} at) v =
      dequeue_release-IsSpsc size at_least at_most slot_lem s v pos w at
  Step-IsSpsc {s} (dequeue_return {pos} {v = w} at) v = dequeue_return-IsSpsc s pos w at v
