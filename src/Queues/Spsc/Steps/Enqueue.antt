-- ===== src/Queues/Spsc/Steps/Enqueue.antt =====
-- The steps of the producer between the test of its loop and its return.
use native.Mathlib.Nat.{add-mod_right}
use low_level_programming.Shared.{
  ℕ, ◌+◌, ◌%◌, ◌^◌, ◌<◌, ◌≤◌, ◌≡◌, sym, subst, ap, ◌∙◌, arith, some, List, [], ◌∷◌, ◌++◌, map,
  length, length-append, append-nil, update, update_self, add64, inl, inr, Bool-cases, ◌==◌, ==→eq,
  ==→ne,
}
use native.Mathlib.Decide.{dec_lt}
use low_level_programming.Queues.Slots.{Cell, slot}
use low_level_programming.Queues.Spsc.{Producer, Consumer, System, put_value, put_sequence}
use low_level_programming.Queues.Spsc.Invariant.{
  wrap, Holds, ProducerAt, in_hand, pending, IsSpsc, store_apart, Holds-frame, Holds-append,
}
use low_level_programming.Queues.Spsc.Steps.Change.{map-append, ConsumerAt-append}

module _ {ℓ} {A : Type ℓ} (size : ℕ) (at_least : 1 < size) (at_most : size < 2 ^ 64)
    (slot_lem : (i : ℕ) → slot size (wrap i) ≡ i % size) (s : System A) (v : IsSpsc size s) where
  abbrev t : ℕ
  t = v.h + length v.held

  abbrev cells : ℕ → Cell A
  cells = s.queue.cells

  abbrev At : Producer A → Type ℓ
  At p = ProducerAt size cells s.queue.enqueue_ptr v.h t p

  abbrev Log : Producer A → Consumer A → Type ℓ
  Log p c = s.received ++ (in_hand c ++ (map some v.held ++ map some (pending p))) ≡ map some s.sent

  slot_of : (pos i : ℕ) → pos ≡ wrap i → slot size pos ≡ i % size
  slot_of pos i e = ap (slot size) e ∙ slot_lem i

  pub enqueue_pass-IsSpsc :
      (pos : ℕ) (x : A)
      → s.producer ≡ Producer.waits pos x
      → (cells (slot size pos)).sequence ≡ pos
      → IsSpsc size (record s { producer = Producer.writes pos x })
  enqueue_pass-IsSpsc pos x at seq =
      let pa : At (Producer.waits pos x) = subst At at v.producer_at in
      record {
        h = v.h;
        held = v.held;
        bound = v.bound;
        full = v.full;
        unused = v.unused;
        producer_at = (
          pa.0,
          not_full v.held v.bound v.full
              (ap (λ i. (cells i).sequence) (sym (slot_of pos t pa.0)) ∙ seq ∙ pa.0),
          tt,
        );
        consumer_at = v.consumer_at;
        log = subst (λ p. Log p s.consumer) at v.log;
      }
    where
      -- a full ring has the sequence number of the round before
      not_full :
          (held : List A)
          → length held ≤ size
          → Holds size cells v.h held
          → (cells ((v.h + length held) % size)).sequence ≡ wrap (v.h + length held)
          → v.h + length held < v.h + size
      not_full held le full seq = elim (dec_lt (length held) size) [
        | yes lt ↦ omega arith
        | no ge ↦
            let n : length held ≡ size = omega arith in
            absurd (
              clash held full n (
                ap (λ i. (cells i).sequence) (sym (add-mod_right v.h size))
                ∙ ap (λ n. (cells ((v.h + n) % size)).sequence) (sym n)
                ∙ seq
                ∙ ap (λ n. wrap (v.h + n)) n))
      ]
        where
          clash :
              (held : List A)
              → Holds size cells v.h held
              → length held ≡ size
              → (cells (v.h % size)).sequence ≡ wrap (v.h + size)
              → ⊥
          clash [] full n e = omega arith
          clash (y ∷ ys) full n e =
              let same : wrap (v.h + 1) ≡ wrap (v.h + size) = sym full.0 ∙ e in omega arith

  pub enqueue_write-IsSpsc :
      (pos : ℕ) (x : A)
      → s.producer ≡ Producer.writes pos x
      → IsSpsc size (record s {
        queue = put_value (slot size pos) x s.queue;
        producer = Producer.wrote pos x;
      })
  enqueue_write-IsSpsc pos x at =
      let pa : At (Producer.writes pos x) = subst At at v.producer_at in
      let e : slot size pos ≡ t % size = slot_of pos t pa.0 in
      let cell : Cell A = record (cells (t % size)) { value = some x } in
      rw e (record {
        h = v.h;
        held = v.held;
        bound = v.bound;
        full =
            Holds-frame size cells (update cells (t % size) cell) v.h v.held
              (λ i lo hi. store_apart size cells t i cell (omega arith) (omega arith) (omega arith))
              v.full;
        unused = λ i lo hi. elim (Bool-cases (t == i)) [
          | inl here ↦
              let same : t ≡ i = ==→eq t i here in
              rw (← same) (
                ap Cell.sequence (update_self cells (t % size) cell)
                ∙ v.unused t (omega arith) pa.1)
          | inr there ↦
              ap Cell.sequence
                (store_apart size cells t i cell (==→ne t i there) (omega arith) (omega arith))
              ∙ v.unused i lo hi
        ];
        producer_at = (pa.0, pa.1, ap Cell.value (update_self cells (t % size) cell));
        consumer_at = v.consumer_at;
        log = subst (λ p. Log p s.consumer) at v.log;
      })

  pub enqueue_publish-IsSpsc :
      (pos : ℕ) (x : A)
      → s.producer ≡ Producer.wrote pos x
      → IsSpsc size (record s {
        queue = put_sequence (slot size pos) (add64 pos 1) s.queue;
        producer = Producer.published pos;
      })
  enqueue_publish-IsSpsc pos x at =
      let pa : At (Producer.wrote pos x) = subst At at v.producer_at in
      let e : slot size pos ≡ t % size = slot_of pos t pa.0 in
      let cell : Cell A = record (cells (t % size)) { sequence = add64 pos 1 } in
      let next : add64 pos 1 ≡ wrap (t + 1) = omega (arith, pa.0) in
      let longer : length (v.held ++ x ∷ []) ≡ length v.held + 1 = length-append v.held (x ∷ []) in
      rw e (record {
        h = v.h;
        held = v.held ++ x ∷ [];
        bound = omega (arith, pa.1);
        full =
            Holds-append size (update cells (t % size) cell) v.h v.held x
              (Holds-frame size cells (update cells (t % size) cell) v.h v.held
                (λ i lo hi.
                  store_apart size cells t i cell (omega arith) (omega arith) (omega arith))
                v.full)
              (ap Cell.sequence (update_self cells (t % size) cell) ∙ next)
              (ap Cell.value (update_self cells (t % size) cell) ∙ pa.2);
        unused = λ i lo hi.
            ap Cell.sequence
              (store_apart size cells t i cell (omega arith) (omega arith) (omega arith))
            ∙ v.unused i (omega arith) hi;
        producer_at = (rw longer (next ∙ ap wrap (omega arith)), tt);
        consumer_at = ConsumerAt-append s.queue.dequeue_ptr v.h v.held x s.consumer v.consumer_at;
        log =
            ap (λ l. s.received ++ (in_hand s.consumer ++ l))
              (append-nil (map some (v.held ++ x ∷ [])) ∙ map-append some v.held (x ∷ []))
            ∙ subst (λ p. Log p s.consumer) at v.log;
      })
