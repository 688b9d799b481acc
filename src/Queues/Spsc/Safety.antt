-- ===== src/Queues/Spsc/Safety.antt =====
-- What holds in every state that the two threads can reach, with a ring of 2 ^ k cells.
use native.Mathlib.Nat.{mod-eq_of_lt, pow-le-pow_right}
use low_level_programming.Shared.{
  ◌⊎◌, ◌↔◌, ℕ, zero, suc, ◌+◌, ◌%◌, ◌^◌, ◌<◌, ◌≤◌, ◌≡◌, ◌≢◌, refl, sym, subst, ap, ap₂, ◌∙◌, arith,
  true, Option, none, some, List, [], ◌∷◌, ◌++◌, map, length, length-append, append-nil, add64, inl,
  inr, Bool-cases, ◌==◌, ==→eq,
}
use native.Mathlib.Decide.{dec_lt}
use low_level_programming.Queues.Slots.{Cell, slot, slot_wrap, init_cells, mod_apart}
use low_level_programming.Queues.Spsc.{
  Producer, Consumer, System, Reach, start, later, init, new, is_empty,
}
use low_level_programming.Queues.Spsc.Invariant.{
  wrap, Holds, ProducerAt, ConsumerAt, in_hand, pending, IsSpsc,
}
use low_level_programming.Queues.Spsc.Steps.{Step-IsSpsc}

init_cells-sequence {ℓ} :
    {A : Type ℓ} (n : ℕ) (c : ℕ → Cell A) (i : ℕ) → i < n → (init_cells n c i).sequence ≡ i
unfolding init_cells
init_cells-sequence zero c i lt = absurd (omega arith)
init_cells-sequence (suc n) c i lt = elim (Bool-cases (n == i)) [
  | inl here ↦ rw here (==→eq n i here)
  | inr there ↦ rw there (init_cells-sequence n c i (ground arith))
]

module _ (k : ℕ) (two_cells : 0 < k) (in_word : k < 64) where
  at_least : 1 < 2 ^ k
  at_least = omega (arith, pow-le-pow_right {n = 2} (omega arith) {i = 1} {j = k} (omega arith))

  at_most : 2 ^ k < 2 ^ 64
  at_most = omega (arith, pow-le-pow_right {n = 2} (omega arith) {i = k} {j = 63} (omega arith))

  at_slot : (pos i : ℕ) → pos ≡ wrap i → slot (2 ^ k) pos ≡ i % 2 ^ k
  at_slot pos i e = ap (slot (2 ^ k)) e ∙ slot_wrap k i (omega arith)

length-map {ℓ κ} :
    {A : Type ℓ} {B : Type κ} (f : A → B) (xs : List A) → length (map f xs) ≡ length xs
length-map f [] = refl
length-map f (x ∷ xs) = ap suc (length-map f xs)

module _ {ℓ} {A : Type ℓ} where
  in_hand_le : (c : Consumer A) → length (in_hand c) ≤ 1
  in_hand_le Consumer.idle = omega arith
  in_hand_le (Consumer.waits _) = omega arith
  in_hand_le (Consumer.reads _) = omega arith
  in_hand_le (Consumer.has_read _ _) = omega arith
  in_hand_le (Consumer.released _ _) = omega arith

  pending_le : (p : Producer A) → length (map some (pending p)) ≤ 1
  pending_le Producer.idle = omega arith
  pending_le (Producer.waits _ _) = omega arith
  pending_le (Producer.writes _ _) = omega arith
  pending_le (Producer.wrote _ _) = omega arith
  pending_le (Producer.published _) = omega arith

  front :
      (size h : ℕ) (c : ℕ → Cell A) (held : List A)
      → Holds size c h held
      → 0 < length held
      → (c (h % size)).sequence ≡ wrap (h + 1)
  front size h c [] full pos = absurd (omega arith)
  front size h c (x ∷ xs) full pos = full.0

  emptied :
      (received : List (Option A)) (sent held : List A)
      → length held ≡ 0
      → received ++ (map some held ++ []) ≡ map some sent
      → received ≡ map some sent
  emptied received sent [] e log = sym (append-nil received) ∙ log
  emptied received sent (x ∷ xs) e log = absurd (omega arith)

module _ {ℓ} {A : Type ℓ} (k : ℕ) (two_cells : 0 < k) (in_word : k < 64) where
  init-IsSpsc : IsSpsc (2 ^ k) (init {A = A} (2 ^ k))
  unfolding new
  init-IsSpsc = record {
    h = 0;
    held = [];
    bound = omega arith;
    full = tt;
    unused = λ i lo hi.
        let small : i < 2 ^ k = omega arith in
        rw (mod-eq_of_lt small) (
          init_cells-sequence (2 ^ k) (λ _. record { sequence = 0; value = none }) i small
          ∙ sym (mod-eq_of_lt (omega (arith, at_most k two_cells in_word))));
    producer_at = (refl, tt);
    consumer_at = (refl, tt);
    log = refl;
  }

  pub Reach-IsSpsc : {s : System A} → Reach (2 ^ k) s → IsSpsc (2 ^ k) s
  Reach-IsSpsc start = init-IsSpsc
  Reach-IsSpsc (later r st) =
      Step-IsSpsc (2 ^ k) (at_least k two_cells in_word) (at_most k two_cells in_word)
        (λ i. slot_wrap k i (omega arith)) st (Reach-IsSpsc r)

  module _ {s : System A} (r : Reach (2 ^ k) s) where
    abbrev valid : IsSpsc (2 ^ k) s
    valid = Reach-IsSpsc r

    -- In every state that the two threads reach with a ring of 2^k cells, 0 < k < 64, the values
    -- that dequeue returned, with at most 2^k + 2 more, are the values that were passed to enqueue,
    -- in their order.
    pub in_order :
        (rest : List (Option A)) × (s.received ++ rest ≡ map some s.sent)
        × (length rest ≤ 2 ^ k + 2)
    in_order = (
      in_hand s.consumer ++ (map some valid.held ++ map some (pending s.producer)),
      valid.log,
      omega (
        arith,
        valid.bound,
        length-append (in_hand s.consumer) (map some valid.held ++ map some (pending s.producer)),
        length-append (map some valid.held) (map some (pending s.producer)),
        length-map some valid.held,
        in_hand_le s.consumer,
        pending_le s.producer,
      ),
    )

    -- In every state that the two threads reach with a ring of 2^k cells, 0 < k < 64, when one is
    -- about to write a value and the other to read one, they are at different cells.
    pub no_race :
        {pos pos' : ℕ} {x : A}
        → s.producer ≡ Producer.writes pos x
        → s.consumer ≡ Consumer.reads pos'
        → slot (2 ^ k) pos ≢ slot (2 ^ k) pos'
    no_race {pos} {pos'} {x} p c same =
        let v = valid in
        let t : ℕ = v.h + length v.held in
        let pa : ProducerAt (2 ^ k) s.queue.cells s.queue.enqueue_ptr v.h t
            (Producer.writes pos x) =
          subst (ProducerAt (2 ^ k) s.queue.cells s.queue.enqueue_ptr v.h t) p v.producer_at in
        let ca : ConsumerAt s.queue.dequeue_ptr v.h v.held (Consumer.reads pos') =
          subst (ConsumerAt s.queue.dequeue_ptr v.h v.held) c v.consumer_at in
        mod_apart (2 ^ k) v.h t (omega (arith, ca.1)) pa.1 (
          sym (at_slot k two_cells in_word pos' v.h ca.0)
          ∙ sym same
          ∙ at_slot k two_cells in_word pos t pa.0)

    -- In every state that the two threads reach with a ring of 2^k cells, 0 < k < 64, when both are
    -- at the test of their loops, the test of one of them lets it go on.
    pub one_goes_on :
        {pos pos' : ℕ} {x : A}
        → s.producer ≡ Producer.waits pos x
        → s.consumer ≡ Consumer.waits pos'
        → ((s.queue.cells (slot (2 ^ k) pos)).sequence ≡ pos)
          ⊎ ((s.queue.cells (slot (2 ^ k) pos')).sequence ≡ add64 pos' 1)
    one_goes_on {pos} {pos'} {x} p c =
        let v = valid in
        let t : ℕ = v.h + length v.held in
        let pa : ProducerAt (2 ^ k) s.queue.cells s.queue.enqueue_ptr v.h t (Producer.waits pos x) =
          subst (ProducerAt (2 ^ k) s.queue.cells s.queue.enqueue_ptr v.h t) p v.producer_at in
        let ca : ConsumerAt s.queue.dequeue_ptr v.h v.held (Consumer.waits pos') =
          subst (ConsumerAt s.queue.dequeue_ptr v.h v.held) c v.consumer_at in
        elim (dec_lt (length v.held) (2 ^ k)) [
          | yes room ↦ inl (
              ap (λ i. (s.queue.cells i).sequence) (at_slot k two_cells in_word pos t pa.0)
              ∙ v.unused t (omega arith) (omega arith)
              ∙ sym pa.0)
          | no full ↦ inr (
              ap (λ i. (s.queue.cells i).sequence) (at_slot k two_cells in_word pos' v.h ca.0)
              ∙ front (2 ^ k) v.h s.queue.cells v.held v.full
                  (omega (arith, at_least k two_cells in_word))
              ∙ (omega (arith, ca.0)))
        ]

    -- In every state that the two threads reach with a ring of 2^k cells, 0 < k < 64, when both are
    -- between calls, the queue says that it is empty exactly when every value that was passed to
    -- enqueue was returned by dequeue.
    pub is_empty_iff :
        s.producer ≡ Producer.idle
        → s.consumer ≡ Consumer.idle
        → (is_empty s.queue ≡ true) ↔ (s.received ≡ map some s.sent)
    unfolding is_empty
    is_empty_iff p c =
        let v = valid in
        let t : ℕ = v.h + length v.held in
        let pa : ProducerAt (2 ^ k) s.queue.cells s.queue.enqueue_ptr v.h t Producer.idle =
          subst (ProducerAt (2 ^ k) s.queue.cells s.queue.enqueue_ptr v.h t) p v.producer_at in
        let ca : ConsumerAt s.queue.dequeue_ptr v.h v.held Consumer.idle =
          subst (ConsumerAt s.queue.dequeue_ptr v.h v.held) c v.consumer_at in
        let log : s.received ++ (map some v.held ++ []) ≡ map some s.sent =
          ap₂ (λ d q. s.received ++ (in_hand d ++ (map some v.held ++ map some (pending q))))
            (sym c) (sym p)
          ∙ v.log in
        (
          (λ e.
              let same : s.queue.enqueue_ptr ≡ s.queue.dequeue_ptr =
                ==→eq s.queue.enqueue_ptr s.queue.dequeue_ptr e in
              let none_held : length v.held ≡ 0 =
                omega (arith, pa.0, ca.0, same, v.bound, at_most k two_cells in_word) in
              emptied s.received s.sent v.held none_held log),
          λ e.
              let total : length s.received + length v.held ≡ length s.received = omega (
                arith,
                ap length log,
                ap length e,
                length-append s.received (map some v.held ++ []),
                length-append (map some v.held) [],
                length-map some v.held,
              ) in
              let same : s.queue.enqueue_ptr ≡ s.queue.dequeue_ptr =
                pa.0 ∙ ap wrap (omega arith) ∙ sym ca.0 in
              ground arith,
        )
