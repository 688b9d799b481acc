-- ===== src/Queues/Spsc/Invariant.antt =====
-- What the cells and the two threads stand for: `held`, the values between the logical positions `h`
-- and `h + length held`, which are counted without a wrap.
use low_level_programming.Shared.{
  ℕ, suc, ◌+◌, ◌%◌, ◌^◌, ◌<◌, ◌≤◌, ◌≡◌, ◌≢◌, sym, ap, ◌∙◌, arith, Option, none, some, List, [], ◌∷◌,
  ◌++◌, map, length, update, add64, update_ne,
}
use native.Mathlib.Decide.{dec_lt}
use low_level_programming.Queues.Slots.{Cell, mod_apart}
use low_level_programming.Queues.Spsc.{Producer, Consumer, System}

abbrev pub wrap : ℕ → ℕ
wrap n = n % 2 ^ 64

module _ {ℓ} {A : Type ℓ} where
  abbrev pub Holds : (size : ℕ) → (ℕ → Cell A) → ℕ → List A → Type ℓ
  Holds size c h [] = Unit
  Holds size c h (x ∷ xs) =
      ((c (h % size)).sequence ≡ wrap (h + 1))
      × ((c (h % size)).value ≡ some x)
      × Holds size c (h + 1) xs

  abbrev pub IsFree : (size : ℕ) → (ℕ → Cell A) → (h t : ℕ) → Type 0
  IsFree size c h t = (i : ℕ) → t ≤ i → i < h + size → (c (i % size)).sequence ≡ wrap i

  abbrev pub ProducerAt : (size : ℕ) → (ℕ → Cell A) → (ptr h t : ℕ) → Producer A → Type ℓ
  ProducerAt size c ptr h t Producer.idle = (ptr ≡ wrap t) × Unit {ℓ}
  ProducerAt size c ptr h t (Producer.waits pos x) = (pos ≡ wrap t) × Unit {ℓ}
  ProducerAt size c ptr h t (Producer.writes pos x) = (pos ≡ wrap t) × (t < h + size) × Unit {ℓ}
  ProducerAt size c ptr h t (Producer.wrote pos x) =
      (pos ≡ wrap t) × (t < h + size) × ((c (t % size)).value ≡ some x)
  ProducerAt size c ptr h t (Producer.published pos) = (add64 pos 1 ≡ wrap t) × Unit {ℓ}

  abbrev pub first : List A → Option A
  first [] = none
  first (x ∷ xs) = some x

  abbrev pub ConsumerAt : (ptr h : ℕ) → List A → Consumer A → Type ℓ
  ConsumerAt ptr h held Consumer.idle = (ptr ≡ wrap h) × Unit {ℓ}
  ConsumerAt ptr h held (Consumer.waits pos) = (pos ≡ wrap h) × Unit {ℓ}
  ConsumerAt ptr h held (Consumer.reads pos) = (pos ≡ wrap h) × (0 < length held) × Unit {ℓ}
  ConsumerAt ptr h held (Consumer.has_read pos v) =
      (pos ≡ wrap h) × (0 < length held) × (first held ≡ v)
  ConsumerAt ptr h held (Consumer.released pos v) = (add64 pos 1 ≡ wrap h) × Unit {ℓ}

  -- what is out of the cells and not returned yet, and what is not in them yet
  abbrev pub in_hand : Consumer A → List (Option A)
  in_hand (Consumer.released pos v) = v ∷ []
  in_hand Consumer.idle = []
  in_hand (Consumer.waits _) = []
  in_hand (Consumer.reads _) = []
  in_hand (Consumer.has_read _ _) = []

  abbrev pub pending : Producer A → List A
  pending (Producer.waits pos x) = x ∷ []
  pending (Producer.writes pos x) = x ∷ []
  pending (Producer.wrote pos x) = x ∷ []
  pending Producer.idle = []
  pending (Producer.published _) = []

  pub record IsSpsc (size : ℕ) (s : System A) : Type ℓ where
    pub h : ℕ
    pub held : List A
    pub bound : length held ≤ size
    pub full : Holds size s.queue.cells h held
    pub unused : IsFree size s.queue.cells h (h + length held)
    pub producer_at :
        ProducerAt size s.queue.cells s.queue.enqueue_ptr h (h + length held) s.producer
    pub consumer_at : ConsumerAt s.queue.dequeue_ptr h held s.consumer
    pub log :
        s.received ++ (in_hand s.consumer ++ (map some held ++ map some (pending s.producer)))
        ≡ map some s.sent

  -- A store into a cell spares the cells of the other positions of the window.
  pub store_apart :
      (size : ℕ) (c : ℕ → Cell A) (i j : ℕ) (cell : Cell A)
      → i ≢ j
      → i < j + size
      → j < i + size
      → update c (i % size) cell (j % size) ≡ c (j % size)
  store_apart size c i j cell ne near near' =
      update_ne c (i % size) (j % size) cell (elim (dec_lt i j) [
        | yes lt ↦ mod_apart size i j lt near'
        | no ge ↦ λ e. mod_apart size j i (omega arith) near (sym e)
      ])

  pub Holds-frame :
      (size : ℕ) (c c' : ℕ → Cell A) (h : ℕ) (xs : List A)
      → ((i : ℕ) → h ≤ i → i < h + length xs → c' (i % size) ≡ c (i % size))
      → Holds size c h xs
      → Holds size c' h xs
  Holds-frame size c c' h [] same v = tt
  Holds-frame size c c' h (x ∷ xs) same v =
      let e : c' (h % size) ≡ c (h % size) = same h (omega arith) (omega arith) in
      (
        ap Cell.sequence e ∙ v.0,
        ap Cell.value e ∙ v.1,
        Holds-frame size c c' (h + 1) xs (λ i lo hi. same i (omega arith) (omega arith)) v.2,
      )

  pub Holds-append :
      (size : ℕ) (c : ℕ → Cell A) (h : ℕ) (xs : List A) (x : A)
      → Holds size c h xs
      → (c ((h + length xs) % size)).sequence ≡ wrap (h + length xs + 1)
      → (c ((h + length xs) % size)).value ≡ some x
      → Holds size c h (xs ++ x ∷ [])
  Holds-append size c h [] x v s e =
      let at : h + 0 ≡ h = omega arith in (rw at at s, rw at at e, tt)
  Holds-append size c h (y ∷ ys) x v s e =
      let at : h + suc (length ys) ≡ h + 1 + length ys = omega arith in
      (v.0, v.1, Holds-append size c (h + 1) ys x v.2 (rw at at s) (rw at at e))
