-- ===== src/Queues/Spsc/Steps/Change.antt =====
-- What a new value and a cell given back mean for the two threads.
use low_level_programming.Shared.{
  ℕ, ◌+◌, ◌%◌, ◌<◌, ◌≡◌, refl, sym, ap, ◌∙◌, arith, List, [], ◌∷◌, ◌++◌, map, length, length-append,
}
use low_level_programming.Queues.Slots.{Cell}
use low_level_programming.Queues.Spsc.{Producer, Consumer}
use low_level_programming.Queues.Spsc.Invariant.{wrap, ProducerAt, ConsumerAt, first}

pub map-append {ℓ κ} :
    {A : Type ℓ} {B : Type κ} (f : A → B) (xs ys : List A) → map f (xs ++ ys) ≡ map f xs ++ map f ys
map-append f [] ys = refl
map-append f (x ∷ xs) ys = ap (λ t. f x ∷ t) (map-append f xs ys)

pub first-append {ℓ} : {A : Type ℓ} (xs ys : List A) → 0 < length xs → first (xs ++ ys) ≡ first xs
first-append [] ys h = absurd (omega arith)
first-append (x ∷ xs) ys h = refl

-- A new value at the back is no concern of the consumer.
pub ConsumerAt-append {ℓ} :
    {A : Type ℓ} (ptr h : ℕ) (held : List A) (x : A) (c : Consumer A)
    → ConsumerAt ptr h held c
    → ConsumerAt ptr h (held ++ x ∷ []) c
ConsumerAt-append ptr h held x Consumer.idle ca = ca
ConsumerAt-append ptr h held x (Consumer.waits pos) ca = ca
ConsumerAt-append ptr h held x (Consumer.reads pos) ca =
    (ca.0, omega (arith, ca.1, length-append held (x ∷ [])), tt)
ConsumerAt-append ptr h held x (Consumer.has_read pos v) ca =
    (ca.0, omega (arith, ca.1, length-append held (x ∷ [])), first-append held (x ∷ []) ca.1 ∙ ca.2)
ConsumerAt-append ptr h held x (Consumer.released pos v) ca = ca

-- The consumer gives a cell back: the window of the producer grows.
pub ProducerAt-release {ℓ} :
    {A : Type ℓ} (size : ℕ) (c c' : ℕ → Cell A) (ptr h t t' : ℕ) (p : Producer A)
    → t ≡ t'
    → (t < h + size → c' (t % size) ≡ c (t % size))
    → ProducerAt size c ptr h t p
    → ProducerAt size c' ptr (h + 1) t' p
ProducerAt-release size c c' ptr h t t' Producer.idle e same pa = (pa.0 ∙ ap wrap e, tt)
ProducerAt-release size c c' ptr h t t' (Producer.waits pos x) e same pa = (pa.0 ∙ ap wrap e, tt)
ProducerAt-release size c c' ptr h t t' (Producer.writes pos x) e same pa =
    (pa.0 ∙ ap wrap e, omega arith, tt)
ProducerAt-release size c c' ptr h t t' (Producer.wrote pos x) e same pa = (
  pa.0 ∙ ap wrap e,
  omega arith,
  ap (λ i. (c' (i % size)).value) (sym e) ∙ ap Cell.value (same pa.1) ∙ pa.2,
)
ProducerAt-release size c c' ptr h t t' (Producer.published pos) e same pa = (pa.0 ∙ ap wrap e, tt)
