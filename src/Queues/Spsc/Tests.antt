-- ===== src/Queues/Spsc/Tests.antt =====
-- A ring of two cells.
use low_level_programming.Shared.{
  ◌⊎◌, ◌↔◌, ℕ, ◌+◌, ◌^◌, ◌≤◌, ◌≡◌, ◌≢◌, refl, arith, true, Option, some, List, [], ◌∷◌, ◌++◌, map,
  length, add64,
}
use low_level_programming.Queues.Slots.{slot}
use low_level_programming.Queues.Spsc.{
  System, Producer, Reach, start, later, new, is_empty, enqueue, enqueue_pass, enqueue_write,
  enqueue_publish, enqueue_return, dequeue, dequeue_pass,
}
use low_level_programming.Queues.Spsc.Safety.{in_order, no_race, one_goes_on, is_empty_iff}
use low_level_programming.Queues.Spsc.Single.{one_cell_overwrites}

-- one value in the ring, and both threads between two calls
abbrev filled : (s : System ℕ) × Reach 2 s
unfolding new slot
filled = (
  _,
  later
      (later
        (later (later (later start (enqueue 5 refl)) (enqueue_pass refl refl)) (enqueue_write refl))
        (enqueue_publish refl))
      (enqueue_return refl),
)

-- both at the tests of their loops
abbrev waiting : (s : System ℕ) × Reach 2 s
unfolding new slot
waiting = (_, later (later filled.1 (enqueue 6 refl)) (dequeue refl))

-- both at the cells
abbrev racing : (s : System ℕ) × Reach 2 s
unfolding new slot
racing = (_, later (later waiting.1 (enqueue_pass refl refl)) (dequeue_pass refl refl))

in_order_example :
    (rest : List (Option ℕ)) × (racing.0.received ++ rest ≡ map some racing.0.sent)
    × (length rest ≤ 2 ^ 1 + 2)
in_order_example = in_order 1 (omega arith) (omega arith) racing.1

no_race_example : slot (2 ^ 1) 1 ≢ slot (2 ^ 1) 0
unfolding new slot
no_race_example = no_race 1 (omega arith) (omega arith) racing.1 refl refl

one_goes_on_example :
    ((waiting.0.queue.cells (slot (2 ^ 1) 1)).sequence ≡ 1)
    ⊎ ((waiting.0.queue.cells (slot (2 ^ 1) 0)).sequence ≡ add64 0 1)
unfolding new slot
one_goes_on_example = one_goes_on 1 (omega arith) (omega arith) waiting.1 refl refl

is_empty_iff_example :
    (is_empty filled.0.queue ≡ true) ↔ (filled.0.received ≡ map some filled.0.sent)
unfolding new slot
is_empty_iff_example = is_empty_iff 1 (omega arith) (omega arith) filled.1 refl refl

one_cell_overwrites_example :
    (s : System ℕ) × Reach 1 s
    × (s.producer ≡ Producer.idle)
    × (s.sent ≡ 4 ∷ 5 ∷ [])
    × (s.received ≡ [])
    × ((s.queue.cells 0).value ≡ some 5)
one_cell_overwrites_example = one_cell_overwrites 4 5
