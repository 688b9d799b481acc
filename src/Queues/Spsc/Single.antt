-- ===== src/Queues/Spsc/Single.antt =====
-- A ring of one cell, which the `static_assert` of `spsc_queue` lets through: position 1 finds the
-- sequence number 1 in the cell that position 0 has just filled.
use low_level_programming.Shared.{◌≡◌, refl, some, [], ◌∷◌}
use low_level_programming.Queues.Slots.{slot}
use low_level_programming.Queues.Spsc.{
  System, Producer, Reach, start, later, new, enqueue, enqueue_pass, enqueue_write, enqueue_publish,
  enqueue_return,
}

module _ {ℓ} {A : Type ℓ} (x y : A) where
  once : (s : System A) × Reach 1 s × (s.producer ≡ Producer.idle)
  unfolding new slot
  once = (
    _,
    later
        (later
          (later (later (later start (enqueue x refl)) (enqueue_pass refl refl))
            (enqueue_write refl))
          (enqueue_publish refl))
        (enqueue_return refl),
    refl,
  )

  -- With a ring of one cell, which the static assertion admits, the threads reach a state in which
  -- two values were sent, none was received, and the only cell holds the second.
  pub one_cell_overwrites :
      (s : System A) × Reach 1 s
      × (s.producer ≡ Producer.idle)
      × (s.sent ≡ x ∷ y ∷ [])
      × (s.received ≡ [])
      × ((s.queue.cells 0).value ≡ some y)
  unfolding new slot once
  one_cell_overwrites =
      let (s, r, at) = once in
      (
        _,
        later
            (later
              (later (later (later r (enqueue y refl)) (enqueue_pass refl refl))
                (enqueue_write refl))
              (enqueue_publish refl))
            (enqueue_return refl),
        refl,
        refl,
        refl,
        refl,
      )
