-- ===== src/Shared/Results.antt =====
-- What a run of C++ code ends with: a value, undefined behaviour, or an exception.

pub data Outcome {ℓ} (A : Type ℓ) : Type ℓ where
  ok : A → Outcome A
  -- an access that C++ leaves undefined
  fault : Outcome A
  -- a C++ exception
  thrown : Outcome A
  -- no outcome of the code: a loop of the model ran out of fuel
  stuck : Outcome A

-- What follows runs on a value alone.
infixl 5 ◌>>=◌
abbrev pub ◌>>=◌ {ℓ κ} :
    {A : Type ℓ} {B : Type κ} (run : Outcome A) (next : A → Outcome B) → Outcome B
fault >>= next = fault
thrown >>= next = thrown
stuck >>= next = stuck
ok value >>= next = next value
