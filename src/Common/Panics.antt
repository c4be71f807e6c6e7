-- ===== src/Common/Panics.antt =====
-- What a call that may panic gives. `panic` prints, cleans up and ends the process
-- (sim/include/debug.hh).
pub data Outcome {ℓ} (A : Type ℓ) : Type ℓ where
  done : A → Outcome A
  panicked : Outcome A
