-- ===== src/Common/Outcome.antt =====
-- The outcome of a Go call: a value, an error value, or a panic of the runtime.
pub data Result {ℓ} (E A : Type ℓ) : Type ℓ where
  ok : A → Result E A
  err : E → Result E A
  panic : Result E A
