-- ===== src/Outcome.antt =====
-- How a call of the library ends, and the status codes of include/queue_base.h.

-- `enum class queue_op_status`
pub data QueueOpStatus : Type 0 where
  success empty full closed busy : QueueOpStatus

-- The exceptions that the modelled code throws or lets through. `copy_failed` is any exception of
-- the user's own code: of an assignment, or of a completion function; `queue_closed` is a thrown `queue_op_status::closed`, `closed_error` the
-- class of include/closed_error.h.
pub data Exception : Type 0 where
  copy_failed queue_closed closed_error invalid_argument logic_error system_error : Exception

-- `fault` is undefined behaviour, such as a read outside an array.
pub data Outcome {ℓ} (R : Type ℓ) : Type ℓ where
  returned : R → Outcome R
  thrown : Exception → Outcome R
  fault : Outcome R
