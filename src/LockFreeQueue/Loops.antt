-- ===== src/LockFreeQueue/Loops.antt =====
-- The calls of include/lock_free_buffer_queue.h by a thread that no other thread disturbs: the steps of
-- a call one after the other, the loops of `try_push` and `try_pop`, and the constructor from a range.
-- `none` means that the fuel, a number of rounds, has run out.
use google_concurrency_libra.Base.{
  Bool, ℕ, zero, suc, true, false, Option, none, some, List, [], ◌∷◌, if◌then◌else◌,
}
use google_concurrency_libra.Outcome.{
  success, empty, full, closed, busy, Outcome, returned, thrown, fault, invalid_argument,
  copy_failed,
}
use google_concurrency_libra.LockFreeQueue.{LockFreeQueue, ValueState, construct, is_full}
use google_concurrency_libra.LockFreeQueue.Moves.{
  Place, push_start, pop_start, Answer, pushed, popped, threw, goes, ends, advance,
}

module _ {A : Type 0} (throws : A → Bool) (spurious : Bool) where
  unfoldable pub call : ℕ → LockFreeQueue A → Place A → Option (LockFreeQueue A × Answer A)
  unfolding advance
  call zero q p = none
  call (suc fuel) q p = elim (advance throws spurious q p) [
    | goes q' p' ↦ call fuel q' p'
    | ends q' answer ↦ some (q', answer)
  ]

  -- No call has more than six steps.
  unfoldable pub nonblocking_push : LockFreeQueue A → A → Option (LockFreeQueue A × Answer A)
  unfolding call
  nonblocking_push q x = call 6 q (push_start x)

  unfoldable pub nonblocking_pop : LockFreeQueue A → Option (LockFreeQueue A × Answer A)
  unfolding call
  nonblocking_pop q = call 6 q pop_start

  unfoldable pub is_busy : Answer A → Bool
  is_busy (pushed success) = false
  is_busy (pushed empty) = false
  is_busy (pushed full) = false
  is_busy (pushed closed) = false
  is_busy (pushed busy) = true
  is_busy (popped success x) = false
  is_busy (popped empty x) = false
  is_busy (popped full x) = false
  is_busy (popped closed x) = false
  is_busy (popped busy x) = true
  is_busy threw = false

  unfoldable pub try_push : ℕ → LockFreeQueue A → A → Option (LockFreeQueue A × Answer A)
  unfolding is_busy nonblocking_push
  try_push zero q x = none
  try_push (suc fuel) q x = elim (nonblocking_push q x) [
    | none ↦ none
    | some (q', answer) ↦
        let again = try_push fuel q' x in if is_busy answer then again else some (q', answer)
  ]

  unfoldable pub try_pop : ℕ → LockFreeQueue A → Option (LockFreeQueue A × Answer A)
  unfolding is_busy nonblocking_pop
  try_pop zero q = none
  try_pop (suc fuel) q = elim (nonblocking_pop q) [
    | none ↦ none
    | some (q', answer) ↦
        let again = try_pop fuel q' in if is_busy answer then again else some (q', answer)
  ]

  -- What the loop of `iter_init` makes of one answer: it tries again unless the push succeeded.
  unfoldable pub push_until : ℕ → LockFreeQueue A → A → Option (Outcome (LockFreeQueue A))
  unfolding try_push
  push_until zero q x = none
  push_until (suc fuel) q x = elim (try_push (suc fuel) q x) [
    | none ↦ none
    | some (q', pushed success) ↦ some (returned q')
    | some (q', threw) ↦ some (thrown copy_failed)
    | some (q', _) ↦ push_until fuel q' x
  ]

  unfoldable pub iter_init : ℕ → LockFreeQueue A → List A → Option (Outcome (LockFreeQueue A))
  unfolding push_until is_full
  iter_init fuel q [] = some (returned q)
  iter_init fuel q (x ∷ xs) =
      if is_full q then some (thrown invalid_argument) else elim (push_until fuel q x) [
        | none ↦ none
        | some (returned q') ↦ iter_init fuel q' xs
        | some (thrown e) ↦ some (thrown e)
        | some fault ↦ some fault
      ]

  -- The constructor from a range.
  unfoldable pub construct_from :
      ℕ → (ℕ → ValueState) → A → ℕ → List A → Option (Outcome (LockFreeQueue A))
  unfolding construct iter_init
  construct_from fuel states blank max_elems xs = elim (construct fuel states blank max_elems) [
    | none ↦ none
    | some (returned q) ↦ iter_init fuel q xs
    | some (thrown e) ↦ some (thrown e)
    | some fault ↦ some fault
  ]
