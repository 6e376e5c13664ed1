-- ===== src/BufferQueue/Calls.antt =====
-- The calls of include/buffer_queue.h that do not wait, as one step function.
use google_concurrency_libra.Base.{Bool, List, [], ◌∷◌}
use google_concurrency_libra.BufferQueue.{
  BufferQueue, close, is_closed, is_empty, try_pop, try_push, nonblocking_pop, nonblocking_push,
}
use google_concurrency_libra.BufferQueue.Fifo.{
  Call, closes, asks_closed, asks_empty, pops, pushes, nonblocking_pops, nonblocking_pushes, Reply,
  done, answer, pushed, popped,
}

module _ {ℓ} {A : Type ℓ} (throws : A → Bool) where
  unfoldable pub step : BufferQueue A → Call A → BufferQueue A × Reply A
  step q closes = ((close q).after, done)
  step q asks_closed = (q, answer (is_closed q))
  step q asks_empty = (q, answer (is_empty q))
  step q pops = let s = try_pop throws q in (s.after, popped s.outcome)
  step q (pushes a) = let s = try_push throws q a in (s.after, pushed s.outcome)
  step q (nonblocking_pops owns_lock) =
      let s = nonblocking_pop throws owns_lock q in (s.after, popped s.outcome)
  step q (nonblocking_pushes owns_lock a) =
      let s = nonblocking_push throws owns_lock q a in (s.after, pushed s.outcome)

  -- A client's calls in order, with what each returns.
  unfoldable pub run : BufferQueue A → List (Call A) → List (Reply A)
  run q [] = []
  run q (c ∷ cs) = let (q', r) = step q c in r ∷ run q' cs

  -- The queue after the calls.
  unfoldable pub run_state : BufferQueue A → List (Call A) → BufferQueue A
  run_state q [] = q
  run_state q (c ∷ cs) = run_state (step q c).0 cs
