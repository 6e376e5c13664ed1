-- ===== src/BufferQueue/Refine.antt =====
-- The circular array behaves as the bounded queue of the elements between its indices.
use google_concurrency_libra.Base.{
  Bool, ◌-◌, ◌≡◌, List, arith, leb, ◌==◌, length, refl, true, false, [], ◌∷◌, ap,
}
use google_concurrency_libra.BufferQueue.{
  BufferQueue, next, try_push, try_pop, close, is_closed, nonblocking_push, is_empty,
  nonblocking_pop,
}
use google_concurrency_libra.BufferQueue.Ring.{ring, length-ring, ring-push, ring-pop, ring_self}
use google_concurrency_libra.BufferQueue.Bounds.{
  try_push-IsValid, try_pop-IsValid, IsValid, next_lem, in_bounds,
}
use google_concurrency_libra.BufferQueue.Calls.{step, run}
use google_concurrency_libra.BufferQueue.Fifo.{
  is_nil, fifo_step, fifo_run, Call, closes, asks_closed, asks_empty, pops, pushes,
  nonblocking_pops, nonblocking_pushes, Fifo, fifo_push, fifo_pop, popped, pushed,
}

module _ {ℓ} {A : Type ℓ} where
  abbrev pub contents : BufferQueue A → List A
  contents q = ring q.buffer q.pop_index q.push_index

  abbrev pub view : BufferQueue A → Fifo A
  view q = record { items = contents q; cap = q.num_slots - 1; shut = q.is_shut }

module _ {A : Type 0} where
  is_nil_lem : (xs : List A) → is_nil xs ≡ (length xs == 0)
  is_nil_lem [] = refl
  is_nil_lem (x ∷ xs) = ground arith

  -- The code's tests for a full and for an empty array, in terms of the contents.
  pub full_iff :
      {q : BufferQueue A}
      → IsValid q
      → leb (q.num_slots - 1) (length (contents q)) ≡ (next q q.push_index == q.pop_index)
  full_iff {q} v =
      ground (arith, length-ring q.buffer q.pop_index q.push_index, next_lem q q.push_index)

  pub empty_iff :
      {q : BufferQueue A} → IsValid q → (length (contents q) == 0) ≡ (q.pop_index == q.push_index)
  empty_iff {q} v = ground (arith, length-ring q.buffer q.pop_index q.push_index)

module _ {A : Type 0} (throws : A → Bool) where
  pub try_push-refines :
      {q : BufferQueue A} (a : A)
      → IsValid q
      → let s = try_push throws q a in (view s.after, s.outcome) ≡ fifo_push throws (view q) a
  unfolding try_push fifo_push
  try_push-refines {q} a v = ground (
    arith,
    full_iff v,
    next_lem q q.push_index,
    ring-push q.buffer q.pop_index q.push_index (next q q.push_index) a,
  )

  pub try_pop-refines :
      {q : BufferQueue A}
      → IsValid q
      → let s = try_pop throws q in (view s.after, s.outcome) ≡ fifo_pop throws (view q)
  unfolding try_pop fifo_pop
  try_pop-refines {q} v =
      let (a, e) = (in_bounds v).1 in
      ground (
        arith,
        empty_iff v,
        next_lem q q.pop_index,
        ring-pop q.buffer q.pop_index q.push_index (next q q.pop_index) a,
        ring_self q.buffer q.push_index,
      )

  -- Every call keeps the representation invariant.
  pub step-IsValid : {q : BufferQueue A} (c : Call A) → IsValid q → IsValid (step throws q c).0
  unfolding step close nonblocking_push nonblocking_pop
  step-IsValid closes v = ground arith
  step-IsValid asks_closed v = v
  step-IsValid asks_empty v = v
  step-IsValid pops v = try_pop-IsValid throws v
  step-IsValid (pushes a) v = try_push-IsValid throws a v
  step-IsValid (nonblocking_pops true) v = try_pop-IsValid throws v
  step-IsValid (nonblocking_pops false) v = v
  step-IsValid (nonblocking_pushes true a) v = try_push-IsValid throws a v
  step-IsValid (nonblocking_pushes false a) v = v

  -- Each call answers as the bounded queue does, and leaves the array holding its elements.
  pub step-refines :
      {q : BufferQueue A} (c : Call A)
      → IsValid q
      → let (q', r) = step throws q c in (view q', r) ≡ fifo_step throws (view q) c
  unfolding step fifo_step close is_closed is_empty nonblocking_push nonblocking_pop
  step-refines closes v = refl
  step-refines asks_closed v = refl
  step-refines {q} asks_empty v =
      ground (arith, length-ring q.buffer q.pop_index q.push_index, is_nil_lem (contents q))
  step-refines pops v = ap (λ s. (s.0, popped s.1)) (try_pop-refines v)
  step-refines (pushes a) v = ap (λ s. (s.0, pushed s.1)) (try_push-refines a v)
  step-refines (nonblocking_pops true) v = ap (λ s. (s.0, popped s.1)) (try_pop-refines v)
  step-refines (nonblocking_pops false) v = refl
  step-refines (nonblocking_pushes true a) v = ap (λ s. (s.0, pushed s.1)) (try_push-refines a v)
  step-refines (nonblocking_pushes false a) v = refl

  -- No sequence of calls tells the array from the bounded queue of its contents.
  pub run-refines :
      (cs : List (Call A)) {q : BufferQueue A}
      → IsValid q
      → run throws q cs ≡ fifo_run throws (view q) cs
  unfolding run fifo_run
  run-refines [] v = refl
  run-refines (c ∷ cs) v = rw (run-refines cs (step-IsValid c v), ← step-refines c v)
