-- ===== src/BufferQueue/Wait.antt =====
-- The blocking calls of include/buffer_queue.h. A call that waits gives up the mutex and tests
-- again after a wakeup, spurious or not; what other threads do to the queue in between is an
-- argument, one function for each wait.
use google_concurrency_libra.Base.{
  Bool, List, [], ◌∷◌, ◌+◌, Option, some, none, ◌==◌, if◌then◌else◌,
}
use google_concurrency_libra.Outcome.{QueueOpStatus, closed, queue_closed, returned, thrown, fault}
use google_concurrency_libra.BufferQueue.{
  BufferQueue, Section, next, close_on_throw, pop_from, push_at,
}

-- One turn of the loop `for (;;)`: the call waits, or it ends.
pub data Round {ℓ κ} (A : Type ℓ) (R : Type κ) : Type (ℓ ⊔ κ) where
  waits : BufferQueue A → Round A R
  ends : Section A R → Round A R

module _ {ℓ} {A : Type ℓ} (throws : A → Bool) where
  -- The loop body and the code behind the loop, under the mutex.
  unfoldable pub wait_pop_turn : BufferQueue A → Round A (QueueOpStatus × Option A)
  unfolding pop_from
  wait_pop_turn q =
      if q.pop_index == q.push_index
      then (if q.is_shut
          then ends (record { after = q; signals = []; outcome = returned (closed, none) })
          else waits (record q { waiting_empty = q.waiting_empty + 1 }))
      else ends (pop_from throws q q.pop_index)

  unfoldable pub wait_push_turn : BufferQueue A → A → Round A QueueOpStatus
  unfolding push_at next
  wait_push_turn q elem =
      if q.is_shut
      then ends (record { after = q; signals = []; outcome = returned closed })
      else (if next q q.push_index == q.pop_index
          then waits (record q { waiting_full = q.waiting_full + 1 })
          else ends (push_at throws q elem q.push_index (next q q.push_index)))

  -- The `try` block around them.
  abbrev pub guard_round {κ} : {R : Type κ} → Round A R → Round A R
  guard_round (waits q) = waits q
  guard_round (ends s) = ends (close_on_throw throws s)

  unfoldable pub wait_pop_round : BufferQueue A → Round A (QueueOpStatus × Option A)
  unfolding wait_pop_turn close_on_throw pop_from
  wait_pop_round q = guard_round (wait_pop_turn q)

  unfoldable pub wait_push_round : BufferQueue A → A → Round A QueueOpStatus
  unfolding wait_push_turn close_on_throw push_at next
  wait_push_round q elem = guard_round (wait_push_turn q elem)

  -- `none`: the call still waits when the list of what the others do is used up.
  unfoldable pub wait_pop :
      List (BufferQueue A → BufferQueue A)
      → BufferQueue A
      → Option (Section A (QueueOpStatus × Option A))
  wait_pop [] q = elim (wait_pop_round q) [ waits q' ↦ none | ends s ↦ some s ]
  wait_pop (others ∷ more) q = elim (wait_pop_round q) [
    | waits q' ↦ wait_pop more (others q')
    | ends s ↦ some s
  ]

  unfoldable pub wait_push :
      List (BufferQueue A → BufferQueue A) → BufferQueue A → A → Option (Section A QueueOpStatus)
  wait_push [] q elem = elim (wait_push_round q elem) [ waits q' ↦ none | ends s ↦ some s ]
  wait_push (others ∷ more) q elem = elim (wait_push_round q elem) [
    | waits q' ↦ wait_push more (others q') elem
    | ends s ↦ some s
  ]

  -- `throw queue_op_status::closed` for a push that was refused.
  unfoldable pub refuse_closed : Section A QueueOpStatus → Section A (Unit {0})
  refuse_closed s = record {
    after = s.after;
    signals = s.signals;
    outcome = elim s.outcome [
      | returned closed ↦ thrown queue_closed
      | returned _ ↦ returned tt
      | thrown e ↦ thrown e
      | fault ↦ fault
    ];
  }

  unfoldable pub push :
      List (BufferQueue A → BufferQueue A) → BufferQueue A → A → Option (Section A (Unit {0}))
  push others q elem = elim (wait_push others q elem) [
    | none ↦ none
    | some s ↦ some (refuse_closed s)
  ]

  -- The element that `wait_pop` assigned, or a throw, which closes the queue once more.
  unfoldable pub take_value : Section A (QueueOpStatus × Option A) → Section A A
  unfolding close_on_throw
  take_value s = close_on_throw throws (record {
    after = s.after;
    signals = s.signals;
    outcome = elim s.outcome [
      | returned (closed, _) ↦ thrown queue_closed
      | returned (_, some a) ↦ returned a
      | returned (_, none) ↦ fault
      | thrown e ↦ thrown e
      | fault ↦ fault
    ];
  })

  unfoldable pub value_pop :
      List (BufferQueue A → BufferQueue A) → BufferQueue A → Option (Section A A)
  value_pop others q = elim (wait_pop others q) [ none ↦ none | some s ↦ some (take_value s) ]
