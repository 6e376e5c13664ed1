-- ===== src/LockFreeQueue/Tests.antt =====
-- Runs of the queue of include/lock_free_buffer_queue.h, and its theorems at concrete states.
use google_concurrency_libra.Base.{
  ◌^◌, none, Option, Bool, ℕ, ◌+◌, ◌<◌, ◌≤◌, ◌≡◌, ◌⊎◌, ◌%◌, refl, true, false, [], ◌∷◌, arith,
  length, some, List, update,
}
use google_concurrency_libra.Outcome.{thrown, invalid_argument}
use google_concurrency_libra.LockFreeQueue.{construct, valid, LockFreeQueue, returned}
use google_concurrency_libra.LockFreeQueue.Moves.{away, push_start}
use google_concurrency_libra.LockFreeQueue.System.{
  System, act, moved, start, Reach, here, later, calls_push,
}
use google_concurrency_libra.LockFreeQueue.Blocked.{run, run-Reach, spurious_failure_blocks}
use google_concurrency_libra.LockFreeQueue.StaleReset.{stale_reset_blocks, throws_none}
use google_concurrency_libra.LockFreeQueue.Loops.{construct_from}
use google_concurrency_libra.LockFreeQueue.Quiet.{IsQuiet, contents}
use google_concurrency_libra.LockFreeQueue.Alone.{construct_from_ends}
use google_concurrency_libra.LockFreeQueue.Fifo.{fifo_safety, nothing_lost}

no_slots : construct {A = ℕ} 0 (λ p. valid) 0 0 ≡ some (thrown invalid_argument)
unfolding construct
no_slots = refl

abbrev never : ℕ → Bool
never x = false

-- Thread 0 has pushed 7 into a queue of two slots.
one_held : System ℕ
one_held =
    run never 0 6 (record (start 0 2) { threads = update (start 0 2).threads 0 (push_start 7) })

one_held-Reach : Reach never false (start 0 2) one_held
unfolding one_held
one_held-Reach = run-Reach never false 0 6 (later here (calls_push 0 7 refl))

one_held_holds : one_held.shared.accepted 0 ≡ 7 ∷ []
unfolding one_held run moved act
one_held_holds = refl

one_held_quiet : (i : ℕ) → one_held.threads i ≡ away
unfolding one_held run moved act
one_held_quiet i = ground arith

fifo_safety_example :
    (one_held.shared.queue.head ≤ one_held.shared.queue.tail)
    × (one_held.shared.queue.tail ≤ one_held.shared.queue.head + one_held.shared.queue.cardinality)
    × ((k : ℕ)
        → (k < one_held.shared.queue.tail → length (one_held.shared.accepted k) ≡ 1)
          × (one_held.shared.queue.tail ≤ k → one_held.shared.accepted k ≡ [])
          × ((one_held.shared.delivered k ≡ [])
              ⊎ (one_held.shared.delivered k ≡ one_held.shared.accepted k))
          × (one_held.shared.queue.head ≤ k → one_held.shared.delivered k ≡ []))
fifo_safety_example = fifo_safety never 0 2 (λ x. refl) (omega arith) one_held-Reach

nothing_lost_example :
    (0 < one_held.shared.queue.head → one_held.shared.delivered 0 ≡ one_held.shared.accepted 0)
    × (one_held.shared.queue.head ≤ 0
        → 0 < one_held.shared.queue.tail
        → (one_held.shared.queue.value_state (0 % one_held.shared.queue.cardinality) ≡ valid)
          × (one_held.shared.accepted 0
              ≡ one_held.shared.queue.values (0 % one_held.shared.queue.cardinality) ∷ []))
nothing_lost_example =
    nothing_lost never 0 2 (λ x. refl) (omega arith) one_held-Reach one_held_quiet 0

spurious_failure_blocks_example :
    (s : System ℕ) × Reach never true (start 0 2) s
    × (s.shared.accepted 0 ≡ 7 ∷ [])
    × ((i : ℕ) → s.threads i ≡ away)
    × ((t : System ℕ)
        → Reach never true s t
        → (t.shared.queue.head ≡ 0) × (t.shared.delivered 0 ≡ []))
spurious_failure_blocks_example = spurious_failure_blocks never 0 2 7 refl (omega arith)

stale_reset_blocks_example :
    (s : System (Option ℕ)) × Reach throws_none false (start (some 0) 1) s
    × ((i : ℕ) → s.threads i ≡ away)
    × ((t : System (Option ℕ))
        → Reach throws_none false s t
        → (t.shared.queue.head ≡ 1) × (1 < t.shared.queue.tail) × (t.shared.delivered 1 ≡ []))
stale_reset_blocks_example = stale_reset_blocks (some 0)

abbrev two_items : List ℕ
two_items = 7 ∷ 8 ∷ []

construct_from_ends_example :
    let built = construct_from never false 3 (λ p. valid) 0 2 two_items in
    ((2 ^ 32 ≤ 2)
      × ((fuel : ℕ) → construct_from never false fuel (λ p. valid) 0 2 two_items ≡ none))
    ⊎ ((2 < 2 ^ 32)
        × ((((◌≡◌ {A = ℕ} 2 0) ⊎ (2 < length two_items)) × (built ≡ some (thrown invalid_argument)))
            ⊎ ((length two_items ≤ 2)
                × ((q : LockFreeQueue ℕ) × (built ≡ some (returned q))
                    × IsQuiet q
                    × (contents q ≡ two_items)))))
construct_from_ends_example = construct_from_ends never 0 (λ p. valid) 0 2 two_items (λ x. refl)
