-- ===== src/Barrier/Tests.antt =====
-- Runs of the barrier of src/barrier.cc, and its theorems at concrete states.
use google_concurrency_libra.Base.{[], ◌∷◌, ◌+◌, ◌≤◌, ◌≡◌, refl, false, some}
use google_concurrency_libra.Base.Int.{pos, negsuc}
use google_concurrency_libra.Outcome.{thrown, invalid_argument}
use google_concurrency_libra.Barrier.{construct, arrive, drop_thread}
use google_concurrency_libra.Barrier.System.{
  System, fresh, arrive_ready, arrive_through, start, Reach, here, later,
}
use google_concurrency_libra.Barrier.Safety.{AllEven, completed, barrier_safety}

negative_is_refused : construct (negsuc 0) ≡ thrown invalid_argument
unfolding construct
negative_is_refused = refl

-- The last thread cannot drop out.
last_drop_throws :
    drop_thread (record { thread_count = pos 1; num_waiting = 0; num_to_leave = pos 0 })
    ≡ some (
      record { thread_count = pos 0; num_waiting = 0; num_to_leave = pos 0 },
      false,
      thrown invalid_argument,
    )
unfolding drop_thread
last_drop_throws = refl

abbrev met : System
met = record (start 2) {
  barrier = record { thread_count = pos 2; num_waiting = 2; num_to_leave = pos 2 };
  ready_woken = 1;
  departing = 1;
  arrived = 2;
  phases = (2, 2) ∷ [];
}

met-Reach : Reach (start 2) met
unfolding arrive
met-Reach =
    later (later here (arrive_ready fresh refl)) (arrive_through {notifies = false} fresh refl)

barrier_safety_example : AllEven met.phases × (0 + 1 ≤ completed met) × (completed met ≤ 2)
barrier_safety_example = barrier_safety 2 met-Reach
