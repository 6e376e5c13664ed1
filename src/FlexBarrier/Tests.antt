-- ===== src/FlexBarrier/Tests.antt =====
-- Runs of the barrier of src/flex_barrier.cc, and its theorems at concrete states.
use google_concurrency_libra.Base.{
  none, some, [], ◌∷◌, sum_map, ◌≤◌, ◌<◌, ◌⊎◌, ◌≡◌, refl, true, false, ℕ,
}
use google_concurrency_libra.Base.Int.{ℤ, pos, negsuc}
use google_concurrency_libra.FlexBarrier.{FlexBarrier, Arrival, arrive, all_threads_exited, through}
use google_concurrency_libra.FlexBarrier.System.{
  System, fresh, arrive_ready, arrive_through, start, Reach, here, later,
}
use google_concurrency_libra.FlexBarrier.Safety.{AllEven, flex_safety}
use google_concurrency_libra.FlexBarrier.Failure.{completion_failure_blocks}

-- The completion function's result is the next size; a negative one keeps the size.
size_is_kept :
    arrive
      (record {
        thread_count = pos 1;
        new_thread_count = pos 9;
        num_waiting = 0;
        num_to_leave = pos 0;
      })
      (some (negsuc 0))
    ≡ through
        (record {
          thread_count = pos 1;
          new_thread_count = pos 1;
          num_waiting = 0;
          num_to_leave = pos 0;
        })
        true
unfolding arrive
size_is_kept = refl

-- One of two threads waits.
abbrev one_waits : System
one_waits = record (start (pos 7) 2) {
  barrier = record {
    thread_count = pos 2;
    new_thread_count = pos 7;
    num_waiting = 1;
    num_to_leave = pos 0;
  };
  ready_asleep = 1;
  arrived = 1;
  gathered = 1;
}

one_waits-Reach : Reach (start (pos 7) 2) one_waits
unfolding arrive
one_waits-Reach = later here (arrive_ready (some (pos 0)) fresh refl)

-- The other has come, the next phase has three threads, and one is still to leave.
abbrev met : System
met = record (start (pos 7) 2) {
  barrier = record {
    thread_count = pos 2;
    new_thread_count = pos 3;
    num_waiting = 2;
    num_to_leave = pos 1;
  };
  ready_woken = 1;
  passed = 1;
  arrived = 2;
  completed = 2;
  phase_size = 3;
  phases = (2, 2) ∷ [];
}

met-Reach : Reach (start (pos 7) 2) met
unfolding arrive
met-Reach = later one_waits-Reach (arrive_through {notifies = false} (some (pos 3)) fresh refl)

flex_safety_example :
    AllEven met.phases
    × (◌≡◌ {A = ℕ} 2 (sum_map (λ p. p.0) met.phases))
    × (1 ≤ 2)
    × (2 ≤ 2)
    × (((◌≡◌ {A = ℤ} (pos 1) (pos 0))
          × (◌≡◌ {A = ℕ} 1 2)
          × (met.barrier.thread_count ≡ pos 3)
          × (met.barrier.num_waiting ≡ 1)
          × (met.idle_asleep ≡ 0))
        ⊎ ((0 < 1)
            × (◌≡◌ {A = ℕ} 2 2)
            × (met.barrier.num_to_leave ≡ pos 1)
            × (met.ready_asleep ≡ 0)))
flex_safety_example = flex_safety met-Reach refl

abbrev stuck : FlexBarrier
stuck = record {
  thread_count = pos 2;
  new_thread_count = pos 7;
  num_waiting = 2;
  num_to_leave = pos 2;
}

completion_fails : arrive one_waits.barrier none ≡ Arrival.fails stuck
unfolding arrive
completion_fails = refl

completion_failure_blocks_example : all_threads_exited stuck ≡ false
completion_failure_blocks_example =
    completion_failure_blocks none one_waits-Reach refl fresh completion_fails here
