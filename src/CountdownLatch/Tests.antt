-- ===== src/CountdownLatch/Tests.antt =====
-- Runs of the latch of src/countdown_latch.cc, and its theorem at a concrete state.
use google_concurrency_libra.Base.{◌+◌, ◌<◌, ◌≤◌, ◌≡◌, refl, true, false}
use google_concurrency_libra.Outcome.{thrown, system_error}
use google_concurrency_libra.CountdownLatch.{construct, must_wait, count_down}
use google_concurrency_libra.CountdownLatch.System.{
  System, start, Reach, here, later, enters, sleeps, counts_down,
}
use google_concurrency_libra.CountdownLatch.Safety.{countdown_safety}

spent_throws : count_down (construct 0) ≡ thrown system_error
unfolding count_down construct
spent_throws = refl

-- A thread slept, and the last of two calls has woken it.
abbrev opened : System
opened = record (start 2) { latch = record { count = 0 }; entering = 1; downs = 2 }

opened-Reach : Reach (start 2) opened
unfolding construct must_wait count_down
opened-Reach =
    later (later (later (later here enters) (counts_down {b = false} refl)) (sleeps 0 refl refl))
      (counts_down {b = true} refl)

countdown_safety_example :
    (0 < opened.passed + opened.refused → opened.downs ≡ 2)
    × (opened.downs ≤ 2)
    × (opened.downs ≡ 2 → opened.asleep ≡ 0)
countdown_safety_example = countdown_safety 2 opened-Reach
