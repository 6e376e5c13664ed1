-- ===== src/Latch/Tests.antt =====
-- The theorems about the latch of src/latch.cc at concrete states.
use google_concurrency_libra.Base.{Bool, ℕ, ◌+◌, ◌≤◌, ◌<◌, ◌≡◌, refl, ◌↔◌, ◌⊎◌, true, false, arith}
use google_concurrency_libra.Base.Int.{pos, ◌≤ℤ◌}
use google_concurrency_libra.Outcome.{thrown, returned, logic_error}
use google_concurrency_libra.Latch.{construct, count_down, arrive, enter, must_spin, must_wait}
use google_concurrency_libra.Latch.System.{
  System, start, enters, tests_sleeps, counts_down, arrives, arrive_throws, Reach, here, later,
}
use google_concurrency_libra.Latch.Counting.{count_down_lem}
use google_concurrency_libra.Latch.Safety.{latch_safety, thrown_blocks_destructor}

-- A thread waits, and is woken by the last `count_down`.
abbrev opened : System
opened = record (start (pos 2)) { latch = record { count = pos 0; waiting = 1 }; woken = 1 }

opened-Reach : Reach (start (pos 2)) opened
unfolding construct enter must_wait count_down
opened-Reach =
    later (later (later here enters) (tests_sleeps 0 refl refl))
      (counts_down (pos 2) {b = true} (omega arith) refl)

latch_safety_example :
    (0 < 0 → opened.latch.count ≤ℤ pos 0)
    × (opened.latch.count ≤ℤ pos 0 → opened.asleep ≡ 0)
    × (must_spin opened.latch ≡ false → 0 + 0 + 0 + 1 + 0 ≡ 0)
    × (0 < 0 → 0 < 1)
latch_safety_example = latch_safety (pos 2) opened-Reach

-- One `count_down_and_wait` too many.
abbrev overrun : System
overrun = record (start (pos 0)) { latch = record { count = pos 0; waiting = 1 }; failed = 1 }

overrun-Reach : Reach (start (pos 0)) overrun
unfolding construct enter arrive
overrun-Reach = later (later here arrives) (arrive_throws 0 refl refl)

thrown_blocks_destructor_example : must_spin overrun.latch ≡ true
thrown_blocks_destructor_example = thrown_blocks_destructor (pos 0) overrun-Reach (omega arith) here

count_down_lem_example :
    ((5 < 2) × (count_down (record { count = pos 5; waiting = 1 }) (pos 2) ≡ thrown logic_error))
    ⊎ ((2 ≤ 5)
        × ((b : Bool) × (count_down (record { count = pos 5; waiting = 1 }) (pos 2)
              ≡ returned (record { count = pos 3; waiting = 1 }, b))
            × ((b ≡ true) ↔ (◌≡◌ {A = ℕ} 5 2))))
count_down_lem_example = count_down_lem 5 2 1
