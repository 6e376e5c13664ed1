-- ===== src/CountdownLatch.antt =====
-- include/countdown_latch.h and src/countdown_latch.cc: a latch that is counted down by one at a time.
-- A function is one critical section; `unsigned int` is a natural number, which never grows.
pub mod System
pub mod Safety
mod Tests
use google_concurrency_libra.Base.{Bool, ℕ, ◌-◌, ltb, ◌==◌, if◌then◌else◌}
use google_concurrency_libra.Outcome.{Outcome, returned, thrown, system_error}

pub record CountdownLatch : Type 0 where
  pub count : ℕ

pub construct : ℕ → CountdownLatch
construct count = record { count = count }

-- The test of the loop of `wait`.
pub must_wait : CountdownLatch → Bool
must_wait l = ltb 0 l.count

-- The latch, and whether the waiting threads are notified.
pub count_down : CountdownLatch → Outcome (CountdownLatch × Bool)
count_down l =
    let rest = l.count - 1 in
    if l.count == 0 then thrown system_error else returned (record l { count = rest }, rest == 0)
