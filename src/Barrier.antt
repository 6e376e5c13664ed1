-- ===== src/Barrier.antt =====
-- include/barrier.h and src/barrier.cc: a cyclic barrier. `ptrdiff_t` is ℤ, and sums are taken not to
-- overflow it; `num_waiting_` is only counted up from 0 and reset to it. A function is what a thread
-- does between taking the mutex, or getting it back in a wait, and giving it up.
pub mod System
pub mod Safety
pub mod LostReset
mod Tests
use google_concurrency_libra.Base.{Bool, ℕ, ◌+◌, true, false, Option, none, some, if◌then◌else◌}
use google_concurrency_libra.Base.Int.{ℤ, pos, ltb_ℤ, eqb_ℤ, ◌-ℤ◌}
use google_concurrency_libra.Outcome.{Outcome, returned, thrown, invalid_argument}

pub record Barrier : Type 0 where
  pub thread_count : ℤ
  pub num_waiting : ℕ
  pub num_to_leave : ℤ

pub construct : ℤ → Outcome Barrier
construct num_threads =
    if ltb_ℤ num_threads (pos 0)
    then thrown invalid_argument
    else returned (record { thread_count = num_threads; num_waiting = 0; num_to_leave = pos 0 })

pub all_threads_exited : Barrier → Bool
all_threads_exited b = eqb_ℤ b.num_to_leave (pos 0)

pub all_threads_waiting : Barrier → Bool
all_threads_waiting b = eqb_ℤ (pos b.num_waiting) b.thread_count

-- The end of the locked part of `arrive_and_wait`: the barrier, and whether `idle_` is notified.
pub reset : Barrier → Barrier × Bool
reset b = if eqb_ℤ b.num_to_leave (pos 1) then (record b { num_waiting = 0 }, true) else (b, false)

-- What a thread of `arrive_and_wait` does from the test of `idle_` on. `through` ends with `reset`.
pub data Arrival : Type 0 where
  waits_idle : Arrival
  waits_ready : Barrier → Arrival
  through : Barrier → Bool → Arrival  -- it has notified `ready_`, and perhaps `idle_`

pub arrive : Barrier → Arrival
unfolding reset all_threads_exited all_threads_waiting
arrive b =
    let counted : Barrier = record b { num_waiting = b.num_waiting + 1 } in
    let full : Barrier = record counted { num_to_leave = counted.thread_count } in
    if all_threads_exited b
    then (if all_threads_waiting counted
        then through (reset full).0 (reset full).1
        else waits_ready counted)
    else waits_idle

-- The same thread when it wakes from the wait for `ready_`: `none` if it waits on.
pub pass : Barrier → Option (Barrier × Bool)
unfolding reset all_threads_waiting
pass b = if all_threads_waiting b then some (reset b) else none

-- `--num_to_leave_`, after the mutex is given up.
pub depart : Barrier → Barrier
unfolding ◌-ℤ◌
depart b = record b { num_to_leave = b.num_to_leave -ℤ pos 1 }

-- `arrive_and_drop` once it has the mutex: `none` if it waits for `idle_`; else the barrier, whether
-- `ready_` is notified, and how it ends.
pub drop_thread : Barrier → Option (Barrier × Bool × Outcome (Unit {0}))
unfolding ◌-ℤ◌ all_threads_exited all_threads_waiting
drop_thread b =
    let fewer : Barrier = record b { thread_count = b.thread_count -ℤ pos 1 } in
    if all_threads_exited b
    then (if eqb_ℤ fewer.thread_count (pos 0)
        then some (fewer, false, thrown invalid_argument)
        else (if all_threads_waiting fewer
            then some (record fewer { num_to_leave = fewer.thread_count }, true, returned tt)
            else some (fewer, false, returned tt)))
    else none
