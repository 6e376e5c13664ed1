-- ===== src/FlexBarrier.antt =====
-- include/flex_barrier.h and src/flex_barrier.cc: a cyclic barrier that runs a completion function at
-- the end of each phase. `ptrdiff_t` is ℤ, and sums are taken not to overflow it. The completion
-- function is the user's: what it returns is an argument, and `none` stands for one that throws. A function is what a thread does between
-- taking the mutex, or getting it back in a wait, and giving it up.
pub mod System
pub mod Safety
pub mod Failure
mod Tests
use google_concurrency_libra.Base.{Bool, ℕ, ◌+◌, true, false, Option, none, some, if◌then◌else◌}
use google_concurrency_libra.Base.Int.{ℤ, pos, ltb_ℤ, eqb_ℤ, ◌-ℤ◌}
use google_concurrency_libra.Outcome.{
  Outcome, returned, thrown, copy_failed, fault, invalid_argument,
}

pub record FlexBarrier : Type 0 where
  pub thread_count : ℤ
  pub new_thread_count : ℤ
  pub num_waiting : ℕ
  pub num_to_leave : ℤ

-- The constructor leaves `new_thread_count_` as it finds it.
pub construct : ℤ → ℤ → Outcome FlexBarrier
construct unset num_threads =
    if eqb_ℤ num_threads (pos 0)
    then thrown invalid_argument
    else returned (record {
      thread_count = num_threads;
      new_thread_count = unset;
      num_waiting = 0;
      num_to_leave = pos 0;
    })

pub all_threads_exited : FlexBarrier → Bool
all_threads_exited b = eqb_ℤ b.num_to_leave (pos 0)

pub all_threads_waiting : FlexBarrier → Bool
all_threads_waiting b = eqb_ℤ (pos b.num_waiting) b.thread_count

-- The test and the choice of the next size by `on_countdown` and `reset`, from the completion function's
-- result.
pub reset : FlexBarrier → ℤ → Outcome FlexBarrier
reset b num_threads =
    if eqb_ℤ num_threads (pos 0)
    then thrown invalid_argument
    else (if ltb_ℤ (pos 0) num_threads
        then returned (record b { new_thread_count = num_threads })
        else returned (record b { new_thread_count = b.thread_count }))

-- `on_countdown`, where the completion function gives `result`, or throws.
pub on_countdown : FlexBarrier → Option ℤ → Outcome FlexBarrier
unfolding reset
on_countdown b none = thrown copy_failed
on_countdown b (some result) = reset b result

-- The end of `arrive_and_wait`: the barrier, and whether `idle_` is notified.
pub leave : FlexBarrier → FlexBarrier × Bool
unfolding ◌-ℤ◌
leave b =
    let left : ℤ = b.num_to_leave -ℤ pos 1 in
    if eqb_ℤ b.num_to_leave (pos 1)
    then (
      record b { thread_count = b.new_thread_count; num_waiting = 0; num_to_leave = left },
      true,
    )
    else (record b { num_to_leave = left }, false)

-- What a thread of `arrive_and_wait` does from the test of `idle_` on.
pub data Arrival : Type 0 where
  waits_idle : Arrival
  waits_ready : FlexBarrier → Arrival
  through : FlexBarrier → Bool → Arrival  -- it has notified `ready_`, and perhaps `idle_`
  fails : FlexBarrier → Arrival  -- `on_countdown` has thrown, and no one is notified

pub arrive : FlexBarrier → Option ℤ → Arrival
unfolding leave on_countdown all_threads_exited all_threads_waiting
arrive b result =
    let counted : FlexBarrier = record b { num_waiting = b.num_waiting + 1 } in
    let full : FlexBarrier = record counted { num_to_leave = counted.thread_count } in
    if all_threads_exited b
    then (if all_threads_waiting counted
        then elim (on_countdown full result) [
          | returned done ↦ through (leave done).0 (leave done).1
          | thrown e ↦ fails full
          | fault ↦ fails full
        ]
        else waits_ready counted)
    else waits_idle

-- The same thread when it wakes from the wait for `ready_`: `none` if it waits on.
pub pass : FlexBarrier → Option (FlexBarrier × Bool)
unfolding leave all_threads_waiting
pass b = if all_threads_waiting b then some (leave b) else none

pub data Drop : Type 0 where
  waits_idle : Drop
  dropped : FlexBarrier → Bool → Drop  -- whether `ready_` is notified
  refused : Drop  -- all threads have left
  fails : FlexBarrier → Drop

pub drop_thread : FlexBarrier → Option ℤ → Drop
unfolding ◌-ℤ◌ on_countdown all_threads_exited all_threads_waiting
drop_thread b result =
    let fewer : FlexBarrier = record b { thread_count = b.thread_count -ℤ pos 1 } in
    let full : FlexBarrier = record fewer { num_to_leave = fewer.thread_count } in
    if all_threads_exited b
    then (if eqb_ℤ b.thread_count (pos 0)
        then refused
        else (if all_threads_waiting fewer
            then elim (on_countdown full result) [
              | returned done ↦ dropped done true
              | thrown e ↦ fails full
              | fault ↦ fails full
            ]
            else dropped fewer false))
    else Drop.waits_idle
