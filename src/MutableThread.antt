-- ===== src/MutableThread.antt =====
-- include/mutable_thread.h and src/mutable_thread.cc: a thread that runs the functions that it is
-- given, with room for one more. A function is known by a number, and the empty one is `none`. A
-- definition is one critical section, or one access to a member, since parts of the code run outside
-- the mutex.
pub mod System
pub mod Kept
pub mod Stuck
pub mod Joining
mod Tests
use google_concurrency_libra.Base.{Bool, ℕ, true, false, Option, none, some, if◌then◌else◌}

pub data ThreadState : Type 0 where
  idle : ThreadState
  running : ThreadState  -- the code never stores it
  joining : ThreadState
  done : ThreadState
  joined : ThreadState

pub record MutableThread : Type 0 where
  pub thread_state : ThreadState
  pub run_fn : Option ℕ
  pub queued_fn : Option ℕ

pub construct : MutableThread
construct = record { thread_state = idle; run_fn = none; queued_fn = none }

pub is_joining : MutableThread → Bool
is_joining m = elim m.thread_state [
  | idle ↦ false
  | running ↦ false
  | joining ↦ true
  | done ↦ false
  | joined ↦ false
]

pub is_done : MutableThread → Bool
is_done m = elim m.thread_state [
  | idle ↦ false
  | running ↦ false
  | joining ↦ false
  | done ↦ true
  | joined ↦ true
]

pub is_set : Option ℕ → Bool
is_set none = false
is_set (some f) = true

-- The first test of `try_execute`.
pub has_room : MutableThread → Bool
unfolding is_set
has_room m = if is_set m.run_fn then (if is_set m.queued_fn then false else true) else true

-- Whether the thread takes no more work; the two loads of the state are taken as one.
pub is_closed : MutableThread → Bool
unfolding is_done is_joining
is_closed m = if is_done m then true else is_joining m

-- The loop of `execute`.
pub must_spin : MutableThread → Bool
unfolding has_room is_closed
must_spin m = if has_room m then false else (if is_closed m then false else true)

-- Giving a function to the thread, under the mutex.
pub put : MutableThread → ℕ → MutableThread
unfolding is_set
put m fn =
    if is_set m.run_fn then record m { queued_fn = some fn } else record m { run_fn = some fn }

-- The critical section of `try_execute`.
pub try_put : MutableThread → ℕ → MutableThread × Bool
unfolding put is_closed
try_put m fn = if is_closed m then (m, false) else (put m fn, true)

pub ready_to_continue : MutableThread → Bool
unfolding is_closed is_set
ready_to_continue m = if is_closed m then true else is_set m.run_fn

-- `thread_wait`: `none` while the thread waits, else whether there is something to execute.
pub thread_wait : MutableThread → Option Bool
unfolding ready_to_continue is_closed
thread_wait m = if ready_to_continue m then some (if is_closed m then false else true) else none

-- `finish_run` in its order: the swap of the two functions, the end of the queued one, or the end of
-- the running one.
pub swap_queued : MutableThread → MutableThread
swap_queued m = record m { run_fn = m.queued_fn; queued_fn = m.run_fn }

pub empty_queued : MutableThread → MutableThread
empty_queued m = record m { queued_fn = none }

pub empty_run : MutableThread → MutableThread
empty_run m = record m { run_fn = none }

-- `compare_exchange_strong` of `RUNNING` with `IDLE`
pub set_idle : MutableThread → MutableThread
set_idle m = elim m.thread_state [
  | idle ↦ m
  | running ↦ record m { thread_state = idle }
  | joining ↦ m
  | done ↦ m
  | joined ↦ m
]

-- `thread_state_.store`
pub store : ThreadState → MutableThread → MutableThread
store s m = record m { thread_state = s }

-- The test at the start of `join`.
pub must_stop : MutableThread → Bool
must_stop m = elim m.thread_state [
  | idle ↦ true
  | running ↦ true
  | joining ↦ true
  | done ↦ false
  | joined ↦ true
]
