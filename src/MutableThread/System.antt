-- ===== src/MutableThread/System.antt =====
-- A thread of src/mutable_thread.cc with one client that gives it functions, and one that joins it. A
-- step is one critical section or one access to a member.
use google_concurrency_libra.Base.{ℕ, ◌≡◌, true, false, some, List, [], ◌∷◌}
use google_concurrency_libra.MutableThread.{
  MutableThread, ThreadState, construct, has_room, must_spin, is_closed, put, try_put, thread_wait,
  is_set, swap_queued, empty_queued, empty_run, set_idle, store, must_stop,
}

-- Where the client stands.
pub data Client : Type 0 where
  away : Client
  trying : ℕ → Client  -- in `try_execute`, past its first test
  spun : ℕ → Client  -- in `execute`, past its loop
  executing : ℕ → Client  -- in `execute`, past its test of `is_done` and `is_joining`

-- Where the thread itself stands in `run`.
pub data Worker : Type 0 where
  waiting : Worker  -- in `thread_wait`
  runs : ℕ → Worker
  swapping : Worker  -- in `finish_run`, with a queued function
  emptying : Worker  -- after its first swap
  clearing : Worker  -- in `finish_run`, without a queued function
  resetting : Worker
  leaving : Worker  -- before it stores `DONE`
  stopped : Worker

-- Where the client of `join` stands.
pub data Joiner : Type 0 where
  outside : Joiner
  storing : Joiner  -- past the test of the state
  blocked : Joiner  -- in `t_->join()`
  returning : Joiner  -- before it stores `JOINED`
  returned : Joiner

pub record System : Type 0 where
  pub thread : MutableThread
  pub client : Client
  pub worker : Worker
  pub joiner : Joiner
  pub accepted : List ℕ  -- the functions for which a call returned true, the last one first
  pub ran : List ℕ  -- the functions that have run, the last one first

abbrev pub start : System
start = record {
  thread = construct;
  client = away;
  worker = waiting;
  joiner = outside;
  accepted = [];
  ran = [];
}

pub data Step (s : System) : System → Type 0 where
  tries :
      (f : ℕ) → s.client ≡ away → has_room s.thread ≡ true → Step s (record s { client = trying f })
  try_puts :
      (f : ℕ) {m : MutableThread}
      → s.client ≡ trying f
      → try_put s.thread f ≡ (m, true)
      → Step s (record s { thread = m; client = away; accepted = f ∷ s.accepted })
  try_refused :
      (f : ℕ) {m : MutableThread}
      → s.client ≡ trying f
      → try_put s.thread f ≡ (m, false)
      → Step s (record s { thread = m; client = away })
  spins :
      (f : ℕ) → s.client ≡ away → must_spin s.thread ≡ false → Step s (record s { client = spun f })
  refuses :
      (f : ℕ) → s.client ≡ spun f → is_closed s.thread ≡ true → Step s (record s { client = away })
  commits :
      (f : ℕ)
      → s.client ≡ spun f
      → is_closed s.thread ≡ false
      → Step s (record s { client = executing f })
  puts :
      (f : ℕ)
      → s.client ≡ executing f
      → Step s (record s { thread = put s.thread f; client = away; accepted = f ∷ s.accepted })
  starts :
      (f : ℕ)
      → s.worker ≡ waiting
      → thread_wait s.thread ≡ some true
      → s.thread.run_fn ≡ some f
      → Step s (record s { worker = runs f })
  leaves :
      s.worker ≡ waiting
      → thread_wait s.thread ≡ some false
      → Step s (record s { worker = leaving })
  finishes_queued :
      (f : ℕ)
      → s.worker ≡ runs f
      → is_set s.thread.queued_fn ≡ true
      → Step s (record s { worker = swapping; ran = f ∷ s.ran })
  finishes_alone :
      (f : ℕ)
      → s.worker ≡ runs f
      → is_set s.thread.queued_fn ≡ false
      → Step s (record s { worker = clearing; ran = f ∷ s.ran })
  swaps :
      s.worker ≡ swapping → Step s (record s { thread = swap_queued s.thread; worker = emptying })
  empties :
      s.worker ≡ emptying → Step s (record s { thread = empty_queued s.thread; worker = resetting })
  clears :
      s.worker ≡ clearing → Step s (record s { thread = empty_run s.thread; worker = resetting })
  resets : s.worker ≡ resetting → Step s (record s { thread = set_idle s.thread; worker = waiting })
  stops :
      s.worker ≡ leaving
      → Step s (record s { thread = store ThreadState.done s.thread; worker = stopped })
  joins : s.joiner ≡ outside → must_stop s.thread ≡ true → Step s (record s { joiner = storing })
  joins_done :
      s.joiner ≡ outside → must_stop s.thread ≡ false → Step s (record s { joiner = blocked })
  join_stores :
      s.joiner ≡ storing
      → Step s (record s { thread = store ThreadState.joining s.thread; joiner = blocked })
  joins_thread : s.joiner ≡ blocked → s.worker ≡ stopped → Step s (record s { joiner = returning })
  join_returns :
      s.joiner ≡ returning
      → Step s (record s { thread = store ThreadState.joined s.thread; joiner = returned })

pub data Reach (s : System) : System → Type 0 where
  here : Reach s s
  later : {t u : System} → Reach s t → Step t u → Reach s u
