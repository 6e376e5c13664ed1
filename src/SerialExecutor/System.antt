-- ===== src/SerialExecutor/System.antt =====
-- Threads that call `execute` of one executor of src/serial_executor.cc, the thread that destroys it,
-- and its own thread.
use google_concurrency_libra.Base.{ℕ, ◌≡◌, true, false, List, [], ◌∷◌, ◌++◌}
use google_concurrency_libra.SerialExecutor.{
  SerialExecutor, construct, execute, shut_down, Turn, take_next,
}

-- Where the thread of the executor stands in `run`.
pub data Worker : Type 0 where
  testing : Worker  -- at the test of the loop
  entering : Worker  -- before it takes the mutex, or has it back in its wait
  asleep : Worker
  running : ℕ → Worker
  stopped : Worker

-- Where the destructor stands.
pub data Destructor : Type 0 where
  unborn : Destructor
  blocked : Destructor  -- in `run_thread.join()`
  returned : Destructor

pub record System : Type 0 where
  pub executor : SerialExecutor
  pub worker : Worker
  pub destructor : Destructor
  pub given : List ℕ
  pub started : List ℕ

-- A notification wakes the thread if it is asleep.
abbrev pub notify : Worker → Worker
notify testing = testing
notify entering = entering
notify asleep = entering
notify (running f) = running f
notify stopped = stopped

abbrev pub start : System
start = record {
  executor = construct;
  worker = testing;
  destructor = unborn;
  given = [];
  started = [];
}

pub data Step (s : System) : System → Type 0 where
  executes :
      (f : ℕ)
      → Step s (record s {
        executor = execute s.executor f;
        worker = notify s.worker;
        given = s.given ++ f ∷ [];
      })
  tests_enters :
      s.worker ≡ testing
      → s.executor.shutting_down ≡ false
      → Step s (record s { worker = entering })
  tests_stops :
      s.worker ≡ testing → s.executor.shutting_down ≡ true → Step s (record s { worker = stopped })
  sleeps :
      s.worker ≡ entering
      → take_next s.executor ≡ Turn.waits
      → Step s (record s { worker = asleep })
  wakes : s.worker ≡ asleep → Step s (record s { worker = entering })
  passes :
      s.worker ≡ entering
      → take_next s.executor ≡ Turn.ends
      → Step s (record s { worker = testing })
  takes :
      (f : ℕ) {e : SerialExecutor}
      → s.worker ≡ entering
      → take_next s.executor ≡ Turn.runs f e
      → Step s (record s { executor = e; worker = running f; started = s.started ++ f ∷ [] })
  finishes : (f : ℕ) → s.worker ≡ running f → Step s (record s { worker = testing })
  shuts :
      s.destructor ≡ unborn
      → Step s (record s {
        executor = shut_down s.executor;
        worker = notify s.worker;
        destructor = blocked;
      })
  joins : s.destructor ≡ blocked → s.worker ≡ stopped → Step s (record s { destructor = returned })

pub data Reach (s : System) : System → Type 0 where
  here : Reach s s
  later : {t u : System} → Reach s t → Step t u → Reach s u
