-- ===== src/SerialExecutor.antt =====
-- include/serial_executor.h and src/serial_executor.cc: one thread that runs, in order, the functions
-- that it is given. A function is known by a number; a definition is one critical section.
pub mod System
pub mod Served
mod Tests
use google_concurrency_libra.Base.{Bool, ℕ, true, false, if◌then◌else◌, List, [], ◌∷◌, ◌++◌}

pub record SerialExecutor : Type 0 where
  pub function_queue : List ℕ
  pub shutting_down : Bool

pub construct : SerialExecutor
construct = record { function_queue = []; shutting_down = false }

-- It notifies one thread.
pub execute : SerialExecutor → ℕ → SerialExecutor
execute e fn = record e { function_queue = e.function_queue ++ fn ∷ [] }

pub queue_empty : List ℕ → Bool
queue_empty [] = true
queue_empty (fn ∷ queue) = false

pub queue_ready : SerialExecutor → Bool
unfolding queue_empty
queue_ready e = if queue_empty e.function_queue then e.shutting_down else true

-- The loop of the destructor.
pub pop_all : List ℕ → List ℕ
pop_all [] = []
pop_all (fn ∷ queue) = pop_all queue

-- The critical section of the destructor; it notifies one thread.
pub shut_down : SerialExecutor → SerialExecutor
shut_down e = record e { shutting_down = true; function_queue = pop_all e.function_queue }

-- What `run` does with the mutex once its wait has ended.
pub data Turn : Type 0 where
  waits : Turn
  ends : Turn
  runs : ℕ → SerialExecutor → Turn
  undefined : Turn  -- `front` of an empty queue

pub take_next : SerialExecutor → Turn
unfolding queue_ready queue_empty
take_next e =
    if queue_ready e
    then (if e.shutting_down then ends else elim e.function_queue [
      | [] ↦ undefined
      | fn ∷ queue ↦ runs fn (record e { function_queue = queue })
    ])
    else waits
