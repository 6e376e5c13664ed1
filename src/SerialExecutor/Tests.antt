-- ===== src/SerialExecutor/Tests.antt =====
-- Runs of the executor of src/serial_executor.cc, and its theorem at a concrete state.
use google_concurrency_libra.Base.{ℕ, ◌≡◌, refl, false, List, [], ◌∷◌, ◌++◌, true}
use google_concurrency_libra.SerialExecutor.{
  construct, execute, shut_down, take_next, queue_ready, queue_empty, pop_all,
}
use google_concurrency_libra.SerialExecutor.System.{
  System, Worker, asleep, unborn, returned, start, Reach, here, later, executes, tests_enters,
  takes,
}
use google_concurrency_libra.SerialExecutor.Served.{serves_in_order}

-- What is still in the queue is dropped by the destructor.
queue_is_dropped :
    shut_down (execute (execute construct 1) 2)
    ≡ record { function_queue = []; shutting_down = true }
unfolding shut_down execute construct pop_all
queue_is_dropped = refl

-- Functions 1 and 2 were given, and 1 has started.
abbrev serving : System
serving = record {
  executor = record { function_queue = 2 ∷ []; shutting_down = false };
  worker = Worker.running 1;
  destructor = unborn;
  given = 1 ∷ 2 ∷ [];
  started = 1 ∷ [];
}

serving-Reach : Reach start serving
unfolding construct execute take_next queue_ready queue_empty
serving-Reach =
    later (later (later (later here (executes 1)) (executes 2)) (tests_enters refl refl))
      (takes 1 refl refl)

serves_in_order_example :
    ((rest : List ℕ) × (serving.given ≡ serving.started ++ rest)
      × (serving.destructor ≡ unborn → rest ≡ serving.executor.function_queue))
    × (serving.worker ≡ asleep → queue_ready serving.executor ≡ false)
    × (serving.destructor ≡ returned → serving.worker ≡ Worker.stopped)
serves_in_order_example = serves_in_order serving-Reach
