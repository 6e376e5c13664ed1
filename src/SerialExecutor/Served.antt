-- ===== src/SerialExecutor/Served.antt =====
-- The order in which the executor of src/serial_executor.cc runs its functions, and its sleep.
use google_concurrency_libra.Base.{
  ℕ, ◌≡◌, false, List, [], ◌∷◌, ◌++◌, arith, refl, ap, ◌∙◌, append_assoc, ◌≢◌,
}
use google_concurrency_libra.SerialExecutor.{
  execute, shut_down, take_next, queue_ready, queue_empty, construct, SerialExecutor, Turn,
}
use google_concurrency_libra.SerialExecutor.System.{
  System, Worker, notify, asleep, unborn, returned, Step, executes, tests_enters, tests_stops,
  sleeps, wakes, passes, takes, finishes, shuts, joins, Reach, start, later, here, running, testing,
  entering, stopped,
}

record Inv (s : System) : Type 0 where
  rest : List ℕ
  order : s.given ≡ s.started ++ rest
  held : s.executor.shutting_down ≡ false → rest ≡ s.executor.function_queue
  sleep : s.worker ≡ asleep → queue_ready s.executor ≡ false
  open_born : s.destructor ≡ unborn → s.executor.shutting_down ≡ false
  stopped_last : s.destructor ≡ returned → s.worker ≡ Worker.stopped

awake_after : (w : Worker) → notify w ≢ asleep
awake_after testing e = ground arith
awake_after entering e = ground arith
awake_after asleep e = ground arith
awake_after (running f) e = ground arith
awake_after stopped e = ground arith

take_next-runs :
    (x : SerialExecutor) {f : ℕ} {e : SerialExecutor}
    → take_next x ≡ Turn.runs f e
    → (x.shutting_down ≡ false)
      × (e.shutting_down ≡ false)
      × (x.function_queue ≡ f ∷ e.function_queue)
unfolding take_next
take_next-runs x h = ground arith

Step-Inv : {s t : System} → Step s t → Inv s → Inv t
unfolding execute queue_ready queue_empty shut_down take_next
Step-Inv {s} (executes f) o = record {
  rest = o.rest ++ f ∷ [];
  order = ground (arith, o.order, append_assoc s.started o.rest (f ∷ []));
  held = λ h. ground (arith, o.held h);
  sleep = λ h. absurd (awake_after s.worker h);
  open_born = o.open_born;
  stopped_last = λ h. ap notify (o.stopped_last h);
}
Step-Inv {s} (tests_enters w e) o = ground (arith, o.held, o.sleep, o.open_born, o.stopped_last)
Step-Inv {s} (tests_stops w e) o = ground (arith, o.held, o.sleep, o.open_born, o.stopped_last)
Step-Inv {s} (sleeps w e) o = ground (arith, o.held, o.sleep, o.open_born, o.stopped_last)
Step-Inv {s} (wakes w) o = ground (arith, o.held, o.sleep, o.open_born, o.stopped_last)
Step-Inv {s} (passes w e) o = ground (arith, o.held, o.sleep, o.open_born, o.stopped_last)
Step-Inv {s} (takes f {e = x} w e) o =
    let (a, b, c) = take_next-runs s.executor e in
    record {
      rest = x.function_queue;
      order = ground (
        arith,
        o.order,
        ap (λ r. s.started ++ r) (o.held a ∙ c),
        append_assoc s.started (f ∷ []) x.function_queue,
      );
      held = λ h. refl;
      sleep = λ h. ground arith;
      open_born = λ h. b;
      stopped_last = λ h. ground (arith, o.stopped_last h);
    }
Step-Inv {s} (finishes f w) o = ground (arith, o.held, o.sleep, o.open_born, o.stopped_last)
Step-Inv {s} (shuts d) o = record {
  rest = o.rest;
  order = o.order;
  held = λ h. ground arith;
  sleep = λ h. absurd (awake_after s.worker h);
  open_born = λ h. ground arith;
  stopped_last = λ h. ground arith;
}
Step-Inv {s} (joins d w) o = ground (arith, o.held, o.sleep, o.open_born, o.stopped_last)

start-Inv : Inv start
unfolding construct
start-Inv = record {
  rest = [];
  order = refl;
  held = λ h. refl;
  sleep = λ h. ground arith;
  open_born = λ h. refl;
  stopped_last = λ h. ground arith;
}

Reach-Inv : {s : System} → Reach start s → Inv s
Reach-Inv here = start-Inv
Reach-Inv (later r st) = Step-Inv st (Reach-Inv r)

-- In every reachable state: the functions have started in the order in which they were given, and until
-- the destructor runs the others are those in the queue; the thread sleeps only on an empty queue of an
-- executor that is not shutting down; and it has ended once the destructor returns.
pub serves_in_order :
    {s : System}
    → Reach start s
    → ((rest : List ℕ) × (s.given ≡ s.started ++ rest)
        × (s.destructor ≡ unborn → rest ≡ s.executor.function_queue))
      × (s.worker ≡ asleep → queue_ready s.executor ≡ false)
      × (s.destructor ≡ returned → s.worker ≡ Worker.stopped)
serves_in_order {s} r =
    let o : Inv s = Reach-Inv r in
    ((o.rest, o.order, λ h. o.held (o.open_born h)), o.sleep, o.stopped_last)
