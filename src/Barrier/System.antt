-- ===== src/Barrier/System.antt =====
-- Threads that call `arrive_and_wait` and `arrive_and_drop` of one barrier of src/barrier.cc, again and
-- again. A thread has no state of its own but its place in the code, so a state counts the threads at
-- each place; it also counts the arrivals and the threads let through. Apart from the barrier's
-- variables it keeps what a phase is meant to be: its size, which is the number of threads less those
-- that have dropped, and the arrivals in it so far.
use google_concurrency_libra.Base.{
  List, [], ◌∷◌, ◌-◌, Bool, ℕ, suc, ◌+◌, ◌≡◌, true, false, none, some,
}
use google_concurrency_libra.Base.Int.{pos}
use google_concurrency_libra.Outcome.{Outcome}
use google_concurrency_libra.Barrier.{
  Barrier, waits_idle, waits_ready, through, arrive, pass, depart, drop_thread,
}

pub record System : Type 0 where
  pub barrier : Barrier
  pub idle_asleep : ℕ  -- in the wait for `idle_`
  pub idle_woken : ℕ
  pub ready_asleep : ℕ  -- in the wait for `ready_`
  pub ready_woken : ℕ
  pub departing : ℕ  -- past the mutex, before `--num_to_leave_`
  pub passed : ℕ  -- threads that have returned
  pub arrived : ℕ  -- how often `++num_waiting_` has run
  pub phase_size : ℕ  -- the threads that have not dropped
  pub gathered : ℕ  -- those of them that have arrived in this phase
  pub phases : List (ℕ × ℕ)  -- the arrivals and the size of each completed phase

abbrev pub notify_idle : Bool → System → System
notify_idle true s = record s { idle_asleep = 0; idle_woken = s.idle_asleep + s.idle_woken }
notify_idle false s = s

abbrev pub notify_ready : System → System
notify_ready s = record s { ready_asleep = 0; ready_woken = s.ready_asleep + s.ready_woken }

-- A thread calls, or wakes from its wait for `idle_`.
pub data Caller (s : System) : System → Type 0 where
  fresh : Caller s s
  woken : (n : ℕ) → s.idle_woken ≡ suc n → Caller s (record s { idle_woken = n })

-- The phase completes with the threads that have arrived in it.
abbrev pub ends_phase : Bool → System → System
ends_phase true s = record s { phases = (s.gathered, s.phase_size) ∷ s.phases; gathered = 0 }
ends_phase false s = s

abbrev pub notify_dropped : Bool → System → System
notify_dropped true s = notify_ready s
notify_dropped false s = s

pub data Step (s : System) : System → Type 0 where
  arrive_idle :
      {t : System}
      → Caller s t
      → arrive t.barrier ≡ waits_idle
      → Step s (record t { idle_asleep = t.idle_asleep + 1 })
  arrive_ready :
      {t : System} {b : Barrier}
      → Caller s t
      → arrive t.barrier ≡ waits_ready b
      → Step s (record t {
        barrier = b;
        ready_asleep = t.ready_asleep + 1;
        arrived = t.arrived + 1;
        gathered = t.gathered + 1;
      })
  arrive_through :
      {t : System} {b : Barrier} {notifies : Bool}
      → Caller s t
      → arrive t.barrier ≡ through b notifies
      → Step s (
          notify_idle notifies (
            notify_ready (
              ends_phase true (record t {
                barrier = b;
                departing = t.departing + 1;
                arrived = t.arrived + 1;
                gathered = t.gathered + 1;
              }))))
  drop_idle :
      {t : System}
      → Caller s t
      → drop_thread t.barrier ≡ none
      → Step s (record t { idle_asleep = t.idle_asleep + 1 })
  drops :
      {t : System} {b : Barrier} {notifies : Bool} {outcome : Outcome (Unit {0})}
      → Caller s t
      → drop_thread t.barrier ≡ some (b, notifies, outcome)
      → Step s (
          notify_dropped notifies
            (ends_phase notifies (record t { barrier = b; phase_size = t.phase_size - 1 })))
  wakes_idle :
      (n : ℕ)
      → s.idle_asleep ≡ suc n
      → Step s (record s { idle_asleep = n; idle_woken = s.idle_woken + 1 })
  wakes_ready :
      (n : ℕ)
      → s.ready_asleep ≡ suc n
      → Step s (record s { ready_asleep = n; ready_woken = s.ready_woken + 1 })
  pass_waits :
      (n : ℕ)
      → s.ready_woken ≡ suc n
      → pass s.barrier ≡ none
      → Step s (record s { ready_woken = n; ready_asleep = s.ready_asleep + 1 })
  pass_through :
      (n : ℕ) {b : Barrier} {notifies : Bool}
      → s.ready_woken ≡ suc n
      → pass s.barrier ≡ some (b, notifies)
      → Step s (
          notify_idle notifies
            (record s { barrier = b; ready_woken = n; departing = s.departing + 1 }))
  departs :
      (n : ℕ)
      → s.departing ≡ suc n
      → Step s (record s { barrier = depart s.barrier; departing = n; passed = s.passed + 1 })

abbrev pub start : ℕ → System
start n = record {
  barrier = record { thread_count = pos n; num_waiting = 0; num_to_leave = pos 0 };
  idle_asleep = 0;
  idle_woken = 0;
  ready_asleep = 0;
  ready_woken = 0;
  departing = 0;
  passed = 0;
  arrived = 0;
  phase_size = n;
  gathered = 0;
  phases = [];
}

pub data Reach (s : System) : System → Type 0 where
  here : Reach s s
  later : {t u : System} → Reach s t → Step t u → Reach s u
