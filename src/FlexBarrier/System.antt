-- ===== src/FlexBarrier/System.antt =====
-- Threads that call `arrive_and_wait` and `arrive_and_drop` of one barrier of src/flex_barrier.cc. A
-- state counts the threads at each place of the code; it also counts the arrivals, the threads that
-- have returned, and those that belong to a completed phase. Apart from the barrier's variables it
-- keeps what a phase is meant to be: its size, which is what the last completion function has
-- returned less the threads that have dropped, and the arrivals in it so far. The completion
-- function's result is chosen anew at each call.
use google_concurrency_libra.Base.{
  Option, Bool, ℕ, suc, ◌+◌, ◌-◌, ◌≡◌, ◌==◌, List, [], ◌∷◌, if◌then◌else◌, true, false, none, some,
}
use google_concurrency_libra.Base.Int.{ℤ, pos, pos_part, ltb_ℤ}
use google_concurrency_libra.FlexBarrier.{FlexBarrier, Arrival, arrive, pass, Drop, drop_thread}

pub record System : Type 0 where
  pub barrier : FlexBarrier
  pub idle_asleep : ℕ  -- in a wait for `idle_`, of either call
  pub idle_woken : ℕ
  pub ready_asleep : ℕ  -- in the wait for `ready_`
  pub ready_woken : ℕ
  pub passed : ℕ
  pub arrived : ℕ
  pub completed : ℕ
  pub phase_size : ℕ  -- the threads that take part in this phase
  pub gathered : ℕ  -- those of them that have arrived
  pub phases : List (ℕ × ℕ)  -- the arrivals and the size of each completed phase
  pub failed : ℕ  -- how often the completion function returned 0 or threw

abbrev pub notify_idle : Bool → System → System
notify_idle true s = record s { idle_asleep = 0; idle_woken = s.idle_asleep + s.idle_woken }
notify_idle false s = s

abbrev pub notify_ready : Bool → System → System
notify_ready true s = record s { ready_asleep = 0; ready_woken = s.ready_asleep + s.ready_woken }
notify_ready false s = s

-- A thread calls, or wakes from its wait for `idle_`.
pub data Caller (s : System) : System → Type 0 where
  fresh : Caller s s
  woken : (n : ℕ) → s.idle_woken ≡ suc n → Caller s (record s { idle_woken = n })

-- The size of the next phase: a result that is negative keeps the size, and once all threads have
-- dropped there are none in the next phase either.
abbrev pub following : Option ℤ → ℕ → ℕ
following none n = n
following (some result) n =
    if n == 0 then 0 else (if ltb_ℤ (pos 0) result then pos_part result else n)

-- The phase completes with the threads that have arrived in it.
abbrev pub ends_phase : Option ℤ → System → System
ends_phase result s = record s {
  completed = s.completed + s.gathered;
  phases = (s.gathered, s.phase_size) ∷ s.phases;
  gathered = 0;
  phase_size = following result s.phase_size;
}

abbrev pub completes : Bool → Option ℤ → System → System
completes true result s = ends_phase result s
completes false result s = s

pub data Step (s : System) : System → Type 0 where
  arrive_idle :
      {t : System} (result : Option ℤ)
      → Caller s t
      → arrive t.barrier result ≡ Arrival.waits_idle
      → Step s (record t { idle_asleep = t.idle_asleep + 1 })
  arrive_ready :
      {t : System} {b : FlexBarrier} (result : Option ℤ)
      → Caller s t
      → arrive t.barrier result ≡ Arrival.waits_ready b
      → Step s (record t {
        barrier = b;
        ready_asleep = t.ready_asleep + 1;
        arrived = t.arrived + 1;
        gathered = t.gathered + 1;
      })
  arrive_through :
      {t : System} {b : FlexBarrier} {notifies : Bool} (result : Option ℤ)
      → Caller s t
      → arrive t.barrier result ≡ Arrival.through b notifies
      → Step s (
          notify_idle notifies (
            notify_ready true (
              ends_phase result (record t {
                barrier = b;
                passed = t.passed + 1;
                arrived = t.arrived + 1;
                gathered = t.gathered + 1;
              }))))
  arrive_fails :
      {t : System} {b : FlexBarrier} (result : Option ℤ)
      → Caller s t
      → arrive t.barrier result ≡ Arrival.fails b
      → Step s (record t { barrier = b; arrived = t.arrived + 1; failed = t.failed + 1 })
  drop_idle :
      {t : System} (result : Option ℤ)
      → Caller s t
      → drop_thread t.barrier result ≡ Drop.waits_idle
      → Step s (record t { idle_asleep = t.idle_asleep + 1 })
  drops :
      {t : System} {b : FlexBarrier} {notifies : Bool} (result : Option ℤ)
      → Caller s t
      → drop_thread t.barrier result ≡ Drop.dropped b notifies
      → Step s (
          completes notifies result
            (notify_ready notifies (record t { barrier = b; phase_size = t.phase_size - 1 })))
  drop_refused :
      {t : System} (result : Option ℤ)
      → Caller s t
      → drop_thread t.barrier result ≡ Drop.refused
      → Step s t
  drop_fails :
      {t : System} {b : FlexBarrier} (result : Option ℤ)
      → Caller s t
      → drop_thread t.barrier result ≡ Drop.fails b
      → Step s (record t { barrier = b; failed = t.failed + 1 })
  wakes_idle :
      (n : ℕ)
      → s.idle_asleep ≡ suc n
      → Step s (record s { idle_asleep = n; idle_woken = s.idle_woken + 1 })
  wakes_ready :
      (n : ℕ)
      → s.ready_asleep ≡ suc n
      → Step s (record s { ready_asleep = n; ready_woken = s.ready_woken + 1 })
  pass_waits :
      (n : ℕ)
      → s.ready_woken ≡ suc n
      → pass s.barrier ≡ none
      → Step s (record s { ready_woken = n; ready_asleep = s.ready_asleep + 1 })
  pass_through :
      (n : ℕ) {b : FlexBarrier} {notifies : Bool}
      → s.ready_woken ≡ suc n
      → pass s.barrier ≡ some (b, notifies)
      → Step s
          (notify_idle notifies (record s { barrier = b; ready_woken = n; passed = s.passed + 1 }))

abbrev pub start : ℤ → ℕ → System
start unset n = record {
  barrier = record {
    thread_count = pos n;
    new_thread_count = unset;
    num_waiting = 0;
    num_to_leave = pos 0;
  };
  idle_asleep = 0;
  idle_woken = 0;
  ready_asleep = 0;
  ready_woken = 0;
  passed = 0;
  arrived = 0;
  completed = 0;
  phase_size = n;
  gathered = 0;
  phases = [];
  failed = 0;
}

pub data Reach (s : System) : System → Type 0 where
  here : Reach s s
  later : {t u : System} → Reach s t → Step t u → Reach s u
