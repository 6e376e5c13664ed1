-- ===== src/Barrier/Safety.antt =====
-- No thread passes a barrier of src/barrier.cc before its phase is complete.
use google_concurrency_libra.Base.{
  ℕ, ◌+◌, ◌<◌, ◌≤◌, ◌≡◌, ◌⊎◌, true, false, List, [], ◌∷◌, sum_map, arith,
}
use google_concurrency_libra.Base.Int.{pos, pos_part}
use google_concurrency_libra.Barrier.{arrive, pass, depart, drop_thread}
use google_concurrency_libra.Barrier.System.{
  System, fresh, woken, Step, arrive_idle, arrive_ready, arrive_through, drop_idle, drops,
  wakes_idle, wakes_ready, pass_waits, pass_through, departs, Reach, start, later, here,
}

-- Each completed phase had as many arrivals as threads.
abbrev pub AllEven : List (ℕ × ℕ) → Type 0
AllEven [] = Unit
AllEven (p ∷ ps) = (p.0 ≡ p.1) × AllEven ps

-- The arrivals of the completed phases.
abbrev pub completed : System → ℕ
completed s = sum_map (λ p. p.0) s.phases

-- Arrivals are counted; no thread is on its way out.
record Filling (s : System) : Type 0 where
  left : s.barrier.num_to_leave ≡ pos 0
  out : s.departing ≡ 0
  waiting : s.ready_asleep + s.ready_woken ≡ s.barrier.num_waiting
  counted : s.barrier.num_waiting ≡ s.gathered
  threads : s.barrier.thread_count ≡ pos s.phase_size
  below : (s.gathered < s.phase_size) ⊎ (s.phase_size ≡ 0)
  arrivals : s.arrived ≡ completed s + s.gathered
  releases : s.passed ≡ completed s

-- The phase is complete, and its threads leave one by one.
record Draining (s : System) : Type 0 where
  left : s.barrier.num_to_leave ≡ pos (s.departing + s.ready_asleep + s.ready_woken)
  some_left : 0 < s.departing + s.ready_asleep + s.ready_woken
  full : s.barrier.num_waiting ≡ s.phase_size
  threads : s.barrier.thread_count ≡ pos s.phase_size
  none_yet : s.gathered ≡ 0
  arrivals : s.arrived ≡ completed s
  releases : s.passed + s.departing + s.ready_asleep + s.ready_woken ≡ completed s

-- The last thread has reset the count, and is about to leave.
record Resetting (s : System) : Type 0 where
  left : s.barrier.num_to_leave ≡ pos 1
  last : s.departing ≡ 1
  none_ready : s.ready_asleep + s.ready_woken ≡ 0
  zero_waiting : s.barrier.num_waiting ≡ 0
  threads : s.barrier.thread_count ≡ pos s.phase_size
  some_threads : 0 < s.phase_size
  none_yet : s.gathered ≡ 0
  arrivals : s.arrived ≡ completed s
  releases : s.passed + 1 ≡ completed s

-- No phase completes any more: more threads are counted than there are, or all have dropped.
record Stuck (s : System) : Type 0 where
  left : s.barrier.num_to_leave ≡ pos 0
  out : s.departing ≡ 0
  over : s.ready_asleep + s.ready_woken + pos_part s.barrier.thread_count ≤ s.barrier.num_waiting
  arrivals : s.arrived ≡ completed s + s.gathered
  releases : s.passed ≡ completed s

record Inv (s : System) : Type 0 where
  even : AllEven s.phases
  mode : Filling s ⊎ (Draining s ⊎ (Resetting s ⊎ Stuck s))

Step-Inv : {s t : System} → Step s t → Inv s → Inv t
unfolding arrive pass depart drop_thread
Step-Inv (arrive_idle fresh e) o = ground arith
Step-Inv (arrive_idle (woken k w) e) o = ground arith
Step-Inv (arrive_ready fresh e) o = ground arith
Step-Inv (arrive_ready (woken k w) e) o = ground arith
Step-Inv (arrive_through {notifies = true} fresh e) o = ground arith
Step-Inv (arrive_through {notifies = true} (woken k w) e) o = ground arith
Step-Inv (arrive_through {notifies = false} fresh e) o = ground arith
Step-Inv (arrive_through {notifies = false} (woken k w) e) o = ground arith
Step-Inv (drop_idle fresh e) o = ground arith
Step-Inv (drop_idle (woken k w) e) o = ground arith
Step-Inv (drops {notifies = true} fresh e) o = ground arith
Step-Inv (drops {notifies = true} (woken k w) e) o = ground arith
Step-Inv (drops {notifies = false} fresh e) o = ground arith
Step-Inv (drops {notifies = false} (woken k w) e) o = ground arith
Step-Inv (wakes_idle k e) o = ground arith
Step-Inv (wakes_ready k e) o = ground arith
Step-Inv (pass_waits k e w) o = ground arith
Step-Inv (pass_through k {notifies = true} e w) o = ground arith
Step-Inv (pass_through k {notifies = false} e w) o = ground arith
Step-Inv (departs k e) o = ground arith

start-Inv : (n : ℕ) → Inv (start n)
start-Inv n = ground arith

Reach-Inv : {s t : System} → Inv s → Reach s t → Inv t
Reach-Inv o here = o
Reach-Inv o (later r st) = Step-Inv st (Reach-Inv o r)

-- Each completed phase of a barrier had exactly as many arrivals as there were threads that had not
-- dropped. The threads let through are at most the arrivals of the completed phases, and these
-- have all happened.
pub barrier_safety :
    (n : ℕ) {s : System}
    → Reach (start n) s
    → AllEven s.phases × (s.passed + s.departing ≤ completed s) × (completed s ≤ s.arrived)
barrier_safety n r = let o : Inv _ = Reach-Inv (start-Inv n) r in ground arith
