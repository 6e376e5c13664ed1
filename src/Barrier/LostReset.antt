-- ===== src/Barrier/LostReset.antt =====
-- The count of src/barrier.cc is reset under the mutex by the thread that sees `num_to_leave_` at 1,
-- but `num_to_leave_` is counted down outside it: a schedule in which no thread sees 1.
use google_concurrency_libra.Base.{[], ◌∷◌, ◌==◌, if◌then◌else◌, ℕ, ◌+◌, ◌≤◌, ◌≡◌}
use google_concurrency_libra.Base.Int.{pos, pos_part}
use google_concurrency_libra.Barrier.System.{System}

-- `asleep`, `ready` and `out` threads of the first phase are in the wait, woken, and departing.
abbrev at : ℕ → (waiting : ℕ) (left : ℕ) (asleep ready out passed arrived phases : ℕ) → System
at n waiting left asleep ready out passed arrived phases = record {
  barrier = record { thread_count = pos n; num_waiting = waiting; num_to_leave = pos left };
  idle_asleep = 0;
  idle_woken = 0;
  ready_asleep = asleep;
  ready_woken = ready;
  departing = out;
  passed = passed;
  arrived = arrived;
  phase_size = n;
  gathered = if phases == 0 then arrived else 0;
  phases = if phases == 0 then [] else (n, n) ∷ [];
}

abbrev stuck : ℕ → System
stuck n = at n n 0 0 0 0 n n 1

record Frozen (n : ℕ) (s : System) : Type 0 where
  left : s.barrier.num_to_leave ≡ pos 0
  out : s.departing ≡ 0
  over : s.ready_asleep + s.ready_woken + pos_part s.barrier.thread_count ≤ s.barrier.num_waiting
  passed_all : s.passed ≡ n
