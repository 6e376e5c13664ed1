-- ===== src/FlexBarrier/Failure.antt =====
-- What a completion function of src/flex_barrier.cc that returns 0 or throws leaves behind.
use google_concurrency_libra.Base.{Option, ℕ, ◌+◌, ◌≡◌, refl, true, false, arith}
use google_concurrency_libra.Base.Int.{ℤ, pos}
use google_concurrency_libra.FlexBarrier.{
  FlexBarrier, Arrival, arrive, pass, drop_thread, all_threads_exited,
}
use google_concurrency_libra.FlexBarrier.System.{
  System, Caller, fresh, woken, Step, arrive_idle, arrive_ready, arrive_through, arrive_fails,
  drop_idle, drops, drop_refused, drop_fails, wakes_idle, wakes_ready, pass_waits, pass_through,
  start, Reach, here, later,
}
use google_concurrency_libra.FlexBarrier.Safety.{Mode, Caller-Inv, Reach-Inv}

-- One more thread is expected to leave than there are threads inside.
record Blocked (s : System) : Type 0 where
  left : s.barrier.num_to_leave ≡ pos (s.ready_asleep + s.ready_woken + 1)

Step-Blocked : {s t : System} → Step s t → Blocked s → Blocked t
unfolding arrive pass drop_thread
Step-Blocked (arrive_idle r fresh e) o = ground arith
Step-Blocked (arrive_idle r (woken n w) e) o = ground arith
Step-Blocked (arrive_ready r fresh e) o = ground arith
Step-Blocked (arrive_ready r (woken n w) e) o = ground arith
Step-Blocked (arrive_through {notifies = true} r fresh e) o = ground arith
Step-Blocked (arrive_through {notifies = true} r (woken n w) e) o = ground arith
Step-Blocked (arrive_through {notifies = false} r fresh e) o = ground arith
Step-Blocked (arrive_through {notifies = false} r (woken n w) e) o = ground arith
Step-Blocked (arrive_fails r fresh e) o = ground arith
Step-Blocked (arrive_fails r (woken n w) e) o = ground arith
Step-Blocked (drop_idle r fresh e) o = ground arith
Step-Blocked (drop_idle r (woken n w) e) o = ground arith
Step-Blocked (drops {notifies = true} r fresh e) o = ground arith
Step-Blocked (drops {notifies = true} r (woken n w) e) o = ground arith
Step-Blocked (drops {notifies = false} r fresh e) o = ground arith
Step-Blocked (drops {notifies = false} r (woken n w) e) o = ground arith
Step-Blocked (drop_refused r fresh e) o = ground arith
Step-Blocked (drop_refused r (woken n w) e) o = ground arith
Step-Blocked (drop_fails r fresh e) o = ground arith
Step-Blocked (drop_fails r (woken n w) e) o = ground arith
Step-Blocked (wakes_idle n e) o = ground arith
Step-Blocked (wakes_ready n e) o = ground arith
Step-Blocked (pass_waits n e w) o = ground arith
Step-Blocked (pass_through n {notifies = true} e w) o = ground arith
Step-Blocked (pass_through n {notifies = false} e w) o = ground arith

Reach-Blocked : {s t : System} → Blocked s → Reach s t → Blocked t
Reach-Blocked o here = o
Reach-Blocked o (later r st) = Step-Blocked st (Reach-Blocked o r)

Caller-failed : {s t : System} → Caller s t → s.failed ≡ t.failed
Caller-failed fresh = refl
Caller-failed (woken n e) = refl

fails-Blocked :
    {t : System} {b : FlexBarrier} (r : Option ℤ)
    → arrive t.barrier r ≡ Arrival.fails b
    → Mode t
    → Blocked (record t { barrier = b; arrived = t.arrived + 1; failed = t.failed + 1 })
unfolding arrive
fails-Blocked r e o = ground arith

-- If the completion function returns 0, or throws, to the thread that arrives last, then
-- `num_to_leave_` never falls to 0 again: every later arrival waits, and so does the destructor.
pub completion_failure_blocks :
    {unset : ℤ} {n : ℕ} {s t u : System} {b : FlexBarrier} (result : Option ℤ)
    → Reach (start unset n) s
    → s.failed ≡ 0
    → Caller s t
    → arrive t.barrier result ≡ Arrival.fails b
    → Reach (record t { barrier = b; arrived = t.arrived + 1; failed = t.failed + 1 }) u
    → all_threads_exited u.barrier ≡ false
unfolding all_threads_exited
completion_failure_blocks {s = s} {t = t} result r f c e after =
    let o : Blocked _ =
      Reach-Blocked
        (fails-Blocked result e
          (Caller-Inv c (Reach-Inv r) (let g : s.failed ≡ t.failed = Caller-failed c in cc)))
        after in
    ground arith
