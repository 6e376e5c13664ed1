-- ===== src/CountdownLatch/Safety.antt =====
-- When threads pass a latch of src/countdown_latch.cc, and when they sleep.
use google_concurrency_libra.Base.{ℕ, ◌+◌, ◌<◌, ◌≡◌, true, false, arith, ◌≤◌}
use google_concurrency_libra.CountdownLatch.{construct, must_wait, count_down}
use google_concurrency_libra.CountdownLatch.System.{
  System, start, Step, enters, sleeps, passes, wakes, counts_down, refuses, Reach, here, later,
}

record Inv (n : ℕ) (s : System) : Type 0 where
  counted : s.downs + s.latch.count ≡ n
  asleep_waits : 0 < s.asleep → 0 < s.latch.count
  passed_open : 0 < s.passed + s.refused → s.latch.count ≡ 0

Step-Inv : {n : ℕ} {s t : System} → Step s t → Inv n s → Inv n t
unfolding must_wait count_down
Step-Inv enters o = ground (arith, o.asleep_waits, o.passed_open)
Step-Inv (sleeps n e w) o = ground (arith, o.asleep_waits, o.passed_open)
Step-Inv (passes n e w) o = ground (arith, o.asleep_waits, o.passed_open)
Step-Inv (wakes n e) o = ground (arith, o.asleep_waits, o.passed_open)
Step-Inv (counts_down {b = true} e) o = ground (arith, o.asleep_waits, o.passed_open)
Step-Inv (counts_down {b = false} e) o = ground (arith, o.asleep_waits, o.passed_open)
Step-Inv (refuses e) o = ground (arith, o.asleep_waits, o.passed_open)

start-Inv : (n : ℕ) → Inv n (start n)
unfolding construct
start-Inv n = record {
  counted = omega arith;
  asleep_waits = λ h. absurd (omega arith);
  passed_open = λ h. absurd (omega arith);
}

Reach-Inv : {n : ℕ} {s : System} → Reach (start n) s → Inv n s
Reach-Inv {n} here = start-Inv n
Reach-Inv (later r st) = Step-Inv st (Reach-Inv r)

-- For a latch made with a count `n`: a thread returns from `wait`, and a call of `count_down` throws,
-- only when `n` calls of `count_down` have returned; no more than `n` ever return; and after the last
-- of them no thread is asleep.
pub countdown_safety :
    (n : ℕ) {s : System}
    → Reach (start n) s
    → (0 < s.passed + s.refused → s.downs ≡ n) × (s.downs ≤ n) × (s.downs ≡ n → s.asleep ≡ 0)
countdown_safety n {s} r =
    let o : Inv n s = Reach-Inv r in
    (
      (λ h. ground (arith, o.passed_open)),
      omega (arith, o.counted),
      (λ h. ground (arith, o.asleep_waits)),
    )
