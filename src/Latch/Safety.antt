-- ===== src/Latch/Safety.antt =====
-- No thread passes a latch of src/latch.cc early, none is left asleep, and `waiting_` counts right,
-- except for the threads that leave by a throw.
use google_concurrency_libra.Base.Int.{◌≤ℤ◌, pos}
use google_concurrency_libra.Base.{◌+◌, ◌<◌, ◌≡◌, true, false, arith, ◌≤◌, refl}
use google_concurrency_libra.Latch.{
  enter, leave, must_wait, count_down, arrive, must_spin, construct, ℤ,
}
use google_concurrency_libra.Latch.System.{
  System, Step, enters, arrives, tests_sleeps, tests_passes, wakes, retests_sleeps, retests_passes,
  counts_down, arrive_throws, arrive_notifies, arrive_sleeps, arrive_passes, leaves, Reach, start,
  later, here,
}

pub record Inv (s : System) : Type 0 where
  pub counted :
      s.latch.waiting ≡ s.entering + s.arriving + s.asleep + s.woken + s.leaving + s.failed
  pub asleep_waits : 0 < s.asleep → must_wait s.latch ≡ true
  pub passed_open : 0 < s.leaving + s.passed → must_wait s.latch ≡ false

Step-Inv : {s t : System} → Step s t → Inv s → Inv t
unfolding enter leave must_wait count_down arrive
Step-Inv enters o = ground (arith, o.asleep_waits, o.passed_open)
Step-Inv arrives o = ground (arith, o.asleep_waits, o.passed_open)
Step-Inv (tests_sleeps n e w) o = ground (arith, o.asleep_waits, o.passed_open)
Step-Inv (tests_passes n e w) o = ground (arith, o.asleep_waits, o.passed_open)
Step-Inv (wakes n e) o = ground (arith, o.asleep_waits, o.passed_open)
Step-Inv (retests_sleeps n e w) o = ground (arith, o.asleep_waits, o.passed_open)
Step-Inv (retests_passes n e w) o = ground (arith, o.asleep_waits, o.passed_open)
Step-Inv (counts_down n {b = true} p e) o = ground (arith, o.asleep_waits, o.passed_open)
Step-Inv (counts_down n {b = false} p e) o = ground (arith, o.asleep_waits, o.passed_open)
Step-Inv (arrive_throws n e w) o = ground (arith, o.asleep_waits, o.passed_open)
Step-Inv (arrive_notifies n e w) o = ground (arith, o.asleep_waits, o.passed_open)
Step-Inv (arrive_sleeps n e w v) o = ground (arith, o.asleep_waits, o.passed_open)
Step-Inv (arrive_passes n e w v) o = ground (arith, o.asleep_waits, o.passed_open)
Step-Inv (leaves n e) o = ground (arith, o.asleep_waits, o.passed_open)

start-Inv : (n : ℤ) → Inv (start n)
unfolding construct
start-Inv n = record {
  counted = refl;
  asleep_waits = λ h. absurd (omega arith);
  passed_open = λ h. absurd (omega arith);
}

Reach-Inv : {s t : System} → Inv s → Reach s t → Inv t
Reach-Inv o here = o
Reach-Inv o (later r st) = Step-Inv st (Reach-Inv o r)

-- Whatever the threads do: once a thread is past the loop of `wait` or `count_down_and_wait`, the
-- count is not positive, and no thread sleeps while the count is not positive. The destructor's loop ends
-- only when no thread is inside either of them, and `--waiting_` never runs at 0.
pub latch_safety :
    (n : ℤ) {s : System}
    → Reach (start n) s
    → (0 < s.leaving + s.passed → s.latch.count ≤ℤ pos 0)
      × (s.latch.count ≤ℤ pos 0 → s.asleep ≡ 0)
      × (must_spin s.latch ≡ false → s.entering + s.arriving + s.asleep + s.woken + s.leaving ≡ 0)
      × (0 < s.leaving → 0 < s.latch.waiting)
unfolding must_wait must_spin
latch_safety n {s} r =
    let o : Inv s = Reach-Inv (start-Inv n) r in
    (
      λ h. ground (arith, o.passed_open),
      λ h. ground (arith, o.asleep_waits),
      λ h. ground arith,
      λ h. ground arith,
    )

failed_grows : {s t : System} → Step s t → s.failed ≤ t.failed
failed_grows (counts_down n {b = true} p e) = omega arith
failed_grows (counts_down n {b = false} p e) = omega arith
failed_grows st = omega arith

failed_stays : {s t : System} → Reach s t → s.failed ≤ t.failed
failed_stays here = omega arith
failed_stays (later r st) = omega (arith, failed_stays r, failed_grows st)

-- A thread that leaves `count_down_and_wait` by its throw has counted itself in `waiting_` and does
-- not undo that: from then on the loop of the destructor never ends.
pub thrown_blocks_destructor :
    (n : ℤ) {s t : System} → Reach (start n) s → 0 < s.failed → Reach s t → must_spin t.latch ≡ true
unfolding must_spin
thrown_blocks_destructor n {s} {t} r h r' =
    let o : Inv t = Reach-Inv (Reach-Inv (start-Inv n) r) r' in ground (arith, failed_stays r')
