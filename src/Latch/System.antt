-- ===== src/Latch/System.antt =====
-- Threads that share one latch of src/latch.cc. A thread has no state of its own but its place in
-- the code, so a state counts the threads at each place. The amounts of `count_down` are not negative,
-- although src/latch.cc takes negative ones too.
use google_concurrency_libra.Base.{Bool, ℕ, suc, ◌+◌, ◌≡◌, true, false}
use google_concurrency_libra.Base.Int.{ℤ, pos, ◌≤ℤ◌}
use google_concurrency_libra.Outcome.{returned, thrown, logic_error}
use google_concurrency_libra.Latch.{Latch, construct, enter, leave, must_wait, count_down, arrive}

pub record System : Type 0 where
  pub latch : Latch
  pub entering : ℕ  -- in `wait`, before the mutex
  pub arriving : ℕ  -- in `count_down_and_wait`, before the mutex
  pub asleep : ℕ  -- in `condition_.wait`
  pub woken : ℕ  -- notified, or spuriously awake, before the mutex
  pub leaving : ℕ  -- out of the loop, before `--waiting_`
  pub failed : ℕ  -- threads that left `count_down_and_wait` by its throw
  pub passed : ℕ  -- threads that returned

-- After a notification no thread is asleep.
abbrev pub notify : Bool → System → System
notify true s = record s { asleep = 0; woken = s.asleep + s.woken }
notify false s = s

abbrev pub start : ℤ → System
start n = record {
  latch = construct n;
  entering = 0;
  arriving = 0;
  asleep = 0;
  woken = 0;
  leaving = 0;
  failed = 0;
  passed = 0;
}

pub data Step (s : System) : System → Type 0 where
  enters : Step s (record s { latch = enter s.latch; entering = s.entering + 1 })
  arrives : Step s (record s { latch = enter s.latch; arriving = s.arriving + 1 })
  tests_sleeps :
      (n : ℕ)
      → s.entering ≡ suc n
      → must_wait s.latch ≡ true
      → Step s (record s { entering = n; asleep = s.asleep + 1 })
  tests_passes :
      (n : ℕ)
      → s.entering ≡ suc n
      → must_wait s.latch ≡ false
      → Step s (record s { entering = n; leaving = s.leaving + 1 })
  wakes : (n : ℕ) → s.asleep ≡ suc n → Step s (record s { asleep = n; woken = s.woken + 1 })
  retests_sleeps :
      (n : ℕ)
      → s.woken ≡ suc n
      → must_wait s.latch ≡ true
      → Step s (record s { woken = n; asleep = s.asleep + 1 })
  retests_passes :
      (n : ℕ)
      → s.woken ≡ suc n
      → must_wait s.latch ≡ false
      → Step s (record s { woken = n; leaving = s.leaving + 1 })
  -- A caller of `count_down` with an amount that is not negative.
  counts_down :
      (n : ℤ) {l : Latch} {b : Bool}
      → pos 0 ≤ℤ n
      → count_down s.latch n ≡ returned (l, b)
      → Step s (notify b (record s { latch = l }))
  arrive_throws :
      (n : ℕ)
      → s.arriving ≡ suc n
      → arrive s.latch ≡ thrown logic_error
      → Step s (record s { arriving = n; failed = s.failed + 1 })
  arrive_notifies :
      (n : ℕ) {l : Latch}
      → s.arriving ≡ suc n
      → arrive s.latch ≡ returned (l, true)
      → Step s (notify true (record s { latch = l; arriving = n; leaving = s.leaving + 1 }))
  arrive_sleeps :
      (n : ℕ) {l : Latch}
      → s.arriving ≡ suc n
      → arrive s.latch ≡ returned (l, false)
      → must_wait l ≡ true
      → Step s (record s { latch = l; arriving = n; asleep = s.asleep + 1 })
  arrive_passes :
      (n : ℕ) {l : Latch}
      → s.arriving ≡ suc n
      → arrive s.latch ≡ returned (l, false)
      → must_wait l ≡ false
      → Step s (record s { latch = l; arriving = n; leaving = s.leaving + 1 })
  leaves :
      (n : ℕ)
      → s.leaving ≡ suc n
      → Step s (record s { latch = leave s.latch; leaving = n; passed = s.passed + 1 })

pub data Reach (s : System) : System → Type 0 where
  here : Reach s s
  later : {t u : System} → Reach s t → Step t u → Reach s u
