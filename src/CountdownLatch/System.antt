-- ===== src/CountdownLatch/System.antt =====
-- Threads that share one latch of src/countdown_latch.cc: how many stand at each place of `wait`.
use google_concurrency_libra.Base.{Bool, ℕ, suc, ◌+◌, ◌≡◌, true, false}
use google_concurrency_libra.Outcome.{returned, thrown, system_error}
use google_concurrency_libra.CountdownLatch.{CountdownLatch, construct, must_wait, count_down}

pub record System : Type 0 where
  pub latch : CountdownLatch
  pub entering : ℕ  -- before the mutex, or with it back in the loop
  pub asleep : ℕ
  pub passed : ℕ
  pub downs : ℕ  -- calls of `count_down` that have returned
  pub refused : ℕ  -- calls of `count_down` that have thrown

-- After a notification no thread is asleep.
abbrev pub notify : Bool → System → System
notify true s = record s { asleep = 0; entering = s.asleep + s.entering }
notify false s = s

abbrev pub start : ℕ → System
start n = record {
  latch = construct n;
  entering = 0;
  asleep = 0;
  passed = 0;
  downs = 0;
  refused = 0;
}

pub data Step (s : System) : System → Type 0 where
  enters : Step s (record s { entering = s.entering + 1 })
  sleeps :
      (n : ℕ)
      → s.entering ≡ suc n
      → must_wait s.latch ≡ true
      → Step s (record s { entering = n; asleep = s.asleep + 1 })
  passes :
      (n : ℕ)
      → s.entering ≡ suc n
      → must_wait s.latch ≡ false
      → Step s (record s { entering = n; passed = s.passed + 1 })
  wakes : (n : ℕ) → s.asleep ≡ suc n → Step s (record s { asleep = n; entering = s.entering + 1 })
  counts_down :
      {l : CountdownLatch} {b : Bool}
      → count_down s.latch ≡ returned (l, b)
      → Step s (notify b (record s { latch = l; downs = s.downs + 1 }))
  refuses : count_down s.latch ≡ thrown system_error → Step s (record s { refused = s.refused + 1 })

pub data Reach (s : System) : System → Type 0 where
  here : Reach s s
  later : {t u : System} → Reach s t → Step t u → Reach s u
