-- ===== src/Latch.antt =====
-- include/latch.h and src/latch.cc: threads wait until a counter reaches zero. `ptrdiff_t` is ℤ, and
-- sums are taken not to overflow it. A function is one critical section, or one atomic access.
pub mod System
pub mod Counting
pub mod Safety
mod Tests
use google_concurrency_libra.Base.{Bool, ℕ, ◌+◌, ◌-◌, ltb, if◌then◌else◌}
use google_concurrency_libra.Base.Int.{ℤ, pos, ltb_ℤ, eqb_ℤ, ◌-ℤ◌}
use google_concurrency_libra.Outcome.{Outcome, returned, thrown, logic_error}

pub record Latch : Type 0 where
  pub count : ℤ
  pub waiting : ℕ  -- `waiting_`, which `System.Inv` shows never to fall below 0

pub construct : ℤ → Latch
construct count = record { count = count; waiting = 0 }

-- `++waiting_` and `--waiting_`
pub enter : Latch → Latch
enter l = record l { waiting = l.waiting + 1 }

pub leave : Latch → Latch
leave l = record l { waiting = l.waiting - 1 }

-- The test of the loops `while (count_ > 0)`.
pub must_wait : Latch → Bool
must_wait l = ltb_ℤ (pos 0) l.count

pub is_ready : Latch → Bool
is_ready l = eqb_ℤ l.count (pos 0)

-- The latch, and whether the waiting threads are notified.
pub count_down : Latch → ℤ → Outcome (Latch × Bool)
unfolding ◌-ℤ◌
count_down l n =
    let rest = l.count -ℤ n in
    if ltb_ℤ rest (pos 0)
    then thrown logic_error
    else returned (record l { count = rest }, eqb_ℤ rest (pos 0))

-- `count_down_and_wait` from taking the mutex up to its loop: `true` if it notifies, and then it
-- does not wait.
pub arrive : Latch → Outcome (Latch × Bool)
unfolding ◌-ℤ◌
arrive l =
    let rest = l.count -ℤ pos 1 in
    if eqb_ℤ l.count (pos 0)
    then thrown logic_error
    else returned (record l { count = rest }, eqb_ℤ rest (pos 0))

-- The test of the loop in the destructor.
pub must_spin : Latch → Bool
must_spin l = ltb 0 l.waiting
