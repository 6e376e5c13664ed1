-- ===== src/Counter.antt =====
-- The counters of include/counter.h: the bumpers, the simplex counters and the buffers. A count is a
-- signed integer without bound. The memory orders are relaxed, which for one variable leaves one order
-- of its accesses; a model of more than one thread is in the modules below.
pub mod Children
pub mod Duplex
pub mod Arrays
pub mod Weak
pub mod Strong
mod Tests
use google_concurrency_libra.Base.{if◌then◌else◌}
use google_concurrency_libra.Base.Int.{ℤ, pos, ◌+ℤ◌, ◌-ℤ◌, eqb_ℤ}

pub record Bumper : Type 0 where
  pub value : ℤ

unfoldable pub bumper : ℤ → Bumper
bumper v = record { value = v }

unfoldable pub load : Bumper → ℤ
load b = b.value

unfoldable pub store : ℤ → Bumper → Bumper
store v b = record b { value = v }

-- `+=` and `-=`, for one writer and for atomic ones.
unfoldable pub add : Bumper → ℤ → Bumper
unfolding load store
add b by = store (load b +ℤ by) b

unfoldable pub sub : Bumper → ℤ → Bumper
unfolding load store
sub b by = store (load b -ℤ by) b

unfoldable pub increment : Bumper → Bumper
unfolding add
increment b = add b (pos 1)

unfoldable pub decrement : Bumper → Bumper
unfolding sub
decrement b = sub b (pos 1)

-- The old value, and the bumper after it.
unfoldable pub exchange : Bumper → ℤ → ℤ × Bumper
unfolding load store
exchange b to = (load b, store to b)

-- `buffer::push` on its prime and itself.
unfoldable pub push : Bumper → Bumper → Bumper × Bumper
unfolding exchange add
push prime b =
    let (v, b') = exchange b (pos 0) in (if eqb_ℤ v (pos 0) then prime else add prime v, b')
