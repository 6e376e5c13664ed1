-- ===== src/MutableThread/Kept.antt =====
-- A function that a call has accepted is kept until it runs, by a thread of src/mutable_thread.cc.
use google_concurrency_libra.Base.{
  ℕ, ◌+◌, ◌≡◌, ◌==◌, if◌then◌else◌, true, false, Option, none, some, arith, ◌≤◌,
}
use google_concurrency_libra.Base.Sets.{count}
use google_concurrency_libra.MutableThread.{
  MutableThread, has_room, is_closed, put, try_put, thread_wait, is_set, swap_queued, empty_queued,
  empty_run, set_idle, store, must_spin, construct,
}
use google_concurrency_libra.MutableThread.System.{
  System, Client, away, trying, spun, executing, Worker, waiting, runs, swapping, emptying,
  clearing, resetting, leaving, stopped, Step, tries, try_puts, try_refused, spins, refuses,
  commits, puts, starts, leaves, finishes_queued, finishes_alone, swaps, empties, clears, resets,
  stops, joins, joins_done, join_stores, joins_thread, join_returns, Reach, start, later, here,
}

-- Whether a place holds this function.
unfoldable pub hits : ℕ → Option ℕ → ℕ
hits t none = 0
hits t (some f) = if t == f then 1 else 0

-- The places that still count, where the thread stands.
held : ℕ → Worker → MutableThread → ℕ
held t waiting m = hits t m.run_fn + hits t m.queued_fn
held t (runs f) m = hits t m.run_fn + hits t m.queued_fn
held t swapping m = hits t m.queued_fn
held t emptying m = hits t m.run_fn
held t clearing m = hits t m.queued_fn
held t resetting m = hits t m.run_fn + hits t m.queued_fn
held t leaving m = hits t m.run_fn + hits t m.queued_fn
held t stopped m = hits t m.run_fn + hits t m.queued_fn

-- What the members hold, where the thread stands.
Holds : Worker → MutableThread → Type 0
Holds waiting m = Unit
Holds (runs f) m = m.run_fn ≡ some f
Holds swapping m = (is_set m.run_fn ≡ true) × (is_set m.queued_fn ≡ true)
Holds emptying m = (is_set m.run_fn ≡ true) × (is_set m.queued_fn ≡ true)
Holds clearing m = is_set m.run_fn ≡ true
Holds resetting m = Unit
Holds leaving m = Unit
Holds stopped m = Unit

-- The client's test still holds when it gives its function.
Offers : Client → MutableThread → Type 0
Offers away m = Unit
Offers (trying f) m = has_room m ≡ true
Offers (spun f) m = must_spin m ≡ false
Offers (executing f) m = has_room m ≡ true

record Inv (t : ℕ) (s : System) : Type 0 where
  counted : count t s.accepted ≡ count t s.ran + held t s.worker s.thread
  places : Holds s.worker s.thread
  offer : Offers s.client s.thread

Step-Inv : {t : ℕ} {s u : System} → Step s u → Inv t s → Inv t u
unfolding has_room is_closed put try_put thread_wait is_set swap_queued empty_queued empty_run
    set_idle store must_spin held hits Holds Offers count
Step-Inv (tries f c r) o = ground arith
Step-Inv (try_puts f c e) o = ground arith
Step-Inv (try_refused f c e) o = ground arith
Step-Inv (spins f c r) o = ground arith
Step-Inv (refuses f c e) o = ground arith
Step-Inv (commits f c e) o = ground arith
Step-Inv (puts f c) o = ground arith
Step-Inv (starts f w e r) o = ground arith
Step-Inv (leaves w e) o = ground arith
Step-Inv (finishes_queued f w q) o = ground arith
Step-Inv (finishes_alone f w q) o = ground arith
Step-Inv (swaps w) o = ground arith
Step-Inv (empties w) o = ground arith
Step-Inv (clears w) o = ground arith
Step-Inv (resets w) o = ground arith
Step-Inv (stops w) o = ground arith
Step-Inv (joins j e) o = ground arith
Step-Inv (joins_done j e) o = ground arith
Step-Inv (join_stores j) o = ground arith
Step-Inv (joins_thread j w) o = ground arith
Step-Inv (join_returns j) o = ground arith

start-Inv : (t : ℕ) → Inv t start
unfolding construct held hits Holds Offers count
start-Inv t = record { counted = omega arith; places = tt; offer = tt }

Reach-Inv : (t : ℕ) {s : System} → Reach start s → Inv t s
Reach-Inv t here = start-Inv t
Reach-Inv t (later r st) = Step-Inv st (Reach-Inv t r)

held_below :
    (t : ℕ) (w : Worker) (m : MutableThread) → held t w m ≤ hits t m.run_fn + hits t m.queued_fn
unfolding held
held_below t waiting m = omega arith
held_below t (runs f) m = omega arith
held_below t swapping m = omega arith
held_below t emptying m = omega arith
held_below t clearing m = omega arith
held_below t resetting m = omega arith
held_below t leaving m = omega arith
held_below t stopped m = omega arith

-- While one client at a time gives functions to the thread: no function runs more often than it was
-- accepted, and each accepted one that has not run yet is still in one of the two members.
pub accepted_is_kept :
    {s : System}
    → Reach start s
    → (t : ℕ)
    → (count t s.ran ≤ count t s.accepted)
      × (count t s.accepted ≤ count t s.ran + (hits t s.thread.run_fn + hits t s.thread.queued_fn))
accepted_is_kept {s} r t =
    let o : Inv t s = Reach-Inv t r in
    (omega (arith, o.counted), omega (arith, o.counted, held_below t s.worker s.thread))
