-- ===== src/MutableThread/Joining.antt =====
-- What `join` of src/mutable_thread.cc does to the functions that have not started.
use google_concurrency_libra.Base.{ℕ, ◌≡◌, ◌⊎◌, true, List, arith, refl, inl}
use google_concurrency_libra.MutableThread.{
  is_closed, is_done, is_joining, put, try_put, thread_wait, store,
}
use google_concurrency_libra.MutableThread.System.{
  System, waiting, leaving, stopped, Step, Reach, here, later, tries, try_puts, try_refused, spins,
  refuses, commits, puts, starts, leaves, finishes_queued, finishes_alone, swaps, empties, clears,
  resets, stops, joins, joins_done, join_stores, joins_thread, join_returns,
}

-- No function runs, and none will start.
record Ending (ran : List ℕ) (s : System) : Type 0 where
  closed : is_closed s.thread ≡ true
  worker : (s.worker ≡ waiting) ⊎ (s.worker ≡ leaving) ⊎ (s.worker ≡ stopped)
  same : s.ran ≡ ran

Step-Ending : {ran : List ℕ} {s t : System} → Step s t → Ending ran s → Ending ran t
unfolding is_closed is_done is_joining put try_put thread_wait store
Step-Ending (tries f c r) o = ground arith
Step-Ending (try_puts f c e) o = ground arith
Step-Ending (try_refused f c e) o = ground arith
Step-Ending (spins f c r) o = ground arith
Step-Ending (refuses f c e) o = ground arith
Step-Ending (commits f c e) o = ground arith
Step-Ending (puts f c) o = ground arith
Step-Ending (starts f w e r) o = ground arith
Step-Ending (leaves w e) o = ground arith
Step-Ending (finishes_queued f w q) o = ground arith
Step-Ending (finishes_alone f w q) o = ground arith
Step-Ending (swaps w) o = ground arith
Step-Ending (empties w) o = ground arith
Step-Ending (clears w) o = ground arith
Step-Ending (resets w) o = ground arith
Step-Ending (stops w) o = ground arith
Step-Ending (joins j e) o = ground arith
Step-Ending (joins_done j e) o = ground arith
Step-Ending (join_stores j) o = ground arith
Step-Ending (joins_thread j w) o = ground arith
Step-Ending (join_returns j) o = ground arith

Reach-Ending : {ran : List ℕ} {s t : System} → Ending ran s → Reach s t → Ending ran t
Reach-Ending o here = o
Reach-Ending o (later r st) = Step-Ending st (Reach-Ending o r)

-- Once `join` has stored its state while the thread waits, no function runs any more, whatever the two
-- members hold and whatever is given to the thread afterwards.
pub joining_starts_none :
    {s t : System} → is_joining s.thread ≡ true → s.worker ≡ waiting → Reach s t → t.ran ≡ s.ran
unfolding is_closed
joining_starts_none {s} j w r =
    let o : Ending s.ran s = record { closed = ground arith; worker = inl w; same = refl } in
    (Reach-Ending o r).same
