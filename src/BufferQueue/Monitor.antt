-- ===== src/BufferQueue/Monitor.antt =====
-- Threads that share one queue of include/buffer_queue.h. A step is one critical section of one
-- thread, with the wakeups that its signals cause. A waiting thread is asleep, or it has been woken
-- and has yet to take the mutex again; the scheduler picks which sleeper a `notify_one` wakes, and
-- may wake any sleeper without a signal. The counters of waiting threads are taken not to
-- overflow.
pub mod Invariant
pub mod Sections
pub mod Wakeups
use google_concurrency_libra.Base.{Bool, ℕ, suc, ◌+◌, ◌≡◌, Option, List, [], ◌∷◌, ◌++◌}
use google_concurrency_libra.Outcome.{Outcome, returned, thrown, QueueOpStatus}
use google_concurrency_libra.BufferQueue.{
  BufferQueue, Section, Signal, one_not_empty, one_not_full, all_not_empty, all_not_full, construct,
  try_push_common, try_pop_common, close,
}
use google_concurrency_libra.BufferQueue.Wait.{waits, ends, wait_push_turn, wait_pop_turn}

pub record System (A : Type 0) : Type 0 where
  pub queue : BufferQueue A
  pub pushers_asleep : List A  -- the element of each thread in `not_full_.wait`
  pub pushers_woken : List A
  pub poppers_asleep : ℕ  -- the threads in `not_empty_.wait`
  pub poppers_woken : ℕ
  pub closers : ℕ  -- threads in a handler, before its `close()`

-- A throwing section leaves a thread in its handler.
abbrev pub handlers : {R : Type 0} → Outcome R → ℕ → ℕ
handlers (thrown e) n = n + 1
handlers _ n = n

module _ {A : Type 0} where
  -- The signals, in their order, take the threads of the second state to those of the last one.
  pub data Notify : List Signal → System A → System A → Type 0 where
    silent : {s : System A} → Notify [] s s
    wake_pusher :
        (xs : List A) (a : A) (ys : List A) {rest : List Signal} {s t : System A}
        → s.pushers_asleep ≡ xs ++ a ∷ ys
        → Notify rest
            (record s { pushers_asleep = xs ++ ys; pushers_woken = a ∷ s.pushers_woken })
            t
        → Notify (one_not_full ∷ rest) s t
    no_pusher :
        {rest : List Signal} {s t : System A}
        → s.pushers_asleep ≡ []
        → Notify rest s t
        → Notify (one_not_full ∷ rest) s t
    wake_popper :
        (n : ℕ) {rest : List Signal} {s t : System A}
        → s.poppers_asleep ≡ suc n
        → Notify rest (record s { poppers_asleep = n; poppers_woken = s.poppers_woken + 1 }) t
        → Notify (one_not_empty ∷ rest) s t
    no_popper :
        {rest : List Signal} {s t : System A}
        → s.poppers_asleep ≡ 0
        → Notify rest s t
        → Notify (one_not_empty ∷ rest) s t
    wake_pushers :
        {rest : List Signal} {s t : System A}
        → Notify rest
            (record s { pushers_asleep = []; pushers_woken = s.pushers_asleep ++ s.pushers_woken })
            t
        → Notify (all_not_full ∷ rest) s t
    wake_poppers :
        {rest : List Signal} {s t : System A}
        → Notify rest
            (record s { poppers_asleep = 0; poppers_woken = s.poppers_asleep + s.poppers_woken })
            t
        → Notify (all_not_empty ∷ rest) s t

  -- A thread is about to run the loop body of `wait_push` with `a`: it comes from outside, or it
  -- was woken.
  pub data PusherTurn (s : System A) (a : A) (t : System A) : Type 0 where
    fresh : t ≡ s → PusherTurn s a t
    resumed :
        (xs ys : List A)
        → s.pushers_woken ≡ xs ++ a ∷ ys
        → t ≡ record s { pushers_woken = xs ++ ys }
        → PusherTurn s a t

  pub data PopperTurn (s : System A) (t : System A) : Type 0 where
    fresh : t ≡ s → PopperTurn s t
    resumed :
        (n : ℕ) → s.poppers_woken ≡ suc n → t ≡ record s { poppers_woken = n } → PopperTurn s t

  -- The state after a section that ended, before its wakeups.
  abbrev pub ended : {R : Type 0} → System A → Section A R → System A
  ended s c = record s { queue = c.after; closers = handlers c.outcome s.closers }

module _ {A : Type 0} (throws : A → Bool) where
  pub data Step (s : System A) : System A → Type 0 where
    push_waits :
        {a : A} {t : System A} {q : BufferQueue A}
        → PusherTurn s a t
        → wait_push_turn throws t.queue a ≡ waits q
        → Step s (record t { queue = q; pushers_asleep = a ∷ t.pushers_asleep })
    push_ends :
        {a : A} {t u : System A} {c : Section A QueueOpStatus}
        → PusherTurn s a t
        → wait_push_turn throws t.queue a ≡ ends c
        → Notify c.signals (ended t c) u
        → Step s u
    pop_waits :
        {t : System A} {q : BufferQueue A}
        → PopperTurn s t
        → wait_pop_turn throws t.queue ≡ waits q
        → Step s (record t { queue = q; poppers_asleep = t.poppers_asleep + 1 })
    pop_ends :
        {t u : System A} {c : Section A (QueueOpStatus × Option A)}
        → PopperTurn s t
        → wait_pop_turn throws t.queue ≡ ends c
        → Notify c.signals (ended t c) u
        → Step s u
    tries_push :
        (a : A) {u : System A}
        → Notify
            (try_push_common throws s.queue a).signals
            (ended s (try_push_common throws s.queue a))
            u
        → Step s u
    tries_pop :
        {u : System A}
        → Notify (try_pop_common throws s.queue).signals (ended s (try_pop_common throws s.queue)) u
        → Step s u
    closes : {u : System A} → Notify (close s.queue).signals (ended s (close s.queue)) u → Step s u
    handles :
        (n : ℕ) {u : System A}
        → s.closers ≡ suc n
        → Notify (close s.queue).signals (ended (record s { closers = n }) (close s.queue)) u
        → Step s u
    spurious_pusher :
        (xs : List A) (a : A) (ys : List A)
        → s.pushers_asleep ≡ xs ++ a ∷ ys
        → Step s (record s { pushers_asleep = xs ++ ys; pushers_woken = a ∷ s.pushers_woken })
    spurious_popper :
        (n : ℕ)
        → s.poppers_asleep ≡ suc n
        → Step s (record s { poppers_asleep = n; poppers_woken = s.poppers_woken + 1 })

  abbrev pub start : BufferQueue A → System A
  start q = record {
    queue = q;
    pushers_asleep = [];
    pushers_woken = [];
    poppers_asleep = 0;
    poppers_woken = 0;
    closers = 0;
  }

  -- The states that threads can bring about from a newly constructed queue.
  pub data Reach (initial : A) (max_elems : ℕ) : System A → Type 0 where
    begin :
        {q : BufferQueue A}
        → construct initial max_elems ≡ returned q
        → Reach initial max_elems (start q)
    later : {s t : System A} → Reach initial max_elems s → Step s t → Reach initial max_elems t
