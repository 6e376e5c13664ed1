-- ===== src/LockFreeQueue/System.antt =====
-- Any number of threads that share one queue of include/lock_free_buffer_queue.h. Beside the queue a
-- state records, for each position, what a push put there, what pops gave out, and which threads moved
-- `tail_` and `head_` past it.
use google_concurrency_libra.Base.{Bool, ℕ, ◌≡◌, false, List, [], ◌∷◌, update}
use google_concurrency_libra.LockFreeQueue.{LockFreeQueue, ValueState}
use google_concurrency_libra.LockFreeQueue.Moves.{
  Place, away, push_start, push_write, pop_start, pop_read, pop_clear, Move, goes, ends, advance,
}

pub record Shared (A : Type 0) : Type 0 where
  pub queue : LockFreeQueue A
  pub accepted : ℕ → List A
  pub delivered : ℕ → List A
  pub pusher : ℕ → ℕ
  pub popper : ℕ → ℕ

pub record System (A : Type 0) : Type 0 where
  pub shared : Shared A
  pub threads : ℕ → Place A

module _ {A : Type 0} where
  -- What is recorded when a thread comes to a place.
  abbrev pub arrives : ℕ → Place A → Shared A → Shared A
  arrives i (push_write x tail) s = record s {
    accepted = update s.accepted tail (x ∷ s.accepted tail);
    pusher = update s.pusher tail i;
  }
  arrives i (pop_read head) s = record s { popper = update s.popper head i }
  arrives i p s = s

  -- What is recorded when a call ends.
  abbrev pub finishes : Place A → Shared A → Shared A
  finishes (pop_clear head x) s = record s {
    delivered = update s.delivered head (x ∷ s.delivered head);
  }
  finishes p s = s

  abbrev pub settle : ℕ → Place A → Shared A → Move A → Shared A × Place A
  settle i p s (goes q p') = (arrives i p' (record s { queue = q }), p')
  settle i p s (ends q answer) = (finishes p (record s { queue = q }), away)

  abbrev pub start : A → ℕ → System A
  start blank n = record {
    shared = record {
      queue = record {
        cardinality = n;
        head = 0;
        tail = 0;
        value_state = λ p. ValueState.waiting;
        values = λ p. blank;
      };
      accepted = λ k. [];
      delivered = λ k. [];
      pusher = λ k. 0;
      popper = λ k. 0;
    };
    threads = λ i. away;
  }

module _ {A : Type 0} (throws : A → Bool) where
  -- One step of thread `i`, which stands at `p`.
  unfoldable pub act : Bool → ℕ → Place A → Shared A → Shared A × Place A
  unfolding advance
  act spurious i p s = settle i p s (advance throws spurious s.queue p)

  unfoldable pub moved : Bool → ℕ → System A → System A
  unfolding act
  moved spurious i s =
      let (s', p') = act spurious i (s.threads i) s.shared in
      record { shared = s'; threads = update s.threads i p' }

  -- `weak` tells whether a weak exchange may fail spuriously.
  pub data Step (weak : Bool) (s : System A) : System A → Type 0 where
    calls_push :
        (i : ℕ) (x : A)
        → s.threads i ≡ away
        → Step weak s (record s { threads = update s.threads i (push_start x) })
    calls_pop :
        (i : ℕ)
        → s.threads i ≡ away
        → Step weak s (record s { threads = update s.threads i pop_start })
    advances :
        (i : ℕ) (spurious : Bool)
        → (weak ≡ false → spurious ≡ false)
        → Step weak s (moved spurious i s)

  pub data Reach (weak : Bool) (s : System A) : System A → Type 0 where
    here : Reach weak s s
    later : {t u : System A} → Reach weak s t → Step weak t u → Reach weak s u
