-- ===== src/LockFreeQueue/Keeps.antt =====
-- The counters and slots of include/lock_free_buffer_queue.h stay sound under each step that changes
-- them.
use google_concurrency_libra.Base.{ℕ, ◌+◌, ◌%◌, ◌<◌, ◌≡◌, [], ◌∷◌, arith, ap, update}
use google_concurrency_libra.LockFreeQueue.{valid, waiting}
use google_concurrency_libra.LockFreeQueue.System.{Shared}
use google_concurrency_libra.LockFreeQueue.Slots.{Fills, Drains, Sound}
use google_concurrency_libra.LockFreeQueue.Frame.{same_slot}

module _ {A : Type 0} where
  same_state :
      (s : Shared A) (m k : ℕ)
      → m ≡ k
      → s.queue.value_state (m % s.queue.cardinality)
        ≡ s.queue.value_state (k % s.queue.cardinality)
  same_state s m k e = ap (λ l. s.queue.value_state (l % s.queue.cardinality)) e

  pub reserve_tail-Sound :
      {s : Shared A} (i k : ℕ) (x : A)
      → Sound s
      → s.queue.tail ≡ k
      → k < s.queue.head + s.queue.cardinality
      → s.queue.value_state (k % s.queue.cardinality) ≡ waiting
      → Sound (record s {
        queue = record s.queue { tail = k + 1 };
        accepted = update s.accepted k (x ∷ s.accepted k);
        pusher = update s.pusher k i;
      })
  reserve_tail-Sound {s = s} i k x v e room w = record {
    some_slot = ground (arith, v.some_slot);
    ordered = ground (arith, v.ordered);
    within = ground (arith, v.within);
    stored = λ m a b u.
        ground
          (arith, same_slot k m s.queue.cardinality, v.later_free m, same_state s m k, v.stored m);
    later_free = λ m a. ground (arith, v.later_free m);
    undelivered = λ m a. ground (arith, v.undelivered m);
    settled = λ m. ground (arith, v.settled m, v.undelivered m);
    once = λ m a. ground (arith, v.once m, v.later_free m);
    never_invalid = λ p. ground (arith, v.never_invalid p);
  }

  pub write_value-Sound :
      {s : Shared A} (i k : ℕ) (x : A)
      → Sound s
      → Fills i x k s
      → Sound (record s {
        queue = record s.queue { values = update s.queue.values (k % s.queue.cardinality) x };
      })
  write_value-Sound {s = s} i k x v f = record {
    some_slot = ground (arith, v.some_slot);
    ordered = ground (arith, v.ordered);
    within = ground (arith, v.within);
    stored = λ m a b u. ground (arith, same_slot k m s.queue.cardinality, v.stored m);
    later_free = λ m a. ground (arith, v.later_free m);
    undelivered = λ m a. ground (arith, v.undelivered m);
    settled = λ m. ground (arith, v.settled m);
    once = λ m a. ground (arith, v.once m, v.later_free m);
    never_invalid = λ p. ground (arith, v.never_invalid p);
  }

  pub set_state-Sound :
      {s : Shared A} (i k : ℕ) (x : A)
      → Sound s
      → Fills i x k s
      → s.queue.values (k % s.queue.cardinality) ≡ x
      → Sound (record s {
        queue = record s.queue {
          value_state = update s.queue.value_state (k % s.queue.cardinality) valid;
        };
      })
  set_state-Sound {s = s} i k x v f e = record {
    some_slot = ground (arith, v.some_slot);
    ordered = ground (arith, v.ordered);
    within = ground (arith, v.within);
    stored = λ m a b u. ground (arith, same_slot k m s.queue.cardinality, v.stored m);
    later_free = λ m a. ground (arith, v.later_free m);
    undelivered = λ m a. ground (arith, v.undelivered m);
    settled = λ m. ground (arith, v.settled m);
    once = λ m a. ground (arith, v.once m, v.later_free m);
    never_invalid = λ p. ground (arith, v.never_invalid p);
  }

  pub reserve_head-Sound :
      {s : Shared A} (i k : ℕ)
      → Sound s
      → s.queue.head ≡ k
      → k < s.queue.tail
      → Sound (record s { queue = record s.queue { head = k + 1 }; popper = update s.popper k i })
  reserve_head-Sound {s = s} i k v e l = record {
    some_slot = ground (arith, v.some_slot);
    ordered = ground (arith, v.ordered);
    within = ground (arith, v.within);
    stored = λ m a b u. ground (arith, same_slot k m s.queue.cardinality, v.stored m);
    later_free = λ m a. ground (arith, v.later_free m);
    undelivered = λ m a. ground (arith, v.undelivered m);
    settled = λ m. ground (arith, v.settled m);
    once = λ m a. ground (arith, v.once m, v.later_free m);
    never_invalid = λ p. ground (arith, v.never_invalid p);
  }

  pub clear_value-Sound :
      {s : Shared A} (i k : ℕ) (x : A)
      → Sound s
      → Drains i k s
      → s.accepted k ≡ x ∷ []
      → Sound (record s {
        queue = record s.queue {
          value_state = update s.queue.value_state (k % s.queue.cardinality) waiting;
        };
        delivered = update s.delivered k (x ∷ s.delivered k);
      })
  clear_value-Sound {s = s} i k x v d e = record {
    some_slot = ground (arith, v.some_slot);
    ordered = ground (arith, v.ordered);
    within = ground (arith, v.within);
    stored = λ m a b u. ground (arith, same_slot k m s.queue.cardinality, v.stored m);
    later_free = λ m a. ground (arith, v.later_free m);
    undelivered = λ m a. ground (arith, v.undelivered m);
    settled = λ m. ground (arith, v.settled m);
    once = λ m a. ground (arith, v.once m, v.later_free m);
    never_invalid = λ p. ground (arith, v.never_invalid p);
  }
