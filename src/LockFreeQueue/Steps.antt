-- ===== src/LockFreeQueue/Steps.antt =====
-- One step of a thread of include/lock_free_buffer_queue.h, with no throwing assignment and no spurious
-- failure: the counters and slots stay sound, and every thread knows what belongs to its place.
use google_concurrency_libra.LockFreeQueue.{is_state, ValueState-cases}
use google_concurrency_libra.Base.{
  Bool, ℕ, false, arith, Bool-cases, ◌==◌, ◌≢◌, inl, inr, ◌+◌, ◌%◌, ◌≡◌, ◌⊎◌, true, if◌then◌else◌,
}
use google_concurrency_libra.LockFreeQueue.Moves.{
  Place, away, push_reserve, pop_state, push_write, push_state, pop_reserve, push_start, pop_empty,
  push_full, pop_read, pop_clear, push_set, push_invalidate, pop_clear_thrown, pop_skip, pop_reset,
  pop_start, advance,
}
use google_concurrency_libra.LockFreeQueue.System.{Shared, act}
use google_concurrency_libra.LockFreeQueue.Slots.{Knows, Sound, Delivered, delivers, fills, Filled}
use google_concurrency_libra.LockFreeQueue.Frame.{
  other-reserve_tail, other-reserve_head, other-write_value, other-clear_value, other-set_state,
  same_slot,
}
use google_concurrency_libra.LockFreeQueue.Keeps.{
  reserve_tail-Sound, write_value-Sound, reserve_head-Sound, clear_value-Sound, set_state-Sound,
}

module _ {A : Type 0} (throws : A → Bool) where
  -- What a step of thread `i` from `p` to a new shared state and place leaves.
  pub record Fine (i : ℕ) (p : Place A) (s : Shared A) (t : Shared A × Place A) : Type 0 where
    pub sound : Sound t.0
    pub own : Knows i t.1 t.0
    pub others : (j : ℕ) (q : Place A) → i ≢ j → Knows j q s → Knows j q t.0
    pub delivered :
        (k : ℕ) (q : Place A)
        → Delivered k s (if s.popper k == i then p else q)
        → Delivered k t.0 (if t.0.popper k == i then t.1 else q)
    pub filled :
        (k : ℕ) (q : Place A)
        → Filled k s (if s.pusher k == i then p else q)
        → Filled k t.0 (if t.0.pusher k == i then t.1 else q)
    pub poppers : (k : ℕ) → (t.0.popper k ≡ i) ⊎ (t.0.popper k ≡ s.popper k)
    pub pushers : (k : ℕ) → (t.0.pusher k ≡ i) ⊎ (t.0.pusher k ≡ s.pusher k)

  pub Unchanged :
      (i : ℕ) (s : Shared A) (p p' : Place A)
      → ((k : ℕ) → delivers k p ≡ true → delivers k p' ≡ true)
      → ((k : ℕ) → fills k p ≡ true → fills k p' ≡ true)
      → Sound s
      → Knows i p' s
      → Fine i p s (s, p')
  Unchanged i s p p' d f v o = record {
    sound = v;
    own = o;
    others = λ j q ne h. h;
    delivered = λ k q h. ground (arith, d k, h);
    filled = λ k q h. ground (arith, f k, h);
    poppers = λ m. ground arith;
    pushers = λ m. ground arith;
  }

  reserve_tail-Fine :
      (i : ℕ) (s : Shared A) (x : A) (k : ℕ)
      → Sound s
      → Knows i (push_reserve x k) s
      → Fine i (push_reserve x k) s (act throws false i (push_reserve x k) s)
  unfolding act Knows delivers fills
  reserve_tail-Fine i s x k v o = elim (Bool-cases (s.queue.tail == k)) [
    | inl e ↦ rw e (record {
      sound = ground (arith, reserve_tail-Sound i k x v);
      own = ground (arith, v.later_free k);
      others = λ j q ne h. ground (arith, other-reserve_tail i j k x q v ne);
      delivered = λ m q h. ground (arith, h);
      filled = λ m q h. ground (arith, h, same_slot k m s.queue.cardinality);
      poppers = λ m. ground arith;
      pushers = λ m. ground arith;
    })
    | inr e ↦ rw e (Unchanged i s (push_reserve x k) away (λ m h. h) (λ m h. h) v tt)
  ]

  write_value-Fine :
      (i : ℕ) (s : Shared A) (x : A) (k : ℕ)
      → throws x ≡ false
      → Sound s
      → Knows i (push_write x k) s
      → Fine i (push_write x k) s (act throws false i (push_write x k) s)
  unfolding act Knows delivers fills
  write_value-Fine i s x k calm v o = rw calm (record {
    sound = write_value-Sound i k x v o;
    own = ground arith;
    others = λ j q ne h. other-write_value i j k x q v ne o h;
    delivered = λ m q h. ground (arith, h);
    filled = λ m q h. ground (arith, h, same_slot k m s.queue.cardinality);
    poppers = λ m. ground arith;
    pushers = λ m. ground arith;
  })

  set_state-Fine :
      (i : ℕ) (s : Shared A) (x : A) (k : ℕ)
      → Sound s
      → Knows i (push_set x k) s
      → Fine i (push_set x k) s (act throws false i (push_set x k) s)
  unfolding act Knows delivers fills is_state
  set_state-Fine i s x k v (o, e) = rw o.open_slot (record {
    sound = set_state-Sound i k x v o e;
    own = tt;
    others = λ j q ne h. other-set_state i j k x q v ne o h;
    delivered = λ m q h. ground (arith, h);
    filled = λ m q h. ground (arith, h, same_slot k m s.queue.cardinality);
    poppers = λ m. ground arith;
    pushers = λ m. ground arith;
  })

  reserve_head-Fine :
      (i : ℕ) (s : Shared A) (k : ℕ)
      → Sound s
      → Knows i (pop_reserve k) s
      → Fine i (pop_reserve k) s (act throws false i (pop_reserve k) s)
  unfolding act Knows delivers fills
  reserve_head-Fine i s k v o = elim (Bool-cases (s.queue.head == k)) [
    | inl e ↦ rw e (record {
      sound = ground (arith, reserve_head-Sound i k v);
      own = ground (arith, v.undelivered k, v.stored k);
      others = λ j q ne h. ground (arith, other-reserve_head i j k q v ne);
      delivered = λ m q h. ground (arith, h);
      filled = λ m q h. ground (arith, h, same_slot k m s.queue.cardinality);
      poppers = λ m. ground arith;
      pushers = λ m. ground arith;
    })
    | inr e ↦ rw e (Unchanged i s (pop_reserve k) away (λ m h. h) (λ m h. h) v tt)
  ]

  read_value-Fine :
      (i : ℕ) (s : Shared A) (k : ℕ)
      → throws (s.queue.values (k % s.queue.cardinality)) ≡ false
      → Sound s
      → Knows i (pop_read k) s
      → Fine i (pop_read k) s (act throws false i (pop_read k) s)
  unfolding act Knows delivers fills
  read_value-Fine i s k calm v o =
      rw calm (Unchanged i s (pop_read k) _ (λ m h. h) (λ m h. h) v (o, o.held))

  clear_value-Fine :
      (i : ℕ) (s : Shared A) (x : A) (k : ℕ)
      → Sound s
      → Knows i (pop_clear k x) s
      → Fine i (pop_clear k x) s (act throws false i (pop_clear k x) s)
  unfolding act Knows delivers fills is_state
  clear_value-Fine i s x k v (o, e) = rw o.full_slot (record {
    sound = clear_value-Sound i k x v o e;
    own = tt;
    others = λ j q ne h. other-clear_value i j k x q v ne o h;
    delivered = λ m q h. ground (arith, h);
    filled = λ m q h. ground (arith, h, same_slot k m s.queue.cardinality);
    poppers = λ m. ground arith;
    pushers = λ m. ground arith;
  })

  push_full-Fine :
      (i : ℕ) (s : Shared A) (x : A) (k : ℕ)
      → Sound s
      → Knows i (push_full x k) s
      → Fine i (push_full x k) s (act throws false i (push_full x k) s)
  unfolding act Knows delivers fills
  push_full-Fine i s x k v o = elim (Bool-cases (k == s.queue.head + s.queue.cardinality)) [
    | inl e ↦ rw e (Unchanged i s (push_full x k) away (λ m h. h) (λ m h. h) v tt)
    | inr e ↦
        rw e (Unchanged i s (push_full x k) (push_state x k) (λ m h. h) (λ m h. h) v (ground arith))
  ]

  pop_empty-Fine :
      (i : ℕ) (s : Shared A) (k : ℕ)
      → Sound s
      → Knows i (pop_empty k) s
      → Fine i (pop_empty k) s (act throws false i (pop_empty k) s)
  unfolding act Knows delivers fills
  pop_empty-Fine i s k v o = elim (Bool-cases (k == s.queue.tail)) [
    | inl e ↦ rw e (Unchanged i s (pop_empty k) away (λ m h. h) (λ m h. h) v tt)
    | inr e ↦
        rw e (Unchanged i s (pop_empty k) (pop_state k) (λ m h. h) (λ m h. h) v (ground arith))
  ]

  push_state-Fine :
      (i : ℕ) (s : Shared A) (x : A) (k : ℕ)
      → Sound s
      → Knows i (push_state x k) s
      → Fine i (push_state x k) s (act throws false i (push_state x k) s)
  unfolding act Knows delivers fills
  push_state-Fine i s x k v o =
      elim (ValueState-cases (s.queue.value_state (k % s.queue.cardinality))) [
        | inl e ↦ rw (e, advance) (Unchanged i s (push_state x k) away (λ m h. h) (λ m h. h) v tt)
        | inr (inl e) ↦
            rw (e, advance)
              (Unchanged i s (push_state x k) (push_reserve x k) (λ m h. h) (λ m h. h) v
                (ground arith))
        | inr (inr e) ↦
            rw (e, advance) (Unchanged i s (push_state x k) away (λ m h. h) (λ m h. h) v tt)
      ]

  pop_state-Fine :
      (i : ℕ) (s : Shared A) (k : ℕ)
      → Sound s
      → Knows i (pop_state k) s
      → Fine i (pop_state k) s (act throws false i (pop_state k) s)
  unfolding act Knows delivers fills
  pop_state-Fine i s k v o =
      elim (ValueState-cases (s.queue.value_state (k % s.queue.cardinality))) [
        | inl e ↦
            rw (e, advance)
              (Unchanged i s (pop_state k) (pop_reserve k) (λ m h. h) (λ m h. h) v (ground arith))
        | inr (inl e) ↦
            rw (e, advance) (Unchanged i s (pop_state k) away (λ m h. h) (λ m h. h) v tt)
        | inr (inr e) ↦ absurd (v.never_invalid (k % s.queue.cardinality) e)
      ]

  -- Every step, if no assignment throws.
  pub act-Fine :
      (i : ℕ) (p : Place A) (s : Shared A)
      → ((x : A) → throws x ≡ false)
      → Sound s
      → Knows i p s
      → Fine i p s (act throws false i p s)
  unfolding act Knows delivers fills
  act-Fine i away s calm v o = Unchanged i s away away (λ m h. h) (λ m h. h) v tt
  act-Fine i (push_start x) s calm v o =
      Unchanged i s (push_start x) (push_full x s.queue.tail) (λ m h. h) (λ m h. h) v (omega arith)
  act-Fine i (push_full x k) s calm v o = push_full-Fine i s x k v o
  act-Fine i (push_state x k) s calm v o = push_state-Fine i s x k v o
  act-Fine i (push_reserve x k) s calm v o = reserve_tail-Fine i s x k v o
  act-Fine i (push_write x k) s calm v o = write_value-Fine i s x k (calm x) v o
  act-Fine i (push_set x k) s calm v o = set_state-Fine i s x k v o
  act-Fine i (push_invalidate k) s calm v o = elim o [ ]
  act-Fine i pop_start s calm v o =
      Unchanged i s pop_start (pop_empty s.queue.head) (λ m h. h) (λ m h. h) v (omega arith)
  act-Fine i (pop_empty k) s calm v o = pop_empty-Fine i s k v o
  act-Fine i (pop_state k) s calm v o = pop_state-Fine i s k v o
  act-Fine i (pop_reserve k) s calm v o = reserve_head-Fine i s k v o
  act-Fine i (pop_read k) s calm v o = read_value-Fine i s k (calm _) v o
  act-Fine i (pop_clear k x) s calm v o = clear_value-Fine i s x k v o
  act-Fine i (pop_clear_thrown k) s calm v o = elim o [ ]
  act-Fine i (pop_skip k) s calm v o = elim o [ ]
  act-Fine i (pop_reset k) s calm v o = elim o [ ]
