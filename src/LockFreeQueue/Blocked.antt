-- ===== src/LockFreeQueue/Blocked.antt =====
-- How a queue of include/lock_free_buffer_queue.h can be blocked for ever.
use google_concurrency_libra.LockFreeQueue.Frame.{same_slot}
use google_concurrency_libra.Base.{
  Bool, ℕ, ◌+◌, ◌<◌, ◌≤◌, ◌≡◌, ◌%◌, [], arith, refl, ap, ◌∙◌, inl, inr, ◌==◌, Bool-cases, true,
  false, zero, suc, ◌∷◌, update,
}
use google_concurrency_libra.LockFreeQueue.{
  waiting, set_state, ValueState-cases, valid, is_state, ValueState, invalid,
}
use google_concurrency_libra.LockFreeQueue.Moves.{
  Place, away, push_start, push_full, push_state, push_reserve, push_write, push_set,
  push_invalidate, pop_start, pop_empty, pop_state, pop_reserve, pop_read, pop_clear,
  pop_clear_thrown, pop_skip, pop_reset, advance,
}
use google_concurrency_libra.LockFreeQueue.System.{
  Shared, act, moved, System, Reach, start, Step, later, calls_push, advances, here, calls_pop,
}

module _ {A : Type 0} where
  -- A thread that will not touch the slot of position `h`.
  pub Avoids : ℕ → Place A → Shared A → Type 0
  Avoids h away s = Unit
  Avoids h (push_start x) s = Unit
  Avoids h (push_full x k) s = k ≤ s.queue.tail
  Avoids h (push_state x k) s =
      (k ≤ s.queue.tail) × (s.queue.tail ≡ k → k < h + s.queue.cardinality)
  Avoids h (push_reserve x k) s =
      (k ≤ s.queue.tail) × (s.queue.tail ≡ k → k < h + s.queue.cardinality)
  Avoids h (push_write x k) s = (h < k) × (k < h + s.queue.cardinality)
  Avoids h (push_set x k) s = (h < k) × (k < h + s.queue.cardinality)
  Avoids h (push_invalidate k) s = (h < k) × (k < h + s.queue.cardinality)
  Avoids h pop_start s = Unit
  Avoids h (pop_empty k) s = k ≡ h
  Avoids h (pop_state k) s = k ≡ h
  Avoids h (pop_reserve k) s = ⊥
  Avoids h (pop_read k) s = ⊥
  Avoids h (pop_clear k x) s = ⊥
  Avoids h (pop_clear_thrown k) s = ⊥
  Avoids h (pop_skip k) s = ⊥
  Avoids h (pop_reset k) s = ⊥

  -- The oldest position was reserved, its slot waits, and no thread will fill it.
  pub record Emptied (h : ℕ) (s : Shared A) : Type 0 where
    pub some_slot : 0 < s.queue.cardinality
    pub oldest : s.queue.head ≡ h
    pub reserved : h < s.queue.tail
    pub within : s.queue.tail ≤ h + s.queue.cardinality
    pub open_slot : s.queue.value_state (h % s.queue.cardinality) ≡ waiting
    pub undelivered : s.delivered h ≡ []

module _ {A : Type 0} (throws : A → Bool) where
  record Kept (h i : ℕ) (s : Shared A) (t : Shared A × Place A) : Type 0 where
    emptied : Emptied h t.0
    own : Avoids h t.1 t.0
    others : (q : Place A) → Avoids h q s → Avoids h q t.0

  Others :
      (h : ℕ) (s t : Shared A)
      → s.queue.tail ≤ t.queue.tail
      → s.queue.cardinality ≡ t.queue.cardinality
      → (q : Place A) → Avoids h q s
      → Avoids h q t
  unfolding Avoids
  Others h s t l c away a = tt
  Others h s t l c (push_start x) a = tt
  Others h s t l c (push_full x k) a = ground arith
  Others h s t l c (push_state x k) a = ground arith
  Others h s t l c (push_reserve x k) a = ground arith
  Others h s t l c (push_write x k) a = ground arith
  Others h s t l c (push_set x k) a = ground arith
  Others h s t l c (push_invalidate k) a = ground arith
  Others h s t l c pop_start a = tt
  Others h s t l c (pop_empty k) a = ground arith
  Others h s t l c (pop_state k) a = ground arith
  Others h s t l c (pop_reserve k) a = a
  Others h s t l c (pop_read k) a = a
  Others h s t l c (pop_clear k x) a = a
  Others h s t l c (pop_clear_thrown k) a = a
  Others h s t l c (pop_skip k) a = a
  Others h s t l c (pop_reset k) a = a

  stays :
      (h i : ℕ) (s t : Shared A) (p : Place A)
      → Emptied h t
      → Avoids h p t
      → s.queue.tail ≤ t.queue.tail
      → s.queue.cardinality ≡ t.queue.cardinality
      → Kept h i s (t, p)
  stays h i s t p e a l c = record { emptied = e; own = a; others = Others h s t l c }

  set_state-Kept :
      (h : ℕ) (spurious : Bool) (new : ValueState) (i k : ℕ) (s : Shared A)
      → Emptied h s
      → h < k
      → k < h + s.queue.cardinality
      → Kept h i s
          (record s { queue = set_state spurious new (k % s.queue.cardinality) s.queue }, away)
  unfolding set_state is_state Avoids
  set_state-Kept h true new i k s o a b = stays h i s s away o tt (omega arith) refl
  set_state-Kept h false new i k s o a b =
      elim (ValueState-cases (s.queue.value_state (k % s.queue.cardinality))) [
        | inl e ↦ rw (e, is_state) (stays h i s s away o tt (omega arith) refl)
        | inr (inl e) ↦
            rw (e, is_state)
              (stays h i s _ away (ground (arith, same_slot k h s.queue.cardinality)) tt
                (omega arith) refl)
        | inr (inr e) ↦ rw (e, is_state) (stays h i s s away o tt (omega arith) refl)
      ]

  act-Kept :
      (h : ℕ) (spurious : Bool) (i : ℕ) (p : Place A) (s : Shared A)
      → Emptied h s
      → Avoids h p s
      → Kept h i s (act throws spurious i p s)
  unfolding act Avoids
  act-Kept h spurious i away s o a = stays h i s s away o a (omega arith) refl
  act-Kept h spurious i (push_start x) s o a =
      stays h i s s (push_full x s.queue.tail) o (omega arith) (omega arith) refl
  act-Kept h spurious i (push_full x k) s o a =
      elim (Bool-cases (k == s.queue.head + s.queue.cardinality)) [
        | inl e ↦ rw e (stays h i s s away o tt (omega arith) refl)
        | inr e ↦ rw e (stays h i s s (push_state x k) o (ground arith) (omega arith) refl)
      ]
  act-Kept h spurious i (push_state x k) s o a =
      elim (ValueState-cases (s.queue.value_state (k % s.queue.cardinality))) [
        | inl e ↦ rw (e, advance) (stays h i s s away o tt (omega arith) refl)
        | inr (inl e) ↦ rw (e, advance) (stays h i s s (push_reserve x k) o a (omega arith) refl)
        | inr (inr e) ↦ rw (e, advance) (stays h i s s away o tt (omega arith) refl)
      ]
  act-Kept h spurious i (push_reserve x k) s o a = elim (Bool-cases (s.queue.tail == k)) [
    | inl e ↦ rw e (stays h i s _ _ (ground arith) (ground arith) (ground arith) refl)
    | inr e ↦ rw e (stays h i s s away o tt (omega arith) refl)
  ]
  act-Kept h spurious i (push_write x k) s o a = elim (Bool-cases (throws x)) [
    | inl e ↦ rw e (stays h i s s (push_invalidate k) o a (omega arith) refl)
    | inr e ↦ rw e (stays h i s _ (push_set x k) (ground arith) a (omega arith) refl)
  ]
  act-Kept h spurious i (push_set x k) s o a = set_state-Kept h spurious valid i k s o a.0 a.1
  act-Kept h spurious i (push_invalidate k) s o a =
      set_state-Kept h spurious invalid i k s o a.0 a.1
  act-Kept h spurious i pop_start s o a =
      stays h i s s (pop_empty s.queue.head) o o.oldest (omega arith) refl
  act-Kept h spurious i (pop_empty k) s o a = elim (Bool-cases (k == s.queue.tail)) [
    | inl e ↦ rw e (stays h i s s away o tt (omega arith) refl)
    | inr e ↦ rw e (stays h i s s (pop_state k) o a (omega arith) refl)
  ]
  act-Kept h spurious i (pop_state k) s o a =
      let w : s.queue.value_state (k % s.queue.cardinality) ≡ waiting =
        ap (λ l. s.queue.value_state (l % s.queue.cardinality)) a ∙ o.open_slot in
      rw (w, advance) (stays h i s s away o tt (omega arith) refl)
  act-Kept h spurious i (pop_reserve k) s o a = elim a [ ]
  act-Kept h spurious i (pop_read k) s o a = elim a [ ]
  act-Kept h spurious i (pop_clear k x) s o a = elim a [ ]
  act-Kept h spurious i (pop_clear_thrown k) s o a = elim a [ ]
  act-Kept h spurious i (pop_skip k) s o a = elim a [ ]
  act-Kept h spurious i (pop_reset k) s o a = elim a [ ]

  pub record IsBlocked (h : ℕ) (s : System A) : Type 0 where
    pub emptied : Emptied h s.shared
    pub avoids : (i : ℕ) → Avoids h (s.threads i) s.shared

  moves_on :
      (h i : ℕ) (s : System A) (s' : Shared A) (p' : Place A)
      → IsBlocked h s
      → Kept h i s.shared (s', p')
      → IsBlocked h (record { shared = s'; threads = update s.threads i p' })
  moves_on h i s s' p' o k = record {
    emptied = k.emptied;
    avoids = λ j. elim (Bool-cases (j == i)) [
      | inl e ↦ rw e k.own
      | inr e ↦ rw e (k.others (s.threads j) (o.avoids j))
    ];
  }

  Step-IsBlocked :
      {h : ℕ} {weak : Bool} {s t : System A} → Step throws weak s t → IsBlocked h s → IsBlocked h t
  unfolding moved Avoids
  Step-IsBlocked {h} {s = s} (calls_push i x e) o =
      moves_on h i s s.shared (push_start x) o
        (stays h i s.shared s.shared (push_start x) o.emptied tt (omega arith) refl)
  Step-IsBlocked {h} {s = s} (calls_pop i e) o =
      moves_on h i s s.shared pop_start o
        (stays h i s.shared s.shared pop_start o.emptied tt (omega arith) refl)
  Step-IsBlocked {h} {s = s} (advances i spurious w) o =
      moves_on h i s _ _ o (act-Kept h spurious i (s.threads i) s.shared o.emptied (o.avoids i))

  pub Reach-IsBlocked :
      {h : ℕ} {weak : Bool} {s t : System A} → IsBlocked h s → Reach throws weak s t → IsBlocked h t
  Reach-IsBlocked o here = o
  Reach-IsBlocked o (later r st) = Step-IsBlocked st (Reach-IsBlocked o r)

  -- Steps of one thread.
  unfoldable pub run : ℕ → ℕ → System A → System A
  run i zero s = s
  run i (suc k) s = run i k (moved throws false i s)

  pub run-Reach :
      (weak : Bool) (i k : ℕ) {s t : System A}
      → Reach throws weak s t
      → Reach throws weak s (run i k t)
  unfolding run
  run-Reach weak i zero r = r
  run-Reach weak i (suc k) r = run-Reach weak i k (later r (advances i false (λ h. refl)))

  -- One thread pushes `x` alone, and its last exchange fails spuriously.
  failed_push : A → ℕ → A → System A
  failed_push blank n x =
      let called : System A = record (start blank n) {
        threads = update (start blank n).threads 0 (push_start x);
      } in
      moved throws true 0 (run 0 5 called)

  failed_push_lem :
      (blank : A) (n : ℕ) (x : A)
      → throws x ≡ false
      → 0 < n
      → Emptied 0 (failed_push blank n x).shared
        × ((failed_push blank n x).shared.accepted 0 ≡ x ∷ [])
        × ((i : ℕ) → (failed_push blank n x).threads i ≡ away)
  unfolding failed_push run moved act set_state is_state
  failed_push_lem blank n x calm h = ground (arith, calm)

  pub quiet-IsBlocked :
      (h : ℕ) (s : System A) → Emptied h s.shared → ((i : ℕ) → s.threads i ≡ away) → IsBlocked h s
  unfolding Avoids
  quiet-IsBlocked h s e quiet = record { emptied = e; avoids = λ i. rw (quiet i) tt }

  -- If a weak exchange may fail spuriously, then a push that meets no other thread can end with its
  -- element accepted, after which no position is ever given out again, whatever the threads do.
  pub spurious_failure_blocks :
      (blank : A) (n : ℕ) (x : A)
      → throws x ≡ false
      → 0 < n
      → (s : System A) × Reach throws true (start blank n) s
        × (s.shared.accepted 0 ≡ x ∷ [])
        × ((i : ℕ) → s.threads i ≡ away)
        × ((t : System A)
            → Reach throws true s t
            → (t.shared.queue.head ≡ 0) × (t.shared.delivered 0 ≡ []))
  unfolding failed_push
  spurious_failure_blocks blank n x calm h =
      let (e, a, q) = failed_push_lem blank n x calm h in
      (
        failed_push blank n x,
        later (run-Reach true 0 5 (later here (calls_push 0 x refl)))
            (advances 0 true (λ h. absurd (ground (arith, h)))),
        a,
        q,
        λ t r.
            let o : IsBlocked 0 t = Reach-IsBlocked (quiet-IsBlocked 0 _ e q) r in
            (o.emptied.oldest, o.emptied.undelivered),
      )
