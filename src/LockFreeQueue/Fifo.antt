-- ===== src/LockFreeQueue/Fifo.antt =====
-- What threads that share one queue of include/lock_free_buffer_queue.h get out of it, as long as no
-- assignment throws and no weak exchange fails spuriously.
use google_concurrency_libra.Base.{
  Bool, ℕ, ◌≡◌, false, ◌+◌, ◌%◌, ◌≤◌, ◌<◌, refl, sym, ap, subst, ◌⊎◌, inl, inr, true, [], ◌∷◌,
  arith, ◌==◌, if◌then◌else◌, ==_iff, Bool-cases, length, update,
}
use google_concurrency_libra.LockFreeQueue.{valid}
use google_concurrency_libra.LockFreeQueue.Moves.{Place, away, push_start, pop_start}
use google_concurrency_libra.LockFreeQueue.System.{
  System, moved, Step, calls_push, calls_pop, advances, Shared, start, Reach, later, here,
}
use google_concurrency_libra.LockFreeQueue.Slots.{Knows, Sound, Delivered, Filled, delivers, fills}
use google_concurrency_libra.LockFreeQueue.Steps.{Fine, Unchanged, act-Fine}

module _ {A : Type 0} (throws : A → Bool) where
  record Inv (s : System A) : Type 0 where
    sound : Sound s.shared
    knows : (i : ℕ) → Knows i (s.threads i) s.shared
    delivered : (k : ℕ) → Delivered k s.shared (s.threads (s.shared.popper k))
    filled : (k : ℕ) → Filled k s.shared (s.threads (s.shared.pusher k))

  -- The place of thread `w` after a step of thread `i`, if it is that thread or the one before.
  place_after :
      (threads : ℕ → Place A) (i v w : ℕ) (p' : Place A)
      → (w ≡ i) ⊎ (w ≡ v)
      → update threads i p' w ≡ (if w == i then p' else threads v)
  place_after threads i v w p' (inl e) = let t : (w == i) ≡ true = (==_iff w i).1 e in rw t refl
  place_after threads i v w p' (inr e) = ap (λ (m : ℕ). if w == i then p' else threads m) e

  place_before :
      (threads : ℕ → Place A) (i v : ℕ) → (if v == i then threads i else threads v) ≡ threads v
  place_before threads i v = elim (Bool-cases (v == i)) [
    | inl e ↦ rw e (ap threads (sym ((==_iff v i).0 e)))
    | inr e ↦ rw e refl
  ]

  -- A step of thread `i` for all threads.
  Fine-Inv :
      (i : ℕ) {s : System A} {s' : Shared A} {p' : Place A}
      → Inv s
      → Fine throws i (s.threads i) s.shared (s', p')
      → Inv (record { shared = s'; threads = update s.threads i p' })
  Fine-Inv i {s} {s'} {p'} o f = record {
    sound = f.sound;
    knows = λ j. elim (Bool-cases (j == i)) [
      | inl e ↦ rw e (subst (λ m. Knows m p' s') (sym ((==_iff j i).0 e)) f.own)
      | inr e ↦ rw e (f.others j (s.threads j) (λ h. ground (arith, e)) (o.knows j))
    ];
    delivered = λ k.
        let v = s.shared.popper k in
        subst (Delivered k s') (sym (place_after s.threads i v (s'.popper k) p' (f.poppers k))) (
          f.delivered k (s.threads v)
            (subst (Delivered k s.shared) (sym (place_before s.threads i v)) (o.delivered k)));
    filled = λ k.
        let v = s.shared.pusher k in
        subst (Filled k s') (sym (place_after s.threads i v (s'.pusher k) p' (f.pushers k))) (
          f.filled k (s.threads v)
            (subst (Filled k s.shared) (sym (place_before s.threads i v)) (o.filled k)));
  }

  Step-Inv : {s t : System A} → ((x : A) → throws x ≡ false) → Step throws false s t → Inv s → Inv t
  unfolding moved Knows delivers fills
  Step-Inv {s} calm (calls_push i x e) o =
      Fine-Inv i o
        (rw e (Unchanged throws i s.shared away (push_start x) (λ m h. h) (λ m h. h) o.sound tt))
  Step-Inv {s} calm (calls_pop i e) o =
      Fine-Inv i o
        (rw e (Unchanged throws i s.shared away pop_start (λ m h. h) (λ m h. h) o.sound tt))
  Step-Inv {s} calm (advances i spurious h) o =
      rw (h refl) (Fine-Inv i o (act-Fine throws i (s.threads i) s.shared calm o.sound (o.knows i)))

  start-Inv : (blank : A) (n : ℕ) → 0 < n → Inv (start blank n)
  unfolding Knows
  start-Inv blank n h = record {
    sound = record {
      some_slot = h;
      ordered = omega arith;
      within = omega arith;
      stored = λ k a b u. absurd (omega arith);
      later_free = λ k a. refl;
      undelivered = λ k a. refl;
      settled = λ k. inl refl;
      once = λ k a. absurd (omega arith);
      never_invalid = λ p e. ground arith;
    };
    knows = λ i. tt;
    delivered = λ k a. absurd (omega arith);
    filled = λ k a b. absurd (omega arith);
  }

  Reach-Inv :
      (blank : A) (n : ℕ) {s : System A}
      → ((x : A) → throws x ≡ false)
      → 0 < n
      → Reach throws false (start blank n) s
      → Inv s
  Reach-Inv blank n calm h here = start-Inv blank n h
  Reach-Inv blank n calm h (later r st) = Step-Inv calm st (Reach-Inv blank n calm h r)

  -- For any number of threads, at any interleaving, if no assignment throws and no weak exchange fails
  -- spuriously: `head_` never passes `tail_`, and `tail_` is at most the capacity ahead; each position
  -- that `tail_` has passed has one element, and no other has one; and what is delivered for a position
  -- is nothing, or exactly its element, and nothing as long as `head_` has not passed the position.
  pub fifo_safety :
      (blank : A) (n : ℕ) {s : System A}
      → ((x : A) → throws x ≡ false)
      → 0 < n
      → Reach throws false (start blank n) s
      → (s.shared.queue.head ≤ s.shared.queue.tail)
        × (s.shared.queue.tail ≤ s.shared.queue.head + s.shared.queue.cardinality)
        × ((k : ℕ)
            → (k < s.shared.queue.tail → length (s.shared.accepted k) ≡ 1)
              × (s.shared.queue.tail ≤ k → s.shared.accepted k ≡ [])
              × ((s.shared.delivered k ≡ []) ⊎ (s.shared.delivered k ≡ s.shared.accepted k))
              × (s.shared.queue.head ≤ k → s.shared.delivered k ≡ []))
  fifo_safety blank n calm h r =
      let o : Sound _ = (Reach-Inv blank n calm h r).sound in
      (o.ordered, o.within, λ k. (o.once k, o.later_free k, o.settled k, o.undelivered k))

  -- Under the same conditions, when no call is under way: the element of each position that `head_` has
  -- passed is delivered, and that of each later one is in its slot, which is marked valid.
  pub nothing_lost :
      (blank : A) (n : ℕ) {s : System A}
      → ((x : A) → throws x ≡ false)
      → 0 < n
      → Reach throws false (start blank n) s
      → ((i : ℕ) → s.threads i ≡ away)
      → (k : ℕ)
      → (k < s.shared.queue.head → s.shared.delivered k ≡ s.shared.accepted k)
        × (s.shared.queue.head ≤ k
            → k < s.shared.queue.tail
            → (s.shared.queue.value_state (k % s.shared.queue.cardinality) ≡ valid)
              × (s.shared.accepted k ≡ s.shared.queue.values (k % s.shared.queue.cardinality) ∷ []))
  unfolding delivers fills
  nothing_lost blank n {s} calm h r quiet k =
      let o : Inv s = Reach-Inv blank n calm h r in
      let v : Sound _ = o.sound in
      let d : Delivered k s.shared away =
        subst (Delivered k s.shared) (quiet (s.shared.popper k)) (o.delivered k) in
      let f : Filled k s.shared away =
        subst (Filled k s.shared) (quiet (s.shared.pusher k)) (o.filled k) in
      (λ a. ground (arith, d a), λ a b. ground (arith, f a b, v.stored k a b))
