-- ===== src/LockFreeQueue/Alone.antt =====
-- A thread alone with a queue of include/lock_free_buffer_queue.h ends its calls in the first round.
use native.Mathlib.Nat.{mod-lt}
use google_concurrency_libra.Base.{
  Bool, ℕ, ◌+◌, ◌%◌, ◌^◌, none, ◌<◌, ◌≤◌, ◌≡◌, true, false, some, ◌==◌, arith, refl, zero, suc, sym,
  ap, List, [], ◌∷◌, ◌++◌, append-nil, length, ◌∙◌, ◌⊎◌, append_assoc, dec_lt, inl, inr, dec_le,
}
use google_concurrency_libra.Outcome.{success, full}
use google_concurrency_libra.LockFreeQueue.{
  LockFreeQueue, ValueState, waiting, reset_states, set_state, is_state, is_full, returned,
  construct, thrown, invalid_argument,
}
use google_concurrency_libra.LockFreeQueue.Moves.{pushed}
use google_concurrency_libra.LockFreeQueue.Cleared.{reset_states_end, reset_states_hang}
use google_concurrency_libra.LockFreeQueue.Loops.{
  nonblocking_push, iter_init, push_until, try_push, construct_from,
}
use google_concurrency_libra.LockFreeQueue.Quiet.{
  IsQuiet, with_pushed, elements, contents, contents-with_pushed, with_pushed-IsQuiet,
}

module _ {A : Type 0} (throws : A → Bool) where
  push_into_full :
      (q : LockFreeQueue A) (x : A)
      → q.tail ≡ q.head + q.cardinality
      → nonblocking_push throws false q x ≡ some (q, pushed full)
  unfolding nonblocking_push
  push_into_full q x e = ground arith

  push_with_room :
      (q : LockFreeQueue A) (x : A)
      → throws x ≡ false
      → IsQuiet q
      → q.tail < q.head + q.cardinality
      → nonblocking_push throws false q x ≡ some (with_pushed q x, pushed success)
  unfolding nonblocking_push with_pushed set_state is_state
  push_with_room q x calm v room =
      let t : (q.tail == q.head + q.cardinality) ≡ false = ground arith in
      let e : (q.tail == q.tail) ≡ true = ground arith in
      let w : q.value_state (q.tail % q.cardinality) ≡ waiting = v.free q.tail (omega arith) room in
      ground (arith, t, e, w, calm)

  push_until_lem :
      (fuel : ℕ) (q : LockFreeQueue A) (x : A)
      → throws x ≡ false
      → IsQuiet q
      → q.tail < q.head + q.cardinality
      → push_until throws false (suc fuel) q x ≡ some (returned (with_pushed q x))
  unfolding push_until try_push
  push_until_lem fuel q x calm v room = ground (arith, push_with_room q x calm v room)

  fits_after :
      (q : LockFreeQueue A) (x : A) (xs : List A)
      → q.tail + length (x ∷ xs) ≤ q.head + q.cardinality
      → (with_pushed q x).tail + length xs ≤ (with_pushed q x).head + (with_pushed q x).cardinality
  unfolding with_pushed
  fits_after q x xs h = omega arith

  -- With one round of fuel for its loops, `iter_init` adds a range that fits.
  iter_init_lem :
      (fuel : ℕ) (q : LockFreeQueue A) (xs : List A)
      → ((x : A) → throws x ≡ false)
      → IsQuiet q
      → q.tail + length xs ≤ q.head + q.cardinality
      → (q' : LockFreeQueue A) × (iter_init throws false (suc fuel) q xs ≡ some (returned q'))
        × IsQuiet q'
        × (contents q' ≡ contents q ++ xs)
  unfolding iter_init is_full
  iter_init_lem fuel q [] calm v fits = (q, refl, v, sym (append-nil (contents q)))
  iter_init_lem fuel q (x ∷ xs) calm v fits =
      let p = with_pushed q x in
      let (q', e, w, c) =
        iter_init_lem fuel p xs calm (with_pushed-IsQuiet q x v (omega arith))
          (fits_after q x xs fits) in
      (
        q',
        ground (arith, push_until_lem fuel q x (calm x) v (omega arith), e),
        w,
        c
            ∙ ap (λ ys. ys ++ xs) (contents-with_pushed q x v (omega arith))
            ∙ append_assoc (contents q) (x ∷ []) xs,
      )

  long_after :
      (q : LockFreeQueue A) (x : A) (xs : List A)
      → q.head + q.cardinality < q.tail + length (x ∷ xs)
      → (with_pushed q x).head + (with_pushed q x).cardinality < (with_pushed q x).tail + length xs
  unfolding with_pushed
  long_after q x xs h = omega arith

  -- A range that does not fit is refused.
  iter_init-too_long :
      (fuel : ℕ) (q : LockFreeQueue A) (xs : List A)
      → ((x : A) → throws x ≡ false)
      → IsQuiet q
      → q.head + q.cardinality < q.tail + length xs
      → iter_init throws false (suc fuel) q xs ≡ some (thrown invalid_argument)
  unfolding iter_init is_full
  iter_init-too_long fuel q [] calm v h = absurd (omega (arith, v.within))
  iter_init-too_long fuel q (x ∷ xs) calm v h = elim (dec_lt q.tail (q.head + q.cardinality)) [
    | yes room ↦
        let e =
          iter_init-too_long fuel (with_pushed q x) xs calm (with_pushed-IsQuiet q x v room)
            (long_after q x xs h) in
        ground (arith, push_until_lem fuel q x (calm x) v room, e)
    | no out ↦ ground (arith, v.within)
  ]

  abbrev unused : (ℕ → ValueState) → A → ℕ → LockFreeQueue A
  unused states blank n = record {
    cardinality = n;
    head = 0;
    tail = 0;
    value_state = states;
    values = λ p. blank;
  }

  unused-IsQuiet :
      (states : ℕ → ValueState) (blank : A) (n : ℕ)
      → ((p : ℕ) → p < n → states p ≡ waiting)
      → 0 < n
      → IsQuiet (unused states blank n)
  unused-IsQuiet states blank n all h = record {
    some_slot = h;
    ordered = omega arith;
    within = omega arith;
    used = λ k a b. absurd (omega arith);
    free = λ k a b. all (k % n) (mod-lt k h);
  }

  contents_unused :
      (states : ℕ → ValueState) (blank : A) (n : ℕ) → contents (unused states blank n) ≡ []
  unfolding contents elements
  contents_unused states blank n = refl

  construct_unused :
      (fuel : ℕ) (states reset : ℕ → ValueState) (blank : A) (n : ℕ)
      → 0 < n
      → reset_states fuel 0 n states ≡ some reset
      → construct fuel states blank n ≡ some (returned (unused reset blank n))
  unfolding construct
  construct_unused fuel states reset blank n h e = ground arith

  construct_none :
      (fuel : ℕ) (states : ℕ → ValueState) (blank : A)
      → construct fuel states blank 0 ≡ some (thrown invalid_argument)
  unfolding construct
  construct_none fuel states blank = refl

  construct_hangs :
      (fuel : ℕ) (states : ℕ → ValueState) (blank : A) (n : ℕ)
      → 2 ^ 32 ≤ n
      → construct fuel states blank n ≡ none
  unfolding construct
  construct_hangs fuel states blank n h =
      ground (arith, reset_states_hang fuel 0 n states h (omega arith))

  -- Where no assignment throws and no exchange fails spuriously, and whatever the new array of states
  -- holds: from 2 ^ 32 slots on the constructor from a range never ends. Below that it ends, within
  -- one round more than there are slots for each of its loops: it refuses capacity 0 and a range that
  -- does not fit, and otherwise gives a queue, with no call under way, that holds exactly the range
  -- in its order.
  pub construct_from_ends :
      (extra : ℕ) (states : ℕ → ValueState) (blank : A) (n : ℕ) (xs : List A)
      → ((x : A) → throws x ≡ false)
      → let built = construct_from throws false (suc (n + extra)) states blank n xs in
        ((2 ^ 32 ≤ n) × ((fuel : ℕ) → construct_from throws false fuel states blank n xs ≡ none))
        ⊎ ((n < 2 ^ 32)
            × ((((n ≡ 0) ⊎ (n < length xs)) × (built ≡ some (thrown invalid_argument)))
                ⊎ ((length xs ≤ n)
                    × ((q : LockFreeQueue A) × (built ≡ some (returned q))
                        × IsQuiet q
                        × (contents q ≡ xs)))))
  unfolding construct_from
  construct_from_ends extra states blank zero xs calm =
      inr (omega arith, inl (inl refl, rw (construct_none (suc extra) states blank) refl))
  construct_from_ends extra states blank (suc m) xs calm = elim (dec_le (2 ^ 32) (suc m)) [
    | yes big ↦ inl (big, λ fuel. ground (arith, construct_hangs fuel states blank (suc m) big))
    | no small ↦
        let (reset, e, _, all) =
          reset_states_end (suc (suc m + extra)) 0 (suc m) states (omega arith) (omega arith)
            (omega arith) in
        let c = construct_unused (suc (suc m + extra)) states reset blank (suc m) (omega arith) e in
        let v = unused-IsQuiet reset blank (suc m) (λ p h. all p (omega arith) h) (omega arith) in
        inr (
          omega arith,
          elim (dec_le (length xs) (suc m)) [
            | yes fits ↦
                let (q, f, w, held) =
                  iter_init_lem (suc m + extra) (unused reset blank (suc m)) xs calm v
                    (omega arith) in
                inr (
                  fits,
                  (
                    q,
                    ground (arith, c, f),
                    w,
                    held ∙ ap (λ ys. ys ++ xs) (contents_unused reset blank (suc m)),
                  ),
                )
            | no long ↦ inl (
              inr (omega arith),
              ground (
                arith,
                c,
                iter_init-too_long (suc m + extra) (unused reset blank (suc m)) xs calm v
                    (omega arith),
              ),
            )
          ],
        )
  ]
