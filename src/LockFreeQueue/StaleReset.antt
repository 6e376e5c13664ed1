-- ===== src/LockFreeQueue/StaleReset.antt =====
-- A slot of include/lock_free_buffer_queue.h that is cleared twice.
use google_concurrency_libra.Base.{
  Option, none, some, Bool, ℕ, ◌≡◌, true, refl, false, [], arith, zero, suc, ◌<◌, update,
}
use google_concurrency_libra.LockFreeQueue.{set_state, clear_value, is_state, waiting}
use google_concurrency_libra.LockFreeQueue.Moves.{away, push_start, pop_start}
use google_concurrency_libra.LockFreeQueue.System.{
  System, act, moved, start, Reach, later, calls_push, here, calls_pop,
}
use google_concurrency_libra.LockFreeQueue.Blocked.{
  run, Emptied, run-Reach, IsBlocked, Reach-IsBlocked, quiet-IsBlocked,
}

module _ {A : Type 0} where
  -- An element is either one whose assignment throws, or a good one.
  abbrev pub throws_none : Option A → Bool
  throws_none none = true
  throws_none (some x) = false

  pushing : ℕ → Option A → System (Option A) → System (Option A)
  pushing i x s = record s { threads = update s.threads i (push_start x) }

  popping : ℕ → System (Option A) → System (Option A)
  popping i s = record s { threads = update s.threads i pop_start }

  -- A push throws, and two pops see its invalid slot.
  both_see : Option A → System (Option A)
  unfolding pushing popping
  both_see blank = run throws_none 2 3 (
      popping 2
        (run throws_none 1 3 (popping 1 (run throws_none 0 6 (pushing 0 none (start blank 1))))))

  -- The first pop clears the slot, another push throws, and the second pop clears the slot again.
  cleared_twice : Option A → System (Option A)
  unfolding both_see pushing
  cleared_twice blank =
      run throws_none 2 2
        (run throws_none 0 6 (pushing 0 none (run throws_none 1 2 (both_see blank))))

  both_see-Reach : (blank : Option A) → Reach throws_none false (start blank 1) (both_see blank)
  unfolding both_see run moved act set_state clear_value is_state
  both_see-Reach blank = run-Reach throws_none false 2 3 (
      later
        (run-Reach throws_none false 1 3 (
          later (run-Reach throws_none false 0 6 (later here (calls_push 0 none refl)))
            (calls_pop 1 refl)))
        (calls_pop 2 (refl)))

  cleared_twice-Reach :
      (blank : Option A) → Reach throws_none false (start blank 1) (cleared_twice blank)
  unfolding cleared_twice both_see run moved act set_state clear_value is_state
  cleared_twice-Reach blank = run-Reach throws_none false 2 2 (
      run-Reach throws_none false 0 6
        (later (run-Reach throws_none false 1 2 (both_see-Reach blank)) (calls_push 0 none (refl))))

  cleared_tail : (blank : Option A) → (cleared_twice blank).shared.queue.tail ≡ 2
  unfolding cleared_twice both_see run moved act set_state clear_value is_state
  cleared_tail blank = refl

  cleared_head : (blank : Option A) → (cleared_twice blank).shared.queue.head ≡ 1
  unfolding cleared_twice both_see run moved act set_state clear_value is_state
  cleared_head blank = refl

  cleared_slots : (blank : Option A) → (cleared_twice blank).shared.queue.cardinality ≡ 1
  unfolding cleared_twice both_see run moved act set_state clear_value is_state
  cleared_slots blank = refl

  cleared_open_slot :
      (blank : Option A) → (cleared_twice blank).shared.queue.value_state 0 ≡ waiting
  unfolding cleared_twice both_see run moved act set_state clear_value is_state
  cleared_open_slot blank = refl

  cleared_delivered : (blank : Option A) → (cleared_twice blank).shared.delivered 1 ≡ []
  unfolding cleared_twice both_see run moved act set_state clear_value is_state
  cleared_delivered blank = refl

  cleared_quiet : (blank : Option A) → (i : ℕ) → (cleared_twice blank).threads i ≡ away
  unfolding cleared_twice both_see run moved act set_state clear_value is_state
  cleared_quiet blank zero = refl
  cleared_quiet blank (suc zero) = refl
  cleared_quiet blank (suc (suc zero)) = refl
  cleared_quiet blank (suc (suc (suc i))) = ground arith

  -- Without spurious failures, in a queue of one slot, where some elements throw when they are assigned:
  -- two pushes of such an element, and two pops, can leave the queue with no call under way and not
  -- empty, in a state from which, whatever the threads do, pushes of other elements included, `head_`
  -- stays at the position 1, the queue stays not empty, and no element is delivered from that position.
  pub stale_reset_blocks :
      (blank : Option A)
      → (s : System (Option A)) × Reach throws_none false (start blank 1) s
        × ((i : ℕ) → s.threads i ≡ away)
        × ((t : System (Option A))
            → Reach throws_none false s t
            → (t.shared.queue.head ≡ 1) × (1 < t.shared.queue.tail) × (t.shared.delivered 1 ≡ []))
  stale_reset_blocks blank =
      let e : Emptied 1 (cleared_twice blank).shared = record {
        some_slot = omega (arith, cleared_slots blank);
        oldest = cleared_head blank;
        reserved = omega (arith, cleared_tail blank);
        within = omega (arith, cleared_tail blank, cleared_slots blank);
        open_slot = rw (cleared_slots blank) (cleared_open_slot blank);
        undelivered = cleared_delivered blank;
      } in
      let q = cleared_quiet blank in
      (
        cleared_twice blank,
        cleared_twice-Reach blank,
        q,
        λ t r.
            let o : IsBlocked throws_none 1 t =
              Reach-IsBlocked throws_none (quiet-IsBlocked throws_none 1 _ e q) r in
            (o.emptied.oldest, o.emptied.reserved, o.emptied.undelivered),
      )
