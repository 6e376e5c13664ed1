-- ===== src/BufferQueue/Monitor/Wakeups.antt =====
-- In every reachable state of the threads that share a queue, no wakeup is lost.
use google_concurrency_libra.Base.{
  Bool, ℕ, ◌+◌, ◌-◌, ◌^◌, ◌<◌, ◌≡◌, ◌⊎◌, inl, inr, true, false, ◌∷◌, arith, length, length-append,
  refl, subst,
}
use google_concurrency_libra.BufferQueue.Refine.{contents}
use google_concurrency_libra.BufferQueue.Filled.{construct_plain}
use google_concurrency_libra.BufferQueue.Monitor.{
  System, Step, push_waits, push_ends, pop_waits, pop_ends, tries_push, tries_pop, closes, handles,
  spurious_pusher, spurious_popper, Reach, begin, later, start,
}
use google_concurrency_libra.BufferQueue.Monitor.Invariant.{Inv, Notify-Inv}
use google_concurrency_libra.BufferQueue.Monitor.Sections.{
  PusherTurn-Slack, PopperTurn-Slack, push_waits-Inv, pop_waits-Inv, push_ends-Owes, pop_ends-Owes,
  try_push-Owes, try_pop-Owes, close-Owes,
}

module _ {A : Type 0} (throws : A → Bool) where
  pub Step-Inv : {s t : System A} → Step throws s t → Inv s → Inv t
  Step-Inv (push_waits {a = a} p e) o = push_waits-Inv throws a (PusherTurn-Slack o p) e
  Step-Inv (push_ends {a = a} p e n) o =
      Notify-Inv (push_ends-Owes throws a (PusherTurn-Slack o p) e) n
  Step-Inv (pop_waits p e) o = pop_waits-Inv throws (PopperTurn-Slack o p) e
  Step-Inv (pop_ends p e n) o = Notify-Inv (pop_ends-Owes throws (PopperTurn-Slack o p) e) n
  Step-Inv (tries_push a n) o = Notify-Inv (try_push-Owes throws a o) n
  Step-Inv (tries_pop n) o = Notify-Inv (try_pop-Owes throws o) n
  Step-Inv (closes n) o = Notify-Inv (close-Owes 0 0 o) n
  Step-Inv (handles k e n) o =
      Notify-Inv
        (close-Owes 1 1
          (ground (arith, o.pushers_awake, o.poppers_awake, o.room_signalled, o.item_signalled)))
        n
  Step-Inv (spurious_pusher xs a ys e) o = ground (
    arith,
    o.pushers_awake,
    o.poppers_awake,
    o.room_signalled,
    o.item_signalled,
    length-append xs ys,
    length-append xs (a ∷ ys),
  )
  Step-Inv (spurious_popper n e) o =
      ground (arith, o.pushers_awake, o.poppers_awake, o.room_signalled, o.item_signalled)

  Reach-Inv :
      {initial : A} {max_elems : ℕ} {s : System A}
      → max_elems + 1 < 2 ^ 64
      → Reach throws initial max_elems s
      → Inv s
  Reach-Inv {initial} {max_elems} small (begin {q = q'} e) =
      elim (construct_plain initial max_elems small) [
        | inl (_, refused) ↦ absurd (ground arith)
        | inr (q, built, v, same) ↦
            let p : q ≡ q' = ground arith in
            subst (λ x. Inv (start throws x)) p
              (record {
                valid = v;
                full_counted = omega arith;
                empty_counted = omega arith;
                pushers_awake = λ _ _. refl;
                poppers_awake = λ _ _. refl;
                room_signalled = λ _ h. absurd (omega arith);
                item_signalled = λ _ h. absurd (omega arith);
              })
      ]
  Reach-Inv small (later r st) = Step-Inv st (Reach-Inv small r)

  -- In every reachable state: if a thread sleeps in `wait_push` while the queue has a free slot or
  -- is closed, or in `wait_pop` while it has an element or is closed, then the queue is open and
  -- some thread has been woken, or is about to close the queue.
  pub no_lost_wakeup :
      {initial : A} {max_elems : ℕ} {s : System A}
      → max_elems + 1 < 2 ^ 64
      → Reach throws initial max_elems s
      → (0 < length s.pushers_asleep
          → (s.queue.is_shut ≡ true) ⊎ (length (contents s.queue) < s.queue.num_slots - 1)
          → (s.queue.is_shut ≡ false) × (0 < length s.pushers_woken + s.closers))
        × (0 < s.poppers_asleep
            → (s.queue.is_shut ≡ true) ⊎ (0 < length (contents s.queue))
            → (s.queue.is_shut ≡ false) × (0 < s.poppers_woken + s.closers))
  no_lost_wakeup small r =
      let o : Inv _ = Reach-Inv small r in
      (
        λ asleep free. ground (arith, o.pushers_awake, o.poppers_awake, o.room_signalled),
        λ asleep item. ground (arith, o.pushers_awake, o.poppers_awake, o.item_signalled),
      )
