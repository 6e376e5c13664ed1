-- ===== src/BufferQueue/Throwing.antt =====
-- The calls of include/buffer_queue.h that report a closed queue by throwing.
use google_concurrency_libra.Base.{
  Bool, ◌≡◌, inl, inr, true, false, [], ◌∷◌, ◌++◌, arith, Bool-cases, some, List, Option-cases,
  refl, subst,
}
use google_concurrency_libra.Outcome.{returned, thrown, queue_closed, copy_failed}
use google_concurrency_libra.BufferQueue.{BufferQueue, Section, try_push, try_pop}
use google_concurrency_libra.BufferQueue.Wait.{
  refuse_closed, value_pop, push, take_value, wait_push, wait_pop,
}
use google_concurrency_libra.BufferQueue.Bounds.{IsValid}
use google_concurrency_libra.BufferQueue.Fifo.{fifo_push, fifo_pop}
use google_concurrency_libra.BufferQueue.Refine.{contents, try_push-refines, try_pop-refines}
use google_concurrency_libra.BufferQueue.Blocking.{
  HasRoom, AllKeep, HasItem, PushWaits, PopWaits, wait_pop_lem, wait_push_lem,
}

module _ {A : Type 0} (throws : A → Bool) where
  -- How `push(a)` ends, from the state `q` in which it stops waiting.
  pub data PushEnds (q : BufferQueue A) (a : A) (s : Section A (Unit {0})) : Type 0 where
    added :
        s.outcome ≡ returned tt
        → contents s.after ≡ contents q ++ a ∷ []
        → s.after.is_shut ≡ false
        → PushEnds q a s
    refused :
        s.outcome ≡ thrown queue_closed
        → q.is_shut ≡ true
        → contents s.after ≡ contents q
        → PushEnds q a s
    failed :
        s.outcome ≡ thrown copy_failed
        → throws a ≡ true
        → s.after.is_shut ≡ true
        → contents s.after ≡ contents q
        → PushEnds q a s

  push_ends :
      (q : BufferQueue A) (a : A)
      → IsValid q
      → HasRoom q
      → PushEnds q a (refuse_closed throws (try_push throws q a))
  unfolding refuse_closed fifo_push
  push_ends q a v room = elim (Bool-cases q.is_shut) [
    | inl shut ↦
        refused (ground (arith, try_push-refines throws a v)) shut
          (ground (arith, try_push-refines throws a v))
    | inr open_q ↦ elim (Bool-cases (throws a)) [
      | inl bad ↦
          failed (ground (arith, try_push-refines throws a v)) bad
            (ground (arith, try_push-refines throws a v))
            (ground (arith, try_push-refines throws a v))
      | inr good ↦
          added (ground (arith, try_push-refines throws a v))
            (ground (arith, try_push-refines throws a v))
            (ground (arith, try_push-refines throws a v))
    ]
  ]

  -- How `value_pop()` ends, from the state `q` in which it stops waiting.
  pub data PopEnds (q : BufferQueue A) (s : Section A A) : Type 0 where
    delivered : (x : A) → s.outcome ≡ returned x → contents q ≡ x ∷ contents s.after → PopEnds q s
    refused :
        s.outcome ≡ thrown queue_closed
        → contents q ≡ []
        → s.after.is_shut ≡ true
        → contents s.after ≡ []
        → PopEnds q s
    failed :
        (x : A)
        → s.outcome ≡ thrown copy_failed
        → throws x ≡ true
        → contents q ≡ x ∷ contents s.after
        → s.after.is_shut ≡ true
        → PopEnds q s

  pop_ends :
      (q : BufferQueue A) (xs : List A)
      → contents q ≡ xs
      → IsValid q
      → HasItem q
      → PopEnds q (take_value throws (try_pop throws q))
  unfolding take_value fifo_pop
  pop_ends q [] e v item =
      refused (ground (arith, try_pop-refines throws v)) e
        (ground (arith, try_pop-refines throws v)) (ground (arith, try_pop-refines throws v))
  pop_ends q (x ∷ xs) e v item = elim (Bool-cases (throws x)) [
    | inl bad ↦
        failed x (ground (arith, try_pop-refines throws v)) bad
          (ground (arith, try_pop-refines throws v)) (ground (arith, try_pop-refines throws v))
    | inr good ↦
        delivered x (ground (arith, try_pop-refines throws v))
          (ground (arith, try_pop-refines throws v))
  ]

  -- On a valid queue, and as long as the other threads keep it valid, a push that ends has waited,
  -- counted, while the queue was open and full, and on the queue that their changes have made of it
  -- since has added its element at the end; or has found it closed, left its elements and thrown
  -- that; or has met a throwing assignment, and then the elements are kept and the queue is closed.
  pub push_lem :
      (others : List (BufferQueue A → BufferQueue A)) (q : BufferQueue A) (a : A)
      {s : Section A (Unit {0})}
      → AllKeep others
      → IsValid q
      → push throws others q a ≡ some s
      → (q₀ : BufferQueue A) × PushWaits q₀ others q × IsValid q₀ × PushEnds q₀ a s
  unfolding push
  push_lem others q a {s} keep v h = elim (Option-cases (wait_push throws others q a)) [
    | inl e ↦ absurd (ground arith)
    | inr (w, e) ↦
        let (q₀, waited, v₀, room, same) = wait_push_lem throws others q a keep v e in
        let path : refuse_closed throws (try_push throws q₀ a) ≡ s = ground arith in
        (q₀, waited, v₀, subst (PushEnds q₀ a) path (push_ends q₀ a v₀ room))
  ]

  -- On a valid queue, and as long as the other threads keep it valid, a call of `value_pop` that ends
  -- has waited, counted, while the queue was open and empty, and from the queue that their changes have
  -- made of it since delivers the oldest element; or throws `closed`, as that queue is closed and
  -- empty; or loses the oldest element to a throwing assignment, which closes the queue.
  pub value_pop_lem :
      (others : List (BufferQueue A → BufferQueue A)) (q : BufferQueue A) {s : Section A A}
      → AllKeep others
      → IsValid q
      → value_pop throws others q ≡ some s
      → (q₀ : BufferQueue A) × PopWaits q₀ others q × IsValid q₀ × PopEnds q₀ s
  unfolding value_pop
  value_pop_lem others q {s} keep v h = elim (Option-cases (wait_pop throws others q)) [
    | inl e ↦ absurd (ground arith)
    | inr (w, e) ↦
        let (q₀, waited, v₀, item, same) = wait_pop_lem throws others q keep v e in
        let path : take_value throws (try_pop throws q₀) ≡ s = ground arith in
        (q₀, waited, v₀, subst (PopEnds q₀) path (pop_ends q₀ (contents q₀) refl v₀ item))
  ]
