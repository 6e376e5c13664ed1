-- ===== src/BufferQueue/Order.antt =====
-- First in, first out, over whole histories of include/buffer_queue.h.
use google_concurrency_libra.Base.{
  Bool, ◌≡◌, ◌∙◌, true, false, some, List, [], ◌∷◌, ◌++◌, append-nil, arith, ℕ, sym, ap, subst,
  ◌≡⟨◌⟩◌, ◌∎, append_assoc,
}
use google_concurrency_libra.Outcome.{QueueOpStatus, success, Outcome, returned}
use google_concurrency_libra.BufferQueue.{BufferQueue}
use google_concurrency_libra.BufferQueue.Bounds.{IsValid}
use google_concurrency_libra.BufferQueue.Fifo.{
  Fifo, fifo_push, fifo_pop, fifo_step, Call, pops, pushes, nonblocking_pops, nonblocking_pushes,
  Reply, pushed, popped,
}
use google_concurrency_libra.BufferQueue.Calls.{step, run, run_state}
use google_concurrency_libra.BufferQueue.Refine.{contents, step-refines, step-IsValid, view}

module _ {ℓ} {A : Type ℓ} where
  abbrev taken : Outcome QueueOpStatus → A → List A
  taken (returned success) a = a ∷ []
  taken _ a = []

  -- The element of a push that reported success.
  abbrev pub accepted : Call A → Reply A → List A
  accepted (pushes a) (pushed o) = taken o a
  accepted (nonblocking_pushes _ a) (pushed o) = taken o a
  accepted _ _ = []

  -- The element that a pop handed over.
  abbrev pub delivered : Reply A → List A
  delivered (popped (returned (success, some a))) = a ∷ []
  delivered _ = []

  pub all_accepted : List (Call A) → List (Reply A) → List A
  all_accepted [] rs = []
  all_accepted (c ∷ cs) [] = []
  all_accepted (c ∷ cs) (r ∷ rs) = accepted c r ++ all_accepted cs rs

  pub all_delivered : List (Reply A) → List A
  all_delivered [] = []
  all_delivered (r ∷ rs) = delivered r ++ all_delivered rs

module _ {A : Type 0} (throws : A → Bool) (quiet : (a : A) → throws a ≡ false) where
  push_order :
      (f : Fifo A) (a : A) → let (f', o) = fifo_push throws f a in f.items ++ taken o a ≡ f'.items
  unfolding fifo_push
  push_order f a = ground (arith, quiet a, append-nil f.items)

  pop_order :
      (items : List A) (cap : ℕ) (shut : Bool)
      → let f : Fifo A = record { items = items; cap = cap; shut = shut } in
        let (f', o) = fifo_pop throws f in items ≡ delivered (popped o) ++ f'.items
  unfolding fifo_pop
  pop_order [] limit shut = ground arith
  pop_order (x ∷ items) limit shut = ground (arith, quiet x)

  fifo_step_order :
      (f : Fifo A) (c : Call A)
      → let (f', r) = fifo_step throws f c in f.items ++ accepted c r ≡ delivered r ++ f'.items
  unfolding fifo_step
  fifo_step_order f pops = append-nil f.items ∙ pop_order f.items f.cap f.shut
  fifo_step_order f (pushes a) = push_order f a
  fifo_step_order f (nonblocking_pops true) = append-nil f.items ∙ pop_order f.items f.cap f.shut
  fifo_step_order f (nonblocking_pushes true a) = push_order f a
  fifo_step_order f c = append-nil f.items

  step_order :
      {q : BufferQueue A} (c : Call A)
      → IsValid q
      → let (q', r) = step throws q c in contents q ++ accepted c r ≡ delivered r ++ contents q'
  step_order {q} c v =
      subst (λ s. contents q ++ accepted c s.1 ≡ delivered s.1 ++ s.0.items)
        (sym (step-refines throws c v)) (fifo_step_order (view q) c)

  -- If no assignment throws, then in every history the elements that were held at the start,
  -- followed by those of the successful pushes, are those that the pops delivered, followed by
  -- those held at the end, in this order.
  pub run-order :
      (cs : List (Call A)) {q : BufferQueue A}
      → IsValid q
      → contents q ++ all_accepted cs (run throws q cs)
        ≡ all_delivered (run throws q cs) ++ contents (run_state throws q cs)
  unfolding run run_state all_accepted all_delivered
  run-order [] {q} v = append-nil (contents q)
  run-order (c ∷ cs) {q} v =
      let (q', r) = step throws q c in
      let rest = run throws q' cs in
      contents q ++ (accepted c r ++ all_accepted cs rest)
      ≡⟨ sym (append_assoc (contents q) (accepted c r) (all_accepted cs rest)) ⟩
        (contents q ++ accepted c r) ++ all_accepted cs rest
      ≡⟨ ap (λ xs. xs ++ all_accepted cs rest) (step_order c v) ⟩
        (delivered r ++ contents q') ++ all_accepted cs rest
      ≡⟨ append_assoc (delivered r) (contents q') (all_accepted cs rest) ⟩
        delivered r ++ (contents q' ++ all_accepted cs rest)
      ≡⟨ ap (◌++◌ (delivered r)) (run-order cs (step-IsValid throws c v)) ⟩
        delivered r ++ (all_delivered rest ++ contents (run_state throws q' cs))
      ≡⟨ sym (append_assoc (delivered r) (all_delivered rest) (contents (run_state throws q' cs))) ⟩
        (delivered r ++ all_delivered rest) ++ contents (run_state throws q' cs) ∎
