-- ===== src/MapReduce/Handover.antt =====
-- The queue between the two phases of include/map_reduce.h: it is made for the number of tasks, the tasks
-- are pushed, and it is closed before a reducer starts.
use google_concurrency_libra.Base.{
  Bool, ◌+◌, ◌-◌, ◌^◌, ◌<◌, ◌≤◌, ◌≡◌, refl, true, false, List, [], ◌∷◌, ◌++◌, ◌⊎◌, inl, inr, arith,
  length, length-append, Option, some, none, append_assoc, append-nil, ap, ◌∙◌,
}
use google_concurrency_libra.Outcome.{Outcome, returned, thrown, fault, invalid_argument}
use google_concurrency_libra.BufferQueue.{BufferQueue, Section, try_push, close, construct}
use google_concurrency_libra.BufferQueue.Wait.{push, wait_push, refuse_closed}
use google_concurrency_libra.BufferQueue.Bounds.{IsValid, try_push-IsValid}
use google_concurrency_libra.BufferQueue.Fifo.{fifo_push}
use google_concurrency_libra.BufferQueue.Refine.{contents, view, try_push-refines}
use google_concurrency_libra.BufferQueue.Blocking.{push_round_ends}
use google_concurrency_libra.BufferQueue.Filled.{construct_plain}

module _ {A : Type 0} (throws : A → Bool) where
  -- What `push` did, in the loop over `work_shards`; without a result the push waits.
  unfoldable pub push_tasks : List A → BufferQueue A → Option (Outcome (BufferQueue A))
  unfolding push close
  push_tasks [] q = some (returned (close q).after)
  push_tasks (t ∷ ts) q = elim (push throws [] q t) [
    | none ↦ none
    | some s ↦ elim s.outcome [
      | returned u ↦ push_tasks ts s.after
      | thrown e ↦ some (thrown e)
      | fault ↦ some fault
    ]
  ]

  -- `reducer_inputs`, whose slots hold `initial` at first.
  unfoldable pub reducer_inputs : A → List A → Option (Outcome (BufferQueue A))
  unfolding push_tasks
  reducer_inputs initial tasks = elim (construct initial (length tasks)) [
    | returned q ↦ push_tasks tasks q
    | thrown e ↦ some (thrown e)
    | fault ↦ some fault
  ]

module _ {A : Type 0} where
  close-IsValid : (q : BufferQueue A) → IsValid q → IsValid (close q).after
  unfolding close
  close-IsValid q v = ground arith

  closed_view :
      (q : BufferQueue A)
      → view (close q).after
        ≡ record { items = contents q ++ []; cap = q.num_slots - 1; shut = true }
  unfolding close
  closed_view q = rw (append-nil (contents q)) refl

  length_nil : (xs : List A) → length xs ≡ 0 → xs ≡ []
  length_nil [] e = refl
  length_nil (x ∷ xs) e = absurd (omega arith)

module _ {A : Type 0} (throws : A → Bool) (calm : (a : A) → throws a ≡ false) where
  push_now :
      (q : BufferQueue A) (a : A)
      → IsValid q
      → q.is_shut ≡ false
      → length (contents q) < q.num_slots - 1
      → push throws [] q a ≡ some (refuse_closed throws (try_push throws q a))
  unfolding push wait_push
  push_now q a v open_q room = ground (arith, push_round_ends throws a v (inr room))

  pushed_outcome :
      (q : BufferQueue A) (a : A)
      → IsValid q
      → q.is_shut ≡ false
      → length (contents q) < q.num_slots - 1
      → ((refuse_closed throws (try_push throws q a)).outcome ≡ returned tt)
        × (view (try_push throws q a).after
            ≡ record { items = contents q ++ a ∷ []; cap = q.num_slots - 1; shut = false })
  unfolding refuse_closed fifo_push
  pushed_outcome q a v open_q room = ground (arith, try_push-refines throws a v, calm a)

  push_one :
      (t : A) (ts : List A) (q : BufferQueue A) {s : Section A (Unit {0})}
      → push throws [] q t ≡ some s
      → s.outcome ≡ returned tt
      → push_tasks throws (t ∷ ts) q ≡ push_tasks throws ts s.after
  unfolding push_tasks
  push_one t ts q now fine = rw (push_tasks, now, fine) refl

  tasks_fit :
      (ts : List A) (q : BufferQueue A)
      → IsValid q
      → q.is_shut ≡ false
      → length (contents q) + length ts ≤ q.num_slots - 1
      → (q' : BufferQueue A) × (push_tasks throws ts q ≡ some (returned q'))
        × IsValid q'
        × (view q' ≡ record { items = contents q ++ ts; cap = q.num_slots - 1; shut = true })
  unfolding push_tasks refuse_closed
  tasks_fit [] q v open_q room = ((close q).after, refl, close-IsValid q v, closed_view q)
  tasks_fit (t ∷ ts) q v open_q room =
      let now = push_now q t v open_q (omega arith) in
      let (fine, seen) = pushed_outcome q t v open_q (omega arith) in
      let items = ap (λ f. f.items) seen in
      let slots = ap (λ f. f.cap) seen in
      let (q', same, valid, result) =
        tasks_fit ts (try_push throws q t).after (try_push-IsValid throws t v)
          (ap (λ f. f.shut) seen)
          (omega (arith, ap length items, slots, length-append (contents q) (t ∷ []))) in
      (
        q',
        push_one t ts q now fine ∙ same,
        valid,
        result ∙ rw (items, slots, append_assoc (contents q) (t ∷ []) ts) refl,
      )

  -- If no assignment throws: a queue that is made for the tasks takes them all without a wait, and is then
  -- closed and holds them in their order; but without a task the call of `run` ends with
  -- `invalid_argument`.
  pub reducer_inputs_lem :
      (initial : A) (tasks : List A)
      → length tasks + 1 < 2 ^ 64
      → ((tasks ≡ []) × (reducer_inputs throws initial tasks ≡ some (thrown invalid_argument)))
        ⊎ ((q : BufferQueue A) × (reducer_inputs throws initial tasks ≡ some (returned q))
            × IsValid q
            × (view q ≡ record { items = tasks; cap = length tasks; shut = true }))
  unfolding reducer_inputs
  reducer_inputs_lem initial tasks h = elim (construct_plain initial (length tasks) h) [
    | inl (e, c) ↦ inl (length_nil tasks e, rw (reducer_inputs, c) refl)
    | inr (q, c, v, seen) ↦
        let items = ap (λ f. f.items) seen in
        let slots = ap (λ f. f.cap) seen in
        let (q', same, valid, result) =
          tasks_fit tasks q v (ap (λ f. f.shut) seen) (omega (arith, ap length items, slots)) in
        inr (q', rw (reducer_inputs, c) same, valid, result ∙ rw (items, slots) refl)
  ]
