-- ===== src/Source/Reading.antt =====
-- What a client of include/source.h reads.
use google_concurrency_libra.Base.{
  ℕ, suc, zero, ◌≡◌, ◌⊎◌, List, [], ◌∷◌, Option, some, none, refl, arith, if◌then◌else◌, inl, inr,
}
use google_concurrency_libra.Outcome.{
  Outcome, returned, thrown, fault, closed_error, queue_closed, copy_failed, invalid_argument,
  logic_error, system_error,
}
use google_concurrency_libra.Source.{
  Source, State, unknown, empty, value, closed, QueueOps, held, keep, is_closed, get, wait,
}

-- The client's loop: `wait`, and `get` until the source is closed. Out of fuel it gives nothing.
module _ {A Q : Type 0} (queue : QueueOps Q A) where
  unfoldable pub read_all : ℕ → Q → Source A → Option (List A)
  unfolding wait is_closed get
  read_all zero q s = none
  read_all (suc n) q s =
      let ((waited, ended), q') = wait queue q s in
      let (stop, s') = is_closed queue q' waited in
      let ((got, s''), q'') = get queue q' s' in
      let rest = read_all n q'' s'' in
      elim ended [
        | returned u ↦ if stop then some [] else elim got [
          | returned x ↦ elim rest [ some xs ↦ some (x ∷ xs) | none ↦ none ]
          | _ ↦ none
        ]
        | _ ↦ none
      ]

  -- What a wait leaves behind: a closed source, or the value that it got.
  unfoldable pub Ready : Outcome A → Source A → Type 0
  unfolding get
  Ready o s =
      ((o ≡ thrown closed_error) × (s.state ≡ closed))
      ⊎ ((x : A) × (o ≡ returned x)
          × (s.state ≡ value)
          × ((q : Q)
              → get queue q s ≡ ((returned x, record { state = empty; last_value = some x }), q)))

  keep-Ready : (o : Outcome A) (s : Source A) → (keep o s).1 ≡ returned tt → Ready o (keep o s).0
  unfolding keep get held Ready
  keep-Ready (returned x) s e = inr (x, refl, refl, λ q. refl)
  keep-Ready (thrown closed_error) s e = inl (refl, refl)
  keep-Ready (thrown queue_closed) s e = ground arith
  keep-Ready (thrown copy_failed) s e = ground arith
  keep-Ready (thrown invalid_argument) s e = ground arith
  keep-Ready (thrown logic_error) s e = ground arith
  keep-Ready (thrown system_error) s e = ground arith
  keep-Ready fault s e = ground arith

  -- A wait of a source without a value that returns has found the queue closed, or has taken one value from
  -- it, which the next `get` returns without the queue.
  pub wait_lem :
      (q : Q) (st : State) (last : Option A)
      → (st ≡ unknown) ⊎ (st ≡ empty)
      → (wait queue q (record { state = st; last_value = last })).0.1 ≡ returned tt
      → Ready (queue.value_pop q).0 (wait queue q (record { state = st; last_value = last })).0.0
  unfolding wait
  wait_lem q unknown last h e =
      keep-Ready (queue.value_pop q).0 (record { state = unknown; last_value = last }) e
  wait_lem q empty last h e =
      keep-Ready (queue.value_pop q).0 (record { state = empty; last_value = last }) e
  wait_lem q value last h e = ground arith
  wait_lem q closed last h e = ground arith

-- What a source relies on: `value_pop` gives the elements that the queue still has one by one, and then
-- throws `closed_error`. `is_closed` may say anything.
pub record Delivers {Q A : Type 0} (queue : QueueOps Q A) (has : Q → List A) : Type 0 where
  pub gives :
      (q : Q) (x : A) (l : List A)
      → has q ≡ x ∷ l
      → ((queue.value_pop q).0 ≡ returned x) × (has (queue.value_pop q).1 ≡ l)
  pub stops : (q : Q) → has q ≡ [] → (queue.value_pop q).0 ≡ thrown closed_error
