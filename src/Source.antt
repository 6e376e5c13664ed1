-- ===== src/Source.antt =====
-- A source of include/source.h, by which one thread reads from a queue, and the queue over a range of
-- include/iterator_queue.h. A source needs `value_pop` and `is_closed` of its queue, which is a
-- parameter: a call of `value_pop` that blocks has not ended, and is seen when it ends.
pub mod Reading
mod Tests
use google_concurrency_libra.Base.{
  Bool, true, false, List, [], ◌∷◌, Option, some, none, if◌then◌else◌,
}
use google_concurrency_libra.Outcome.{Outcome, returned, thrown, fault, closed_error, logic_error}

-- `enum state`
pub data State : Type 0 where
  unknown empty value closed : State

pub record Source (A : Type 0) : Type 0 where
  pub state : State
  pub last_value : Option A

-- What a source calls of its queue.
pub record QueueOps (Q A : Type 0) : Type 0 where
  pub value_pop : Q → Outcome A × Q
  pub is_closed : Q → Bool

module _ {A : Type 0} where
  -- The constructor; a copy starts in the same state.
  unfoldable pub construct : Source A
  construct = record { state = unknown; last_value = none }

  unfoldable pub copy : Source A → Source A
  unfolding construct
  copy other = construct

  -- The assignment to a source keeps the value that it last had, and forgets its state.
  unfoldable pub assign : Source A → Source A
  assign s = record s { state = unknown }

  unfoldable pub has_value : Source A → Bool
  has_value s = elim s.state [ value ↦ true | _ ↦ false ]

  unfoldable pub held : Source A → Outcome A
  held s = elim s.last_value [ some x ↦ returned x | none ↦ fault ]

  -- What `wait` does with the end of the call of the queue.
  unfoldable pub keep : Outcome A → Source A → Source A × Outcome {0} Unit
  keep (returned x) s = (record s { state = value; last_value = some x }, returned tt)
  keep (thrown closed_error) s = (record s { state = closed }, returned tt)
  keep (thrown e) s = (s, thrown e)
  keep fault s = (s, fault)

module _ {A Q : Type 0} (queue : QueueOps Q A) where
  unfoldable pub is_closed : Q → Source A → Bool × Source A
  is_closed q s = elim s.state [
    | unknown ↦ if queue.is_closed q then (true, record s { state = closed }) else (false, s)
    | closed ↦ (true, s)
    | _ ↦ (false, s)
  ]

  unfoldable pub get : Q → Source A → (Outcome A × Source A) × Q
  unfolding held
  get q s = elim s.state [
    | value ↦ ((held s, record s { state = empty }), q)
    | closed ↦ ((thrown closed_error, s), q)
    | _ ↦ (((queue.value_pop q).0, s), (queue.value_pop q).1)
  ]

  unfoldable pub wait : Q → Source A → (Source A × Outcome {0} Unit) × Q
  unfolding keep
  wait q s = elim s.state [
    | closed ↦ ((s, returned tt), q)
    | value ↦ ((s, thrown logic_error), q)
    | _ ↦ (keep (queue.value_pop q).0 s, (queue.value_pop q).1)
  ]

-- `iterator_queue`: the elements from `it_` to `end_`.
pub record IteratorQueue (A : Type 0) : Type 0 where
  pub rest : List A

module _ {A : Type 0} where
  unfoldable pub from : List A → IteratorQueue A
  from range = record { rest = range }

  unfoldable pub pop : IteratorQueue A → Outcome A × IteratorQueue A
  pop q = elim q.rest [
    | [] ↦ (thrown closed_error, q)
    | x ∷ l ↦ (returned x, record q { rest = l })
  ]

  unfoldable pub at_end : IteratorQueue A → Bool
  at_end q = elim q.rest [ [] ↦ true | _ ∷ _ ↦ false ]
