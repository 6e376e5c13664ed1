-- ===== src/Source/Tests.antt =====
-- Runs of the sources of include/source.h over ranges.
use google_concurrency_libra.Base.{ℕ, ◌≡◌, refl, List, [], ◌∷◌, none, true, false}
use google_concurrency_libra.Outcome.{returned, thrown, logic_error, closed_error}
use google_concurrency_libra.Source.{
  Source, empty, construct, copy, assign, has_value, is_closed, get, wait, keep, from, pop, at_end,
  QueueOps,
}

abbrev range : List ℕ
range = 4 ∷ 7 ∷ []

-- A queue with the calls that a source needs, over a list.
abbrev over_list : QueueOps (List ℕ) ℕ
over_list = record {
  value_pop = λ q. elim q [ [] ↦ (thrown closed_error, []) | x ∷ l ↦ (returned x, l) ];
  is_closed = λ q. elim q [ [] ↦ true | _ ∷ _ ↦ false ];
}

-- The queue over a range, by its own calls.
range_pops : (pop (from range)).0 ≡ returned 4
unfolding pop from
range_pops = refl

range_ends : at_end (pop (pop (from range)).1).1 ≡ true
unfolding pop from at_end
range_ends = refl

-- A second wait is refused, and leaves the source as it is.
waited : Source ℕ
unfolding construct
waited = (wait over_list range construct).0.0

waits_twice : (wait over_list range waited).0 ≡ (waited, thrown logic_error)
unfolding waited wait keep construct
waits_twice = refl

-- Assigning to a source that holds a value loses the value: the next `get` gives the following element.
assigned_loses : (get over_list (7 ∷ []) (assign waited)).0.0 ≡ returned 7
unfolding waited wait keep construct assign get
assigned_loses = refl

-- The end of the queue is noticed after a construction, and not after a `get`.
notices_end : (is_closed over_list [] construct).0 ≡ true
unfolding is_closed construct
notices_end = refl

notices_late : (is_closed over_list [] (record { state = empty; last_value = none })).0 ≡ false
unfolding is_closed
notices_late = refl

copies_nothing : has_value (copy waited) ≡ false
unfolding has_value copy construct
copies_nothing = refl
