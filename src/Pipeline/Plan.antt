-- ===== src/Pipeline/Plan.antt =====
-- The segments of which a plan of include/pipeline.h is made, and the workers that a plan starts. The
-- queue before a plan is closed and has the elements that are written here. A parallel segment is not
-- among these.
use google_concurrency_libra.Base.{
  Bool, true, false, not, ◌&&◌, List, [], ◌∷◌, ◌++◌, Option, some, none, if◌then◌else◌,
}
use google_concurrency_libra.Pipeline.{Worker, each, worker, producer, queue_producer}

-- `__segment_base` and its derived classes. A function has the queue that was merged into it, if any; a
-- queue producer, whether it has been merged. A function of a batch has no plan here.
pub data Segment (A : Type 0) : Type 0 where
  producing : List A → Segment A
  from_queue : List A → Bool → Segment A
  function : (A → List A) → Option (List A) → Segment A
  consumer : Segment A
  to_queue : Segment A
  chain : Segment A → Segment A → Segment A

module _ {A : Type 0} where
  unfoldable pub can_merge_on_front : Segment A → Bool
  can_merge_on_front (producing xs) = false
  can_merge_on_front (from_queue xs merged) = false
  can_merge_on_front (function f none) = true
  can_merge_on_front (function f (some ft)) = false
  can_merge_on_front consumer = false
  can_merge_on_front to_queue = false
  can_merge_on_front (chain first second) = can_merge_on_front first

  unfoldable pub can_merge_on_back : Segment A → Bool
  can_merge_on_back (producing xs) = false
  can_merge_on_back (from_queue xs merged) = not merged
  can_merge_on_back (function f ft) = false
  can_merge_on_back consumer = false
  can_merge_on_back to_queue = false
  can_merge_on_back (chain first second) = can_merge_on_back second

  -- The base class throws; its object is then not used.
  unfoldable pub merge_on_front : List A → Segment A → Segment A
  merge_on_front ft (function f merged) = function f (some ft)
  merge_on_front ft (chain first second) = chain (merge_on_front ft first) second
  merge_on_front ft (producing xs) = producing xs
  merge_on_front ft (from_queue xs merged) = from_queue xs merged
  merge_on_front ft consumer = consumer
  merge_on_front ft to_queue = to_queue

  -- The queue that the segment gives away, and the segment after that.
  unfoldable pub merge_back : Segment A → List A × Segment A
  merge_back (from_queue xs merged) = (xs, from_queue [] true)
  merge_back (chain first second) = ((merge_back second).0, chain first (merge_back second).1)
  merge_back (producing xs) = ([], producing xs)
  merge_back (function f merged) = ([], function f merged)
  merge_back consumer = ([], consumer)
  merge_back to_queue = ([], to_queue)

  -- The constructor of `__segment_chain`.
  unfoldable pub new_chain : Segment A → Segment A → Segment A
  new_chain first second =
      if can_merge_on_back first && can_merge_on_front second
      then chain (merge_back first).1 (merge_on_front (merge_back first).0 second)
      else chain first second

  unfoldable pub clone : Segment A → Segment A
  unfolding new_chain
  clone (chain first second) = new_chain (clone first) (clone second)
  clone (producing xs) = producing xs
  clone (from_queue xs merged) = from_queue xs merged
  clone (function f merged) = function f merged
  clone consumer = consumer
  clone to_queue = to_queue

  -- `operator|`
  unfoldable pub pipe : Segment A → Segment A → Segment A
  unfolding clone new_chain
  pipe p1 p2 = new_chain (clone p1) (clone p2)

  -- The threads that `run` starts, in the order of the elements. A segment that writes into a queue
  -- starts none, since the one before it writes there.
  unfoldable pub run : Segment A → List (Worker A)
  unfolding worker producer queue_producer
  run (producing xs) = producer xs ∷ []
  run (from_queue xs true) = []
  run (from_queue xs false) = queue_producer xs ∷ []
  run (function f none) = worker each f ∷ []
  run (function f (some ft)) = record (worker each f) { queue = ft; shut = true } ∷ []
  run consumer = worker each (λ x. x ∷ []) ∷ []
  run to_queue = []
  run (chain first second) = run first ++ run second

  -- A source behind which functions stand: `from( … ) | make( f ) | …`, and then `| to( … )`.
  unfoldable pub piped : Segment A → List (A → List A) → Segment A
  unfolding pipe
  piped p [] = p
  piped p (f ∷ fs) = piped (pipe p (function f none)) fs

  unfoldable pub plan : Segment A → List (A → List A) → Segment A
  unfolding piped pipe
  plan p fs = pipe (piped p fs) consumer
