-- ===== src/Pipeline.antt =====
-- The worker threads of include/pipeline.h, one behind the other. A worker has an in queue of the class
-- of include/buffer_queue.h, of which this model has the elements and whether it is closed, and pushes
-- into the in queue of the next one. All elements have one type, a sum of the types of the plan. What a
-- user's function pushes for an element is the list that `func` gives.
pub mod Flow
pub mod Parallel
pub mod Plans
pub mod Plan
pub mod Merged
pub mod Closing
pub mod Completes
pub mod Work
pub mod Progress
pub mod Tidy
mod Tests
use google_concurrency_libra.Base.{Bool, ℕ, ◌<◌, ◌≡◌, true, false, List, [], ◌∷◌, ◌++◌, length, suc}

-- `each` loops until `wait_pop` fails: `run_simple_function`, `run_multi_out_function`, `run_consumer`
-- and `run_queue`. `batch` loops until `is_closed`: `run_multi_in_function`, `run_full_function` and
-- `run_multi_in_consumer`, whose function takes elements by itself.
pub data Kind : Type 0 where
  each batch : Kind

pub data Place : Type 0 where
  looping calling closing done : Place

pub record Worker (A : Type 0) : Type 0 where
  pub kind : Kind
  pub func : A → List A
  pub at_end : List A  -- what a function of a batch gives that finds its queue closed and empty
  pub queue : List A
  pub shut : Bool
  pub pending : List A  -- what it has to push
  pub place : Place

module _ {A : Type 0} where
  -- A worker that has not started.
  unfoldable pub worker : Kind → (A → List A) → Worker A
  worker kind func = record {
    kind = kind;
    func = func;
    at_end = [];
    queue = [];
    shut = false;
    pending = [];
    place = looping;
  }

  -- `run_producer` and `run_multi_out_producer` push what their function gives.
  unfoldable pub producer : List A → Worker A
  unfolding worker
  producer gives = record (worker each (λ x. x ∷ [])) { shut = true; pending = gives }

  -- `run_queue`, on a queue that is closed.
  unfoldable pub queue_producer : List A → Worker A
  unfolding worker
  queue_producer gives = record (worker each (λ x. x ∷ [])) { queue = gives; shut = true }

  -- What a worker does without the queue of the next one.
  pub data Local (w : Worker A) : Worker A → Type 0 where
    pops :
        (x : A) (rest : List A)
        → w.kind ≡ each
        → w.place ≡ looping
        → w.pending ≡ []
        → w.queue ≡ x ∷ rest
        → Local w (record w { queue = rest; pending = w.func x })
    finds_closed :
        w.kind ≡ each
        → w.place ≡ looping
        → w.pending ≡ []
        → w.queue ≡ []
        → w.shut ≡ true
        → Local w (record w { place = closing })
    calls :
        w.kind ≡ batch
        → w.place ≡ looping
        → w.pending ≡ []
        → w.shut ≡ false
        → Local w (record w { place = calling })
    takes :
        (x : A) (rest : List A)
        → w.place ≡ calling
        → w.queue ≡ x ∷ rest
        → Local w (record w { queue = rest; pending = w.func x; place = looping })
    gives_up :
        w.place ≡ calling
        → w.queue ≡ []
        → w.shut ≡ true
        → Local w (record w { pending = w.at_end; place = looping })
    sees_closed :
        w.kind ≡ batch
        → w.place ≡ looping
        → w.pending ≡ []
        → w.shut ≡ true
        → Local w (record w { place = closing })

  -- A step of one of the workers; `cap` is the capacity of the queues. The last one is a consumer: what it
  -- pushes is what its function was called with.
  pub data Step (cap : ℕ) : List (Worker A) → List A → List (Worker A) → List A → Type 0 where
    works :
        {w w' : Worker A} {ws : List (Worker A)} {out : List A}
        → Local w w'
        → Step cap (w ∷ ws) out (w' ∷ ws) out
    pushes :
        {w v : Worker A} {ws : List (Worker A)} {out : List A} (y : A) (rest : List A)
        → w.pending ≡ y ∷ rest
        → w.place ≡ looping
        → v.shut ≡ false
        → length v.queue < cap
        → Step cap
            (w ∷ v ∷ ws)
            out
            (record w { pending = rest } ∷ record v { queue = v.queue ++ (y ∷ []) } ∷ ws)
            out
    closes :
        {w v : Worker A} {ws : List (Worker A)} {out : List A}
        → w.place ≡ closing
        → Step cap (w ∷ v ∷ ws) out (record w { place = done } ∷ record v { shut = true } ∷ ws) out
    consumes :
        {w : Worker A} {out : List A} (y : A) (rest : List A)
        → w.pending ≡ y ∷ rest
        → w.place ≡ looping
        → Step cap (w ∷ []) out (record w { pending = rest } ∷ []) (out ++ (y ∷ []))
    ends :
        {w : Worker A} {out : List A}
        → w.place ≡ closing
        → Step cap (w ∷ []) out (record w { place = done } ∷ []) out
    further :
        {w : Worker A} {ws ws' : List (Worker A)} {out out' : List A}
        → Step cap ws out ws' out'
        → Step cap (w ∷ ws) out (w ∷ ws') out'

  -- Runs of a number of steps.
  pub data Run (cap : ℕ) (ws : List (Worker A)) (out : List A)
      : ℕ → List (Worker A) → List A → Type 0 where
    here : Run cap ws out 0 ws out
    later :
        {n : ℕ} {us vs : List (Worker A)} {mid end : List A}
        → Run cap ws out n us mid
        → Step cap us mid vs end
        → Run cap ws out (suc n) vs end
