-- ===== src/MapReduce.antt =====
-- The helper threads of include/map_reduce_impl.h: `mapper_helper` and `reducer_helper` loop over an
-- iterator of a queue, take a value, handle it and count down a latch at the end of the loop. The queue
-- is closed. An iterator holds the value that it has popped (`queue_front_iter` of
-- include/queue_base.h). What a thread writes is kept in a list for each thread.
pub mod Readers
pub mod Iterators
pub mod Ended
pub mod Shuffle
pub mod Sharding
pub mod Keys
pub mod Phases
pub mod Handover
mod Tests
use google_concurrency_libra.Base.{
  Bool, ℕ, ◌≡◌, true, false, List, [], ◌∷◌, ◌++◌, Option, some, none, suc, zero,
}

-- Where the loop is, with its iterator: `none` has come to the end. A thread that handles a value has
-- already moved its iterator.
pub data Stage (A : Type 0) : Type 0 where
  looking : Option A → Stage A
  handling : A → Option A → Stage A
  ended : Stage A

pub record Reader (A B : Type 0) : Type 0 where
  pub stage : Stage A
  pub log : List B

-- Threads that are still to be started pop their first value when the caller makes their iterator.
pub record System (A B : Type 0) : Type 0 where
  pub queue : List A
  pub unborn : ℕ
  pub readers : List (Reader A B)

module _ {A : Type 0} where
  -- `queue_front_iter::next` on a closed queue: the value, and the queue after that.
  unfoldable pub iter_next : List A → Option A × List A
  iter_next [] = (none, [])
  iter_next (x ∷ q) = (some x, q)

module _ {A B : Type 0} where
  unfoldable pub reader : Option A → Reader A B
  reader it = record { stage = looking it; log = [] }

  unfoldable pub readers_at : ℕ → Option A → List (Reader A B)
  unfolding reader
  readers_at zero it = []
  readers_at (suc n) it = reader it ∷ readers_at n it

  -- The first loop of `run`: each mapper has a copy of the iterator that `run` was given.
  unfoldable pub mappers : ℕ → List A → System A B
  unfolding iter_next readers_at
  mappers n input = record {
    queue = (iter_next input).1;
    unborn = 0;
    readers = readers_at n (iter_next input).0;
  }

  -- The last loop of `run`: each reducer has its own iterator.
  unfoldable pub reducers : ℕ → List A → System A B
  reducers n tasks = record { queue = tasks; unborn = n; readers = [] }

-- `func` is what handling a value writes, and whether it throws after that.
module _ {A B : Type 0} (func : A → List B × Bool) where
  pub data Turn : List A → Reader A B → List A → Reader A B → Type 0 where
    takes :
        {q : List A} {r : Reader A B} (v : A)
        → r.stage ≡ looking (some v)
        → Turn q r (iter_next q).1 (record r { stage = handling v (iter_next q).0 })
    handles :
        {q : List A} {r : Reader A B} (v : A) (it : Option A)
        → r.stage ≡ handling v it
        → (func v).1 ≡ false
        → Turn q r q (record r { stage = looking it; log = r.log ++ (func v).0 })
    throws :
        {q : List A} {r : Reader A B} (v : A) (it : Option A)
        → r.stage ≡ handling v it
        → (func v).1 ≡ true
        → Turn q r q (record r { stage = ended; log = r.log ++ (func v).0 })
    ends :
        {q : List A} {r : Reader A B}
        → r.stage ≡ looking none
        → Turn q r q (record r { stage = ended })

  -- One of the threads takes its turn.
  pub data Moves : List A → List (Reader A B) → List A → List (Reader A B) → Type 0 where
    first :
        {q q' : List A} {r r' : Reader A B} {rs : List (Reader A B)}
        → Turn q r q' r'
        → Moves q (r ∷ rs) q' (r' ∷ rs)
    further :
        {q q' : List A} {r : Reader A B} {rs rs' : List (Reader A B)}
        → Moves q rs q' rs'
        → Moves q (r ∷ rs) q' (r ∷ rs')

  pub data Step (s : System A B) : System A B → Type 0 where
    moves :
        {q : List A} {rs : List (Reader A B)}
        → Moves s.queue s.readers q rs
        → Step s (record s { queue = q; readers = rs })
    begins :
        (n : ℕ)
        → s.unborn ≡ suc n
        → Step s (record {
          queue = (iter_next s.queue).1;
          unborn = n;
          readers = reader (iter_next s.queue).0 ∷ s.readers;
        })

  -- Runs of a number of steps.
  pub data Run (s : System A B) : ℕ → System A B → Type 0 where
    here : Run s 0 s
    later : {n : ℕ} {t u : System A B} → Run s n t → Step t u → Run s (suc n) u
