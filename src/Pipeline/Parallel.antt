-- ===== src/Pipeline/Parallel.antt =====
-- The parallel segment of include/pipeline.h around a function: copies of the function read one queue, each
-- writes into a queue of its own, and one more thread empties these queues one after the other.
pub mod Kept
pub mod Steady
pub mod Completes
mod Tests
use google_concurrency_libra.Base.{
  Bool, ℕ, ◌<◌, ◌≡◌, true, false, List, [], ◌∷◌, ◌++◌, Option, some, none, length, suc, zero,
}

-- Where the loop of a copy is: in it, before `close`, or behind that.
pub data CopyPlace : Type 0 where
  in_loop at_close ended : CopyPlace

-- A thread of `bases_`, and its queue of `out_queues_`, which is closed when the thread is at its end.
pub record Copy (A : Type 0) : Type 0 where
  pub place : CopyPlace
  pub pending : List A  -- what it has to push
  pub queue : List A

-- `coming` is what the segment before has still to push into `in_queue_`, which it closes after that;
-- `copies` are those whose queues `run_out_queues` has not left behind; `collected` is the element that
-- it has popped and not pushed; `out` is what it has pushed.
pub record Parallel (A : Type 0) : Type 0 where
  pub coming : List A
  pub in_queue : List A
  pub in_shut : Bool
  pub copies : List (Copy A)
  pub collected : Option A
  pub out : List A
  pub finished : Bool

module _ {A : Type 0} where
  unfoldable pub copies_of : ℕ → List (Copy A)
  copies_of zero = []
  copies_of (suc n) = record { place = in_loop; pending = []; queue = [] } ∷ copies_of n

  unfoldable pub parallel : ℕ → List A → Parallel A
  unfolding copies_of
  parallel n xs = record {
    coming = xs;
    in_queue = [];
    in_shut = false;
    copies = copies_of n;
    collected = none;
    out = [];
    finished = false;
  }

-- `func` is what the function pushes for an element; `cap` is the capacity of the queues.
module _ {A : Type 0} (func : A → List A) (cap : ℕ) where
  -- The loop of a copy.
  pub data Turn (q : List A) (in_shut : Bool) (c : Copy A) : List A → Copy A → Type 0 where
    pops :
        (x : A) (rest : List A)
        → c.place ≡ in_loop
        → c.pending ≡ []
        → q ≡ x ∷ rest
        → Turn q in_shut c rest (record c { pending = func x })
    pushes :
        (y : A) (rest : List A)
        → c.pending ≡ y ∷ rest
        → length c.queue < cap
        → Turn q in_shut c q (record c { pending = rest; queue = c.queue ++ (y ∷ []) })
    finds_closed :
        c.place ≡ in_loop
        → c.pending ≡ []
        → q ≡ []
        → in_shut ≡ true
        → Turn q in_shut c q (record c { place = at_close })
    closes : c.place ≡ at_close → Turn q in_shut c q (record c { place = ended })

  pub data Moves (q : List A) (in_shut : Bool)
      : List (Copy A) → List A → List (Copy A) → Type 0 where
    first :
        {c c' : Copy A} {cs : List (Copy A)} {q' : List A}
        → Turn q in_shut c q' c'
        → Moves q in_shut (c ∷ cs) q' (c' ∷ cs)
    further :
        {c : Copy A} {cs cs' : List (Copy A)} {q' : List A}
        → Moves q in_shut cs q' cs'
        → Moves q in_shut (c ∷ cs) q' (c ∷ cs')

  pub data Step (s : Parallel A) : Parallel A → Type 0 where
    feeds :
        (y : A) (rest : List A)
        → s.coming ≡ y ∷ rest
        → length s.in_queue < cap
        → Step s (record s { coming = rest; in_queue = s.in_queue ++ (y ∷ []) })
    feed_ends : s.coming ≡ [] → s.in_shut ≡ false → Step s (record s { in_shut = true })
    moves :
        {q : List A} {cs : List (Copy A)}
        → Moves s.in_queue s.in_shut s.copies q cs
        → Step s (record s { in_queue = q; copies = cs })
    reads :
        (c : Copy A) (cs : List (Copy A)) (x : A) (rest : List A)
        → s.copies ≡ c ∷ cs
        → s.collected ≡ none
        → c.queue ≡ x ∷ rest
        → Step s (record s { copies = record c { queue = rest } ∷ cs; collected = some x })
    gives :
        (x : A)
        → s.collected ≡ some x
        → Step s (record s { collected = none; out = s.out ++ (x ∷ []) })
    leaves_queue :
        (c : Copy A) (cs : List (Copy A))
        → s.copies ≡ c ∷ cs
        → s.collected ≡ none
        → c.queue ≡ []
        → c.place ≡ ended
        → Step s (record s { copies = cs })
    finishes :
        s.copies ≡ []
        → s.collected ≡ none
        → s.finished ≡ false
        → Step s (record s { finished = true })

  -- Runs of a number of steps.
  pub data Run (s : Parallel A) : ℕ → Parallel A → Type 0 where
    here : Run s 0 s
    later : {n : ℕ} {t u : Parallel A} → Run s n t → Step t u → Run s (suc n) u
