-- ===== src/Pipeline/Parallel/Kept.antt =====
-- What a parallel segment of include/pipeline.h keeps, and what its steps use up.
use google_concurrency_libra.Base.{
  Bool, ℕ, ◌+◌, ◌*◌, ◌≡◌, refl, true, List, [], ◌∷◌, Option, some, none, length, arith, sum_map,
  sum_map-append, length-append, if◌then◌else◌, ◌≢◌, subst,
}
use google_concurrency_libra.Pipeline.Parallel.{
  CopyPlace, in_loop, at_close, ended, Copy, Parallel, Turn, pops, pushes, finds_closed, closes,
  Moves, first, further, Step, feeds, feed_ends, moves, reads, gives, leaves_queue, finishes,
}

-- A copy that has left its loop has found the input closed and empty, and has nothing to push.
module _ {A : Type 0} where
  unfoldable pub Settled : List A → Bool → Copy A → Type 0
  Settled q in_shut c = c.place ≢ in_loop → (c.pending ≡ []) × (q ≡ []) × (in_shut ≡ true)

  unfoldable pub AllSettled : List A → Bool → List (Copy A) → Type 0
  unfolding Settled
  AllSettled q in_shut [] = Unit
  AllSettled q in_shut (c ∷ cs) = Settled q in_shut c × AllSettled q in_shut cs

  pub record Inv (s : Parallel A) : Type 0 where
    pub settled : AllSettled s.in_queue s.in_shut s.copies
    pub all_came : s.in_shut ≡ true → s.coming ≡ []
    pub drained : s.copies ≡ [] → (s.in_queue ≡ []) × (s.coming ≡ [])
    pub at_end : s.finished ≡ true → (s.copies ≡ []) × (s.collected ≡ none)

unfoldable pub taken : {A : Type 0} → (A → ℕ) → Option A → ℕ
taken w none = 0
taken w (some x) = w x

-- What the queues hold under a weight.
module _ {A : Type 0} (func : A → List A) (w : A → ℕ) where
  unfoldable pub weight : Parallel A → ℕ
  unfolding taken
  weight s =
      sum_map (λ x. sum_map w (func x)) s.coming
      + (sum_map (λ x. sum_map w (func x)) s.in_queue
          + (sum_map (λ c. sum_map w c.pending + sum_map w c.queue) s.copies
              + (taken w s.collected + sum_map w s.out)))

pub head_settled :
    {A : Type 0} (q : List A) (b : Bool) (c : Copy A) (cs : List (Copy A))
    → AllSettled q b (c ∷ cs)
    → c.place ≡ ended
    → c.pending ≡ []
unfolding AllSettled Settled
head_settled q b c cs (settled, rest) p = ground arith

unfoldable pub to_end : CopyPlace → ℕ
to_end in_loop = 3
to_end at_close = 2
to_end ended = 1

-- The steps that are left.
module _ {A : Type 0} (func : A → List A) where
  unfoldable pub work : Parallel A → ℕ
  unfolding to_end taken
  work s =
      sum_map (λ x. 2 + 3 * length (func x)) s.coming
      + (sum_map (λ x. 1 + 3 * length (func x)) s.in_queue
          + (sum_map (λ c. 3 * length c.pending + 2 * length c.queue + to_end c.place) s.copies
              + (taken (λ x. 1) s.collected
                  + ((if s.in_shut then 0 else 1) + (if s.finished then 0 else 1)))))

module _ {A : Type 0} (func : A → List A) (cap : ℕ) where
  -- No step loses or repeats an element.
  module _ (w : A → ℕ) where
    abbrev gains : List A → ℕ
    gains xs = sum_map (λ x. sum_map w (func x)) xs

    abbrev holds : Copy A → ℕ
    holds c = sum_map w c.pending + sum_map w c.queue

    Turn-weight :
        {b : Bool} {q q' : List A} {c c' : Copy A}
        → Turn func cap q b c q' c'
        → gains q' + holds c' ≡ gains q + holds c
    Turn-weight (pops x rest p e f) = rw (e, f) (omega arith)
    Turn-weight {c = c} (pushes y rest e h) =
        rw e (omega (arith, sum_map-append w c.queue (y ∷ [])))
    Turn-weight (finds_closed p e f g) = refl
    Turn-weight (closes p) = refl

    Moves-weight :
        {b : Bool} {q q' : List A} {cs cs' : List (Copy A)}
        → Moves func cap q b cs q' cs'
        → gains q' + sum_map holds cs' ≡ gains q + sum_map holds cs
    Moves-weight (first t) = omega (arith, Turn-weight t)
    Moves-weight (further m) = omega (arith, Moves-weight m)

    dropped_weight : (c : Copy A) → c.queue ≡ [] → c.pending ≡ [] → holds c ≡ 0
    dropped_weight c e f = rw (e, f) refl

    pub Step-weight :
        {s t : Parallel A} → Step func cap s t → Inv s → weight func w t ≡ weight func w s
    unfolding weight taken
    Step-weight {s} (feeds y rest e h) v =
        rw e (omega (arith, sum_map-append (λ x. sum_map w (func x)) s.in_queue (y ∷ [])))
    Step-weight (feed_ends e b) v = refl
    Step-weight (moves m) v = omega (arith, Moves-weight m)
    Step-weight (reads c cs x rest e n f) v = rw (e, n, f) (omega arith)
    Step-weight {s} (gives x e) v = rw e (omega (arith, sum_map-append w s.out (x ∷ [])))
    Step-weight {s} (leaves_queue c cs e n f p) v =
        let settled : AllSettled s.in_queue s.in_shut (c ∷ cs) =
          subst (AllSettled s.in_queue s.in_shut) e v.settled in
        rw e (omega (arith, dropped_weight c f (head_settled s.in_queue s.in_shut c cs settled p)))
    Step-weight (finishes e n f) v = refl

  -- Each step takes one from the work.
  abbrev costs : List A → ℕ
  costs xs = sum_map (λ x. 1 + 3 * length (func x)) xs

  abbrev left_of : Copy A → ℕ
  left_of c = 3 * length c.pending + 2 * length c.queue + to_end c.place

  Turn-work :
      {b : Bool} {q q' : List A} {c c' : Copy A}
      → Turn func cap q b c q' c'
      → 1 + (costs q' + left_of c') ≡ costs q + left_of c
  unfolding to_end
  Turn-work (pops x rest p e f) = rw (e, f) (omega arith)
  Turn-work {c = c} (pushes y rest e h) = rw e (omega (arith, length-append c.queue (y ∷ [])))
  Turn-work (finds_closed p e f g) = rw p (omega arith)
  Turn-work (closes p) = rw p (omega arith)

  Moves-work :
      {b : Bool} {q q' : List A} {cs cs' : List (Copy A)}
      → Moves func cap q b cs q' cs'
      → 1 + (costs q' + sum_map left_of cs') ≡ costs q + sum_map left_of cs
  Moves-work (first t) = omega (arith, Turn-work t)
  Moves-work (further m) = omega (arith, Moves-work m)

  left_done : (c : Copy A) → c.queue ≡ [] → c.pending ≡ [] → c.place ≡ ended → left_of c ≡ 1
  unfolding to_end
  left_done c e f p = rw (e, f, p) refl

  pub Step-work : {s t : Parallel A} → Step func cap s t → Inv s → 1 + work func t ≡ work func s
  unfolding work taken to_end
  Step-work {s} (feeds y rest e h) v =
      rw e (omega (arith, sum_map-append (λ x. 1 + 3 * length (func x)) s.in_queue (y ∷ [])))
  Step-work (feed_ends e b) v = rw b (omega arith)
  Step-work (moves m) v = omega (arith, Moves-work m)
  Step-work (reads c cs x rest e n f) v = rw (e, n, f) (omega arith)
  Step-work (gives x e) v = rw e (omega arith)
  Step-work {s} (leaves_queue c cs e n f p) v =
      let settled : AllSettled s.in_queue s.in_shut (c ∷ cs) =
        subst (AllSettled s.in_queue s.in_shut) e v.settled in
      let last = left_done c f (head_settled s.in_queue s.in_shut c cs settled p) p in
      rw e (omega (arith, last))
  Step-work (finishes e n f) v = rw f (omega arith)
