-- ===== src/Pipeline/Parallel/Completes.antt =====
-- A parallel segment of include/pipeline.h comes to its end, and then everything has come through.
use google_concurrency_libra.Base.{
  ℕ, ◌+◌, ◌<◌, ◌≡◌, ◌≢◌, refl, true, false, List, [], ◌∷◌, Option, some, none, suc, zero, arith,
  sum_map, ◌⊎◌, inl, inr, Bool-cases, subst, sym,
}
use google_concurrency_libra.Pipeline.Parallel.{
  CopyPlace, in_loop, at_close, ended, Copy, Parallel, copies_of, parallel, Turn, pops, pushes,
  finds_closed, closes, Moves, first, Step, feeds, feed_ends, moves, reads, gives, leaves_queue,
  finishes, Run,
}
use google_concurrency_libra.Pipeline.Parallel.Kept.{Settled, AllSettled, Inv, weight, work, taken}
use google_concurrency_libra.Pipeline.Parallel.Steady.{Run-Inv, Run-work, Run-weight}

module _ {A : Type 0} (func : A → List A) (cap : ℕ) where
  -- Someone can take a step, or the thread of `run_out_queues` has ended.
  abbrev Verdict : Parallel A → Type 0
  Verdict s = ((t : Parallel A) × Step func cap s t) ⊎ (s.finished ≡ true)

  module _ (some_room : 0 < cap) where
    head_step :
        (s : Parallel A) (c : Copy A) (cs : List (Copy A)) {q : List A} {c' : Copy A}
        → s.copies ≡ c ∷ cs
        → Turn func cap s.in_queue s.in_shut c q c'
        → (t : Parallel A) × Step func cap s t
    head_step s c cs {q} {c'} e t = (
      _,
      moves (subst (λ l. Moves func cap s.in_queue s.in_shut l q (c' ∷ cs)) (sym e) (first t)),
    )

    -- The copy whose queue is empty, and waited for, is in its loop with nothing to push.
    looks :
        (s : Parallel A) (c : Copy A) (cs : List (Copy A)) (q coming : List A)
        → s.copies ≡ c ∷ cs
        → c.place ≡ in_loop
        → c.pending ≡ []
        → s.in_queue ≡ q
        → s.coming ≡ coming
        → (t : Parallel A) × Step func cap s t
    looks s c cs (x ∷ q) coming e p f g h = head_step s c cs e (pops x q p f g)
    looks s c cs [] (y ∷ rest) e p f g h = (_, feeds y rest h (rw g some_room))
    looks s c cs [] [] e p f g h = elim (Bool-cases s.in_shut) [
      | inl shut ↦ head_step s c cs e (finds_closed p f g shut)
      | inr open_q ↦ (_, feed_ends h open_q)
    ]

    awaited :
        (s : Parallel A) (c : Copy A) (cs : List (Copy A)) (place : CopyPlace) (pending : List A)
        → s.copies ≡ c ∷ cs
        → s.collected ≡ none
        → c.queue ≡ []
        → c.place ≡ place
        → c.pending ≡ pending
        → Settled s.in_queue s.in_shut c
        → (t : Parallel A) × Step func cap s t
    unfolding Settled
    awaited s c cs ended pending e n f p g settled = (_, leaves_queue c cs e n f p)
    awaited s c cs at_close pending e n f p g settled = head_step s c cs e (closes p)
    awaited s c cs in_loop (y ∷ rest) e n f p g settled =
        head_step s c cs e (pushes y rest g (rw f some_room))
    awaited s c cs in_loop [] e n f p g settled = looks s c cs s.in_queue s.coming e p g refl refl

    collects :
        (s : Parallel A) (c : Copy A) (cs : List (Copy A)) (queue : List A)
        → s.copies ≡ c ∷ cs
        → s.collected ≡ none
        → c.queue ≡ queue
        → Settled s.in_queue s.in_shut c
        → (t : Parallel A) × Step func cap s t
    collects s c cs (x ∷ rest) e n f settled = (_, reads c cs x rest e n f)
    collects s c cs [] e n f settled = awaited s c cs c.place c.pending e n f refl refl settled

    waits :
        (s : Parallel A) (cs : List (Copy A))
        → s.copies ≡ cs
        → s.collected ≡ none
        → AllSettled s.in_queue s.in_shut cs
        → Verdict s
    unfolding AllSettled
    waits s [] e n settled = elim (Bool-cases s.finished) [
      | inl f ↦ inr f
      | inr f ↦ inl (_, finishes e n f)
    ]
    waits s (c ∷ cs) e n (settled, others) = inl (collects s c cs c.queue e n refl settled)

    verdict : (s : Parallel A) (o : Option A) → s.collected ≡ o → Inv s → Verdict s
    verdict s (some x) e v = inl (_, gives x e)
    verdict s none e v = waits s s.copies refl e v.settled

copies_of-AllSettled : (A : Type 0) (n : ℕ) → AllSettled {A = A} [] false (copies_of n)
unfolding copies_of AllSettled Settled
copies_of-AllSettled A zero = tt
copies_of-AllSettled A (suc n) = (λ out. absurd (out refl), copies_of-AllSettled A n)

copies_of-some : (A : Type 0) (n : ℕ) → 0 < n → copies_of {A = A} n ≢ []
unfolding copies_of
copies_of-some A zero h = absurd (omega arith)
copies_of-some A (suc n) h = ground arith

module _ {A : Type 0} where
  parallel-Inv : (n : ℕ) (xs : List A) → 0 < n → Inv (parallel n xs)
  unfolding parallel
  parallel-Inv n xs h = record {
    settled = copies_of-AllSettled A n;
    all_came = λ e. absurd (ground arith);
    drained = λ e. absurd (copies_of-some A n h e);
    at_end = λ e. absurd (ground arith);
  }

  copies_of-weight :
      (w : A → ℕ) (n : ℕ) → sum_map (λ c. sum_map w c.pending + sum_map w c.queue) (copies_of n) ≡ 0
  unfolding copies_of
  copies_of-weight w zero = refl
  copies_of-weight w (suc n) = omega (arith, copies_of-weight w n)

  parallel-weight :
      (func : A → List A) (w : A → ℕ) (n : ℕ) (xs : List A)
      → weight func w (parallel n xs) ≡ sum_map (λ x. sum_map w (func x)) xs
  unfolding weight parallel taken
  parallel-weight func w n xs = omega (arith, copies_of-weight w n)

  ended-weight :
      (func : A → List A) (w : A → ℕ) (s : Parallel A)
      → Inv s
      → s.finished ≡ true
      → weight func w s ≡ sum_map w s.out
  unfolding weight taken
  ended-weight func w s v f =
      let (none_left, nothing) = v.at_end f in
      let (empty, all) = v.drained none_left in rw (none_left, nothing, empty, all) (omega arith)

  -- Each step of a parallel segment takes one from its work, and somebody can take a step unless it has
  -- finished; then it has given out what the function gives for each element that came, as often as it came.
  pub parallel_completes :
      (func : A → List A) (cap num : ℕ) (xs : List A) {s : Parallel A} {n : ℕ}
      → 0 < cap
      → 0 < num
      → Run func cap (parallel num xs) n s
      → (n + work func s ≡ work func (parallel num xs))
        × (((t : Parallel A) × Step func cap s t)
            ⊎ ((s.finished ≡ true)
                × ((w : A → ℕ) → sum_map w s.out ≡ sum_map (λ x. sum_map w (func x)) xs)))
  parallel_completes func cap num xs {s} c h r =
      let start : Inv _ = parallel-Inv num xs h in
      let v : Inv s = Run-Inv func cap r start in
      (
        Run-work func cap r start,
        elim (verdict func cap c s s.collected refl v) [
          | inl more ↦ inl more
          | inr f ↦ inr (
            f,
            λ w. omega (
              arith,
              ended-weight func w s v f,
              Run-weight func cap w r start,
              parallel-weight func w num xs,
            ),
          )
        ],
      )
