-- ===== src/Pipeline/Plans.antt =====
-- What a plan of include/pipeline.h computes.
use google_concurrency_libra.Base.{
  Bool, true, false, ℕ, ◌+◌, ◌<◌, ◌≡◌, refl, List, [], ◌∷◌, ◌++◌, ◌⊎◌, ap, ◌∙◌, sym, subst,
  append-nil,
}
use google_concurrency_libra.Pipeline.{
  Worker, each, looping, worker, producer, queue_producer, Run, looping,
}
use google_concurrency_libra.Pipeline.Flow.{flow, concat_map}
use google_concurrency_libra.Pipeline.Work.{work}
use google_concurrency_libra.Pipeline.Progress.{AllDone, CanStep}
use google_concurrency_libra.Pipeline.Completes.{meaning, fresh, whole, run_completes}
use google_concurrency_libra.Pipeline.Plan.{Segment, producing, from_queue, run, plan}
use google_concurrency_libra.Pipeline.Merged.{
  called, producing_workers, queue_workers, merged_workers,
}

module _ {A : Type 0} where
  -- `from` of a queue that holds these elements, or of a function that gives them.
  unfoldable pub source : Bool → List A → Segment A
  source true xs = from_queue xs false
  source false xs = producing xs

  concat_map-called : (xs : List A) → concat_map called xs ≡ xs
  unfolding concat_map
  concat_map-called [] = refl
  concat_map-called (x ∷ xs) = ap (λ l. x ∷ l) (concat_map-called xs)

  meaning-called :
      (fs : List (A → List A)) (xs : List A) → meaning (fs ++ (called ∷ [])) xs ≡ meaning fs xs
  unfolding meaning
  meaning-called [] xs = concat_map-called xs
  meaning-called (f ∷ fs) xs = meaning-called fs (concat_map f xs)

  -- What a state of a run of these workers promises.
  pub record Promises (cap n : ℕ) (all ws : List (Worker A)) (out result : List A) : Type 0 where
    pub counts : n + work ws ≡ work all
    pub so_far : out ++ flow ws [] ≡ result
    pub goes_on : CanStep cap ws out ⊎ (AllDone ws × (out ≡ result))

  -- The first workers of the three kinds of plan.
  abbrev Starts : Worker A → Type 0
  Starts w = (w.kind ≡ each) × (w.place ≡ looping) × (w.shut ≡ true)

  producer_lem : (xs : List A) → Starts (producer xs)
  unfolding producer worker
  producer_lem xs = (refl, refl, refl)

  queue_lem : (xs : List A) → Starts (queue_producer xs)
  unfolding queue_producer worker
  queue_lem xs = (refl, refl, refl)

  merged_lem :
      (xs : List A) (f : A → List A) → Starts (record (worker each f) { queue = xs; shut = true })
  unfolding worker
  merged_lem xs f = (refl, refl, refl)

  abbrev what_comes : Worker A → List (A → List A) → List A
  what_comes w fs = meaning (fs ++ (called ∷ [])) (w.pending ++ concat_map w.func (w.queue ++ []))

  produced : (xs : List A) (fs : List (A → List A)) → what_comes (producer xs) fs ≡ meaning fs xs
  unfolding producer worker concat_map
  produced xs fs = ap (meaning (fs ++ (called ∷ []))) (append-nil xs) ∙ meaning-called fs xs

  queued_through : (xs : List A) → what_comes (queue_producer xs) [] ≡ xs
  unfolding queue_producer worker meaning
  queued_through xs =
      concat_map-called (concat_map called (xs ++ []))
      ∙ (concat_map-called (xs ++ []) ∙ append-nil xs)

  merged_through :
      (xs : List A) (f : A → List A) (fs : List (A → List A))
      → what_comes (record (worker each f) { queue = xs; shut = true }) fs ≡ meaning (f ∷ fs) xs
  unfolding worker meaning
  merged_through xs f fs =
      ap (λ l. meaning (fs ++ (called ∷ [])) (concat_map f l)) (append-nil xs)
      ∙ meaning-called fs (concat_map f xs)

  module _ {cap n : ℕ} {ws : List (Worker A)} {out : List A} (c : 0 < cap) where
    headed_run :
        (w : Worker A) (fs : List (A → List A)) (result : List A)
        → w.kind ≡ each
        → w.place ≡ looping
        → w.shut ≡ true
        → meaning (fs ++ (called ∷ [])) (w.pending ++ concat_map w.func (w.queue ++ [])) ≡ result
        → (all : List (Worker A)) → all ≡ w ∷ fresh (fs ++ (called ∷ []))
        → Run cap all [] n ws out
        → Promises cap n all ws out result
    unfolding whole
    headed_run w fs result k p s e all same r =
        let (counts, so_far, goes_on) =
          run_completes w k p s (fs ++ (called ∷ [])) c
            (subst (λ l. Run cap l [] n ws out) same r) in
        subst (λ l. Promises cap n l ws out result) (sym same)
          (record {
            counts = counts;
            so_far = so_far ∙ e;
            goes_on = subst (λ z. CanStep cap ws out ⊎ (AllDone ws × (out ≡ z))) e goes_on;
          })

    -- A plan from a function or a queue to a consumer computes its functions one behind the other:
    -- each step takes one from `work`, what is given out is always a first part of the result, and a worker
    -- can take a step unless all are done and exactly the result has been given out.
    pub plan_completes :
        (queued : Bool) (xs : List A) (fs : List (A → List A))
        → Run cap (run (plan (source queued xs) fs)) [] n ws out
        → Promises cap n (run (plan (source queued xs) fs)) ws out (meaning fs xs)
    unfolding source meaning
    plan_completes false xs fs r =
        headed_run (producer xs) fs (meaning fs xs) (producer_lem xs).0 (producer_lem xs).1
          (producer_lem xs).2 (produced xs fs) (run (plan (producing xs) fs))
          (producing_workers xs fs) r
    plan_completes true xs [] r =
        headed_run (queue_producer xs) [] xs (queue_lem xs).0 (queue_lem xs).1 (queue_lem xs).2
          (queued_through xs) (run (plan (from_queue xs false) [])) (queue_workers xs) r
    plan_completes true xs (f ∷ fs) r =
        headed_run (record (worker each f) { queue = xs; shut = true }) fs (meaning (f ∷ fs) xs)
          (merged_lem xs f).0 (merged_lem xs f).1 (merged_lem xs f).2 (merged_through xs f fs)
          (run (plan (from_queue xs false) (f ∷ fs))) (merged_workers xs f fs) r
