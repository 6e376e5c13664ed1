-- ===== src/Pipeline/Tests.antt =====
-- The theorems about include/pipeline.h at concrete plans.
use google_concurrency_libra.Base.{ℕ, ◌≡◌, refl, true, List, [], ◌∷◌, arith}
use google_concurrency_libra.Pipeline.{
  Worker, each, batch, worker, producer, Run, here, later, pushes, works, pops,
}
use google_concurrency_libra.Pipeline.Progress.{AllDone}
use google_concurrency_libra.Pipeline.Completes.{meaning}
use google_concurrency_libra.Pipeline.Flow.{concat_map}
use google_concurrency_libra.Pipeline.Plan.{
  can_merge_on_front, can_merge_on_back, merge_on_front, merge_back, new_chain, clone, pipe, run,
  piped, plan,
}
use google_concurrency_libra.Pipeline.Plans.{source, Promises, plan_completes}
use google_concurrency_libra.Pipeline.Closing.{batch_loses}

abbrev twice : ℕ → List ℕ
twice x = x ∷ x ∷ []

abbrev tested : List (Worker ℕ)
tested = run (plan (source true (1 ∷ 2 ∷ [])) (twice ∷ []))

-- A queue with a function and a consumer behind it: the function reads the queue itself.
tested_run :
    tested
    ≡ record (worker each twice) { queue = 1 ∷ 2 ∷ []; shut = true }
      ∷ worker each (λ x. x ∷ [])
      ∷ []
unfolding run plan piped pipe new_chain clone merge_back merge_on_front can_merge_on_front
    can_merge_on_back source
tested_run = refl

-- The function takes the first element, and gives it to the consumer.
abbrev gives_one : List (Worker ℕ)
gives_one =
    record (worker each twice) { queue = 2 ∷ []; shut = true; pending = 1 ∷ [] }
    ∷ record (worker each (λ x. x ∷ [])) { queue = 1 ∷ [] }
    ∷ []

short_run : Run 10 tested [] 2 gives_one []
unfolding run plan piped pipe new_chain clone merge_back merge_on_front can_merge_on_front
    can_merge_on_back source worker
short_run =
    later (later here (works (pops 1 (2 ∷ []) refl refl refl refl)))
      (pushes 1 (1 ∷ []) refl refl refl (omega arith))

plan_completes_example : Promises 10 2 tested gives_one [] (meaning (twice ∷ []) (1 ∷ 2 ∷ []))
plan_completes_example = plan_completes (omega arith) true (1 ∷ 2 ∷ []) (twice ∷ []) short_run

meaning_tested : meaning (twice ∷ []) (1 ∷ 2 ∷ []) ≡ 1 ∷ 1 ∷ 2 ∷ 2 ∷ []
unfolding meaning concat_map
meaning_tested = refl

batch_loses_example :
    (n : ℕ) × (ws : List (Worker ℕ)) × Run 10
      (producer (1 ∷ 2 ∷ []) ∷ worker batch twice ∷ [])
      []
      n
      ws
      []
    × AllDone ws
batch_loses_example = batch_loses twice (1 ∷ 2 ∷ []) (omega arith)
