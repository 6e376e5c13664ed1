-- ===== src/Pipeline/Parallel/Tests.antt =====
-- The theorem about a parallel segment of include/pipeline.h at a concrete state.
use google_concurrency_libra.Base.{
  ℕ, ◌+◌, ◌≡◌, ◌⊎◌, refl, true, false, List, [], ◌∷◌, none, arith, sum_map,
}
use google_concurrency_libra.Pipeline.Parallel.{
  in_loop, Parallel, copies_of, parallel, pops, first, Step, feeds, moves, Run, here, later,
}
use google_concurrency_libra.Pipeline.Parallel.Kept.{work}
use google_concurrency_libra.Pipeline.Parallel.Completes.{parallel_completes}

abbrev twice : ℕ → List ℕ
twice x = x ∷ x ∷ []

-- The first of two copies has taken an element.
abbrev one_taken : Parallel ℕ
one_taken = record {
  coming = 4 ∷ [];
  in_queue = [];
  in_shut = false;
  copies =
      record { place = in_loop; pending = 3 ∷ 3 ∷ []; queue = [] }
      ∷ record { place = in_loop; pending = []; queue = [] }
      ∷ [];
  collected = none;
  out = [];
  finished = false;
}

one_taken-Run : Run twice 10 (parallel 2 (3 ∷ 4 ∷ [])) 2 one_taken
unfolding parallel copies_of
one_taken-Run =
    later (later here (feeds 3 (4 ∷ []) refl (omega arith)))
      (moves (first (pops 3 [] refl refl refl)))

parallel_completes_example :
    (2 + work twice one_taken ≡ work twice (parallel 2 (3 ∷ 4 ∷ [])))
    × (((t : Parallel ℕ) × Step twice 10 one_taken t)
        ⊎ ((one_taken.finished ≡ true)
            × ((w : ℕ → ℕ)
                → sum_map w one_taken.out ≡ sum_map (λ x. sum_map w (twice x)) (3 ∷ 4 ∷ []))))
parallel_completes_example =
    parallel_completes twice 10 2 (3 ∷ 4 ∷ []) (omega arith) (omega arith) one_taken-Run
