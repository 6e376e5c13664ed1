-- ===== src/MapReduce/Tests.antt =====
-- The theorems about include/map_reduce.h at concrete inputs.
use google_concurrency_libra.Base.{
  Bool, ℕ, ◌+◌, ◌*◌, ◌%◌, ◌≡◌, refl, true, false, List, [], ◌∷◌, ◌⊎◌, arith, sum_map, some,
}
use google_concurrency_libra.Base.Sets.{insert}
use google_concurrency_libra.MapReduce.{
  looking, System, iter_next, reader, readers_at, mappers, takes, handles, first, Step, moves, Run,
  here, later,
}
use google_concurrency_libra.MapReduce.Readers.{AllEnded, work}
use google_concurrency_libra.MapReduce.Shuffle.{
  insert_pair, insert_range, shuffle, Task, default_shard, add_key, shard_from, work_shards,
}
use google_concurrency_libra.Outcome.{returned, thrown, invalid_argument}
use google_concurrency_libra.BufferQueue.{BufferQueue}
use google_concurrency_libra.BufferQueue.Bounds.{IsValid}
use google_concurrency_libra.BufferQueue.Refine.{view}
use google_concurrency_libra.MapReduce.Handover.{reducer_inputs, reducer_inputs_lem}
use google_concurrency_libra.MapReduce.Phases.{outputs, reducer_input, reduce_tasks, map_phase}

-- The mapper of testing/map_reduce_test.cc.
abbrev bucketize : ℕ → List (ℕ × ℕ) × Bool
bucketize v = ((v % 10, v) ∷ [], false)

-- Both mappers have popped nothing, and hold the first value of the input; one of them maps it.
abbrev one_mapped : System ℕ (ℕ × ℕ)
one_mapped = record {
  queue = 22 ∷ [];
  unborn = 0;
  readers =
      record { stage = looking (some 12); log = (0, 10) ∷ [] }
      ∷ record { stage = looking (some 10); log = [] }
      ∷ [];
}

mapper_run : Run bucketize (mappers 2 (10 ∷ 12 ∷ 22 ∷ [])) 2 one_mapped
unfolding mappers readers_at reader iter_next
mapper_run =
    later (later here (moves (first (takes 10 refl))))
      (moves (first (handles 10 (some 12) refl refl)))

map_phase_example :
    (2 + work one_mapped ≡ work {A = ℕ} {B = ℕ × ℕ} (mappers 2 (10 ∷ 12 ∷ 22 ∷ [])))
    × (((u : System ℕ (ℕ × ℕ)) × Step bucketize one_mapped u)
        ⊎ (AllEnded one_mapped.readers
            × ((w : ℕ × ℕ → ℕ)
                → sum_map (sum_map w) (outputs one_mapped.readers)
                  ≡ 2 * sum_map w (bucketize 10).0
                    + sum_map (λ v. sum_map w (bucketize v).0) (12 ∷ 22 ∷ []))))
map_phase_example = map_phase bucketize (λ v. refl) 2 10 (12 ∷ 22 ∷ []) (omega arith) mapper_run

abbrev two_logs : List (List (ℕ × ℕ))
two_logs = ((2, 12) ∷ (1, 5) ∷ []) ∷ ((2, 22) ∷ []) ∷ []

two_logs_input : reducer_input two_logs ≡ (1, 5) ∷ (2, 12) ∷ (2, 22) ∷ []
unfolding reducer_input shuffle insert_range insert_pair
two_logs_input = refl

two_logs_tasks :
    reduce_tasks (default_shard (λ k. k) 2) 9 two_logs
    ≡ record { shard_id = 0; work_key_set = 2 ∷ [] }
      ∷ record { shard_id = 1; work_key_set = 1 ∷ [] }
      ∷ []
unfolding reduce_tasks reducer_input shuffle insert_range insert_pair work_shards shard_from add_key
    insert default_shard
two_logs_tasks = refl

-- A key that the read through `end()` gives is in no task.
two_logs_skip :
    reduce_tasks (default_shard (λ k. k) 2) 1 two_logs
    ≡ record { shard_id = 0; work_key_set = 2 ∷ [] } ∷ []
unfolding reduce_tasks reducer_input shuffle insert_range insert_pair work_shards shard_from add_key
    insert default_shard
two_logs_skip = refl

-- The first reducer has begun.
abbrev one_reduces : System Task (ℕ × List ℕ)
one_reduces = record {
  queue = record { shard_id = 1; work_key_set = 1 ∷ [] } ∷ [];
  unborn = 1;
  readers =
      record { stage = looking (some (record { shard_id = 0; work_key_set = 2 ∷ [] })); log = [] }
      ∷ [];
}

abbrev never : ℕ → Bool
never x = false

reducer_inputs_lem_example :
    ((◌≡◌ {A = List ℕ} (3 ∷ 4 ∷ []) [])
      × (reducer_inputs never 0 (3 ∷ 4 ∷ []) ≡ some (thrown invalid_argument)))
    ⊎ ((q : BufferQueue ℕ) × (reducer_inputs never 0 (3 ∷ 4 ∷ []) ≡ some (returned q))
        × IsValid q
        × (view q ≡ record { items = 3 ∷ 4 ∷ []; cap = 2; shut = true }))
reducer_inputs_lem_example = reducer_inputs_lem never (λ x. refl) 0 (3 ∷ 4 ∷ []) (omega arith)
