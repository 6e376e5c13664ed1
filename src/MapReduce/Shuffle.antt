-- ===== src/MapReduce/Shuffle.antt =====
-- What `run` of include/map_reduce.h does between its mappers and its reducers. A key is a number, in the
-- order of its type, and a multimap is the list of its pairs in the order of its iteration.
use google_concurrency_libra.Base.{ℕ, ◌%◌, ltb, ◌==◌, List, [], ◌∷◌, if◌then◌else◌, map}
use google_concurrency_libra.Base.Sets.{insert}

module _ {V : Type 0} where
  -- `multimap::insert` puts a pair behind those of the same key.
  unfoldable pub insert_pair : ℕ × V → List (ℕ × V) → List (ℕ × V)
  insert_pair p [] = p ∷ []
  insert_pair p (r ∷ m) = let rest = insert_pair p m in if ltb p.0 r.0 then p ∷ r ∷ m else r ∷ rest

  unfoldable pub insert_range : List (ℕ × V) → List (ℕ × V) → List (ℕ × V)
  unfolding insert_pair
  insert_range [] m = m
  insert_range (p ∷ ps) m = insert_range ps (insert_pair p m)

  -- `mapper_outputs_[i]`, by what its mapper wrote, and then `reducer_input_`.
  unfoldable pub shuffle : List (List (ℕ × V)) → List (ℕ × V) → List (ℕ × V)
  unfolding insert_range
  shuffle [] m = m
  shuffle (log ∷ logs) m = shuffle logs (insert_range (insert_range log []) m)

  -- The values of `equal_range`.
  unfoldable pub equal_range : ℕ → List (ℕ × V) → List V
  equal_range k [] = []
  equal_range k (p ∷ m) = let rest = equal_range k m in if p.0 == k then p.1 ∷ rest else rest

-- `default_shard`, over the hash function of the standard library.
unfoldable pub default_shard : (ℕ → ℕ) → ℕ → ℕ → ℕ
default_shard hash num_shards k = hash k % num_shards

-- `map_key_task`: the keys, and the number of the shard.
pub record Task : Type 0 where
  pub shard_id : ℕ
  pub work_key_set : List ℕ

-- `work_shards`, a map by the number of the shard: the key goes into the task of its shard.
unfoldable pub add_key : ℕ → ℕ → List Task → List Task
add_key shard k [] = record { shard_id = shard; work_key_set = insert k [] } ∷ []
add_key shard k (t ∷ ts) =
    let rest = add_key shard k ts in
    if ltb shard t.shard_id
    then record { shard_id = shard; work_key_set = insert k [] } ∷ t ∷ ts
    else (if shard == t.shard_id
        then record t { work_key_set = insert k t.work_key_set } ∷ ts
        else t ∷ rest)

module _ {V : Type 0} (shard_fn : ℕ → ℕ) where
  -- The loop over `reducer_input_`, which passes over a key that `prev_iter` has.
  unfoldable pub shard_from : ℕ → List (ℕ × V) → List Task → List Task
  unfolding add_key
  shard_from prev [] ts = ts
  shard_from prev (p ∷ m) ts =
      if p.0 == prev then shard_from prev m ts else shard_from p.0 m (add_key (shard_fn p.0) p.0 ts)

  -- Before the first round `prev_iter` is `end()`: what reading a key there gives is an argument.
  unfoldable pub work_shards : ℕ → List (ℕ × V) → List Task
  unfolding shard_from
  work_shards at_end reducer_input = shard_from at_end reducer_input []

module _ {V : Type 0} where
  -- `map_key_task_reducer_splitter::apply`: the calls of `reduce` for a task, each with its key and the
  -- values of that key.
  unfoldable pub apply : List (ℕ × V) → Task → List (ℕ × List V)
  unfolding equal_range
  apply reducer_input t = map (λ k. (k, equal_range k reducer_input)) t.work_key_set
