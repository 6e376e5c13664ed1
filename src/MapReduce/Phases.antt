-- ===== src/MapReduce/Phases.antt =====
-- The two phases of `run` of include/map_reduce.h: what the mappers write, and the calls of `reduce`.
use google_concurrency_libra.Base.{
  Bool, ℕ, ◌+◌, ◌*◌, ◌<◌, ◌≡◌, refl, false, ◌==◌, List, [], ◌∷◌, ◌⊎◌, inl, inr, if◌then◌else◌,
  arith, suc, zero, sum_map, sum_map-append, ap, length, some, Option,
}
use google_concurrency_libra.MapReduce.{Reader, System, reader, readers_at, mappers, Step, Run}
use google_concurrency_libra.MapReduce.Readers.{
  written, AllEnded, work, Fits, AllFit, gain, held, holds, weigh, weight,
}
use google_concurrency_libra.MapReduce.Ended.{run_ends}
use google_concurrency_libra.MapReduce.Shuffle.{Task, work_shards, apply, shuffle}

-- `mapper_outputs_`: what each mapper has written.
unfoldable pub outputs : {A B : Type 0} → List (Reader A B) → List (List B)
outputs [] = []
outputs (r ∷ rs) = r.log ∷ outputs rs

length-readers_at :
    {A : Type 0} (B : Type 0) (n : ℕ) (it : Option A) → length (readers_at {B = B} n it) ≡ n
unfolding readers_at
length-readers_at B zero it = refl
length-readers_at B (suc n) it = ap suc (length-readers_at B n it)

readers_at-AllFit :
    {A : Type 0} (B : Type 0) (n : ℕ) (x : A) (q : List A)
    → AllFit q (readers_at {B = B} n (some x))
unfolding readers_at reader AllFit Fits
readers_at-AllFit B zero x q = tt
readers_at-AllFit B (suc n) x q = (tt, readers_at-AllFit B n x q)

module _ {A B : Type 0} where
  outputs-sum :
      (w : B → ℕ) (rs : List (Reader A B))
      → sum_map (sum_map w) (outputs rs) ≡ sum_map w (written rs)
  unfolding outputs written
  outputs-sum w [] = refl
  outputs-sum w (r ∷ rs) = omega (arith, outputs-sum w rs, sum_map-append w r.log (written rs))

  readers_at-weigh :
      (func : A → List B × Bool) (w : B → ℕ) (n : ℕ) (x : A)
      → weigh func w (readers_at n (some x)) ≡ n * sum_map w (func x).0
  unfolding readers_at reader weigh holds held gain
  readers_at-weigh func w zero x = omega arith
  readers_at-weigh func w (suc n) x = grind (arith, readers_at-weigh func w n x)

-- Where no value throws, the mappers take at most as many steps as their work, and one can go on unless
-- all have ended; then they have written what mapping gives for the first value of the input as often as
-- there are mappers, and for every other value once.
pub map_phase :
    {A B : Type 0} (func : A → List B × Bool)
    → ((v : A) → (func v).1 ≡ false)
    → (num_mappers : ℕ) (x : A) (xs : List A) {t : System A B} {n : ℕ} → 0 < num_mappers
    → Run func (mappers num_mappers (x ∷ xs)) n t
    → (n + work t ≡ work {B = B} (mappers num_mappers (x ∷ xs)))
      × (((u : System A B) × Step func t u)
          ⊎ (AllEnded t.readers
              × ((w : B → ℕ)
                  → sum_map (sum_map w) (outputs t.readers)
                    ≡ num_mappers * sum_map w (func x).0 + sum_map (λ v. sum_map w (func v).0) xs)))
unfolding mappers weight gain
map_phase {B = B} func calm m x xs {t} h r =
    let (counts, goes_on) =
      run_ends func calm (omega (arith, length-readers_at B m (some x)))
        (readers_at-AllFit B m x xs) r in
    (
      counts,
      elim goes_on [
        | inl more ↦ inl more
        | inr (_, es, all) ↦
            inr
              (es, λ w. omega (arith, all w, outputs-sum w t.readers, readers_at-weigh func w m x))
      ],
    )

module _ {V : Type 0} where
  -- The calls of `reduce` with one key.
  abbrev pub only_key : ℕ → (ℕ × List V → ℕ) → ℕ × List V → ℕ
  only_key k w c = if c.0 == k then w c else 0

module _ {V : Type 0} where
  -- `reducer_input_`
  unfoldable pub reducer_input : List (List (ℕ × V)) → List (ℕ × V)
  unfolding shuffle
  reducer_input logs = shuffle logs []

  -- The tasks that the reducers take from their queue.
  unfoldable pub reduce_tasks : (ℕ → ℕ) → ℕ → List (List (ℕ × V)) → List Task
  unfolding work_shards reducer_input
  reduce_tasks shard_fn at_end logs = work_shards shard_fn at_end (reducer_input logs)

  -- `reducer_fn` for each key of a task.
  unfoldable pub reduce_task : List (List (ℕ × V)) → Task → List (ℕ × List V) × Bool
  unfolding apply reducer_input
  reduce_task logs t = (apply (reducer_input logs) t, false)
