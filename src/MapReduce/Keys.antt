-- ===== src/MapReduce/Keys.antt =====
-- Each key of the pairs of include/map_reduce.h comes into one task, once.
use google_concurrency_libra.Base.{
  Bool, ℕ, ◌+◌, ◌<◌, ◌≤◌, ◌≡◌, ◌≢◌, refl, true, false, ◌==◌, ◌&&◌, List, [], ◌∷◌, if◌then◌else◌,
  arith, ltb, sum_map, subst, ℕ_discrete,
}
use google_concurrency_libra.Base.Sets.{insert}
use google_concurrency_libra.MapReduce.Shuffle.{shuffle, Task, add_key, shard_from, work_shards}
use google_concurrency_libra.MapReduce.Sharding.{
  Below, AllBelow, AllBelow-up, IsOrdered, shuffle-sum, shuffle-IsOrdered,
}

insert-Below : (k : ℕ) (ks : List ℕ) → Below k ks → Below k (insert k ks)
unfolding insert Below
insert-Below k [] l = (omega arith, tt)
insert-Below k (j ∷ ks) (l, ls) = let rest = insert-Below k ks ls in ground (arith, rest)

add_key-AllBelow : (shard k : ℕ) (ts : List Task) → AllBelow k ts → AllBelow k (add_key shard k ts)
unfolding add_key AllBelow
add_key-AllBelow shard k [] l = (insert-Below k [] tt, tt)
add_key-AllBelow shard k (t ∷ ts) (l, ls) =
    let rest = add_key-AllBelow shard k ts ls in
    ground (arith, rest, insert-Below k [] tt, insert-Below k t.work_key_set l)

-- Whether a pair has the key, and whether the first one has.
unfoldable pub occurs : {V : Type 0} → ℕ → List (ℕ × V) → Bool
occurs k [] = false
occurs k (p ∷ m) = if k == p.0 then true else occurs k m

unfoldable pub leads : {V : Type 0} → ℕ → List (ℕ × V) → Bool
leads k [] = false
leads k (p ∷ m) = k == p.0

module _ {V : Type 0} where
  occurs_below : (k n : ℕ) (m : List (ℕ × V)) → IsOrdered n m → k < n → occurs k m ≡ false
  unfolding occurs IsOrdered
  occurs_below k n [] o h = refl
  occurs_below k n (p ∷ m) (l, o) h =
      let rest : occurs k m ≡ false = occurs_below k p.0 m o (omega arith) in ground arith

-- Whether a mapper wrote a pair with the key.
unfoldable pub wrote : {V : Type 0} → ℕ → List (List (ℕ × V)) → Bool
wrote k [] = false
wrote k (log ∷ logs) = if occurs k log then true else wrote k logs

-- Whether no pair has a smaller key.
unfoldable pub none_less : {V : Type 0} → ℕ → List (ℕ × V) → Bool
none_less k [] = true
none_less k (p ∷ m) = if ltb p.0 k then false else none_less k m

unfoldable pub none_less_in : {V : Type 0} → ℕ → List (List (ℕ × V)) → Bool
none_less_in k [] = true
none_less_in k (log ∷ logs) = none_less k log && none_less_in k logs

-- Whether the key is the least one that the mappers wrote.
abbrev pub least : {V : Type 0} → ℕ → List (List (ℕ × V)) → Bool
least k logs = wrote k logs && none_less_in k logs

module _ {V : Type 0} (k : ℕ) where
  abbrev has : ℕ × V → ℕ
  has p = if k == p.0 then 1 else 0

  abbrev lesser : ℕ × V → ℕ
  lesser p = if ltb p.0 k then 1 else 0

  occurs_sum : (m : List (ℕ × V)) → occurs k m ≡ ltb 0 (sum_map has m)
  unfolding occurs
  occurs_sum [] = refl
  occurs_sum (p ∷ m) = let rest = occurs_sum m in ground (arith, rest)

  wrote_sum : (logs : List (List (ℕ × V))) → wrote k logs ≡ ltb 0 (sum_map (sum_map has) logs)
  unfolding wrote
  wrote_sum [] = refl
  wrote_sum (log ∷ logs) = let rest = wrote_sum logs in ground (arith, rest, occurs_sum log)

  none_less_sum : (m : List (ℕ × V)) → none_less k m ≡ (sum_map lesser m == 0)
  unfolding none_less
  none_less_sum [] = refl
  none_less_sum (p ∷ m) = let rest = none_less_sum m in ground (arith, rest)

  none_less_in_sum :
      (logs : List (List (ℕ × V))) → none_less_in k logs ≡ (sum_map (sum_map lesser) logs == 0)
  unfolding none_less_in
  none_less_in_sum [] = refl
  none_less_in_sum (log ∷ logs) =
      let rest = none_less_in_sum logs in ground (arith, rest, none_less_sum log)

  -- The pairs of a reducer have the keys that the mappers wrote.
  pub occurs-shuffle : (logs : List (List (ℕ × V))) → occurs k (shuffle logs []) ≡ wrote k logs
  occurs-shuffle logs =
      ground (arith, occurs_sum (shuffle logs []), wrote_sum logs, shuffle-sum has logs [])

  none_less-shuffle :
      (logs : List (List (ℕ × V))) → none_less k (shuffle logs []) ≡ none_less_in k logs
  none_less-shuffle logs =
      ground
        (arith, none_less_sum (shuffle logs []), none_less_in_sum logs, shuffle-sum lesser logs [])

  IsOrdered-none_less : (n : ℕ) (m : List (ℕ × V)) → IsOrdered n m → k ≤ n → none_less k m ≡ true
  unfolding none_less IsOrdered
  IsOrdered-none_less n [] o h = refl
  IsOrdered-none_less n (p ∷ m) (l, o) h =
      let rest : none_less k m ≡ true = IsOrdered-none_less p.0 m o (omega arith) in ground arith

  leads_lem : (m : List (ℕ × V)) → IsOrdered 0 m → leads k m ≡ (occurs k m && none_less k m)
  unfolding leads occurs none_less IsOrdered
  leads_lem [] o = refl
  leads_lem (p ∷ m) (l, o) = elim (ℕ_discrete k p.0) [
    | yes e ↦ ground (arith, IsOrdered-none_less p.0 m o (omega arith))
    | no ne ↦ ground (arith, occurs_below k p.0 m o)
  ]

  pub leads-shuffle : (logs : List (List (ℕ × V))) → leads k (shuffle logs []) ≡ least k logs
  unfolding IsOrdered
  leads-shuffle logs = ground (
    arith,
    leads_lem (shuffle logs []) (shuffle-IsOrdered logs [] tt),
    occurs-shuffle logs,
    none_less-shuffle logs,
  )

-- What the keys of tasks add up to.
module _ (u : ℕ → ℕ) where
  unfoldable pub key_sum : List Task → ℕ
  key_sum [] = 0
  key_sum (t ∷ ts) = sum_map u t.work_key_set + key_sum ts

  insert-sum :
      (b k : ℕ) (ks : List ℕ) → Below b ks → b < k → sum_map u (insert k ks) ≡ u k + sum_map u ks
  unfolding insert Below
  insert-sum b k [] l h = refl
  insert-sum b k (j ∷ ks) (l, ls) h =
      let rest : sum_map u (insert k ks) ≡ u k + sum_map u ks = insert-sum b k ks ls h in
      ground arith

  add_key-sum :
      (b shard k : ℕ) (ts : List Task)
      → AllBelow b ts
      → b < k
      → key_sum (add_key shard k ts) ≡ u k + key_sum ts
  unfolding add_key AllBelow key_sum
  add_key-sum b shard k [] l h = omega (arith, insert-sum b k [] tt h)
  add_key-sum b shard k (t ∷ ts) (l, ls) h =
      let rest : key_sum (add_key shard k ts) ≡ u k + key_sum ts = add_key-sum b shard k ts ls h in
      ground (arith, insert-sum b k [] tt h, insert-sum b k t.work_key_set l h)

  module _ {V : Type 0} (shard_fn : ℕ → ℕ) (k : ℕ) (only : (j : ℕ) → j ≢ k → u j ≡ 0) where
    -- The rounds from a key `prev` that is in a task.
    shard_from-sum :
        (prev : ℕ) (m : List (ℕ × V)) (ts : List Task)
        → AllBelow prev ts
        → IsOrdered prev m
        → key_sum (shard_from shard_fn prev m ts)
          ≡ key_sum ts + (if k == prev then 0 else (if occurs k m then u k else 0))
    unfolding shard_from occurs IsOrdered
    shard_from-sum prev [] ts l o = ground arith
    shard_from-sum prev (p ∷ m) ts l (h, o) = elim (ℕ_discrete p.0 prev) [
      | yes e ↦
          let rest = shard_from-sum prev m ts l (subst (λ n. IsOrdered n m) e o) in
          ground (arith, rest)
      | no ne ↦
          let ts' : List Task = add_key (shard_fn p.0) p.0 ts in
          let rest =
            shard_from-sum p.0 m ts'
              (add_key-AllBelow (shard_fn p.0) p.0 ts (AllBelow-up prev p.0 ts h l)) o in
          let added = add_key-sum prev (shard_fn p.0) p.0 ts l (omega arith) in
          ground (arith, rest, added, occurs_below k p.0 m o, only p.0)
    ]

    -- A key that the first pair has is passed over if `end()` seems to have it.
    pub work_shards-sum :
        (at_end : ℕ) (m : List (ℕ × V))
        → IsOrdered 0 m
        → key_sum (work_shards shard_fn at_end m)
          ≡ (if (k == at_end) && leads k m then 0 else (if occurs k m then u k else 0))
    unfolding work_shards shard_from leads occurs IsOrdered key_sum add_key insert AllBelow
    work_shards-sum at_end [] o = ground arith
    work_shards-sum at_end (p ∷ m) (h, o) = elim (ℕ_discrete p.0 at_end) [
      | yes e ↦
          let rest = shard_from-sum at_end m [] tt (subst (λ n. IsOrdered n m) e o) in
          ground (arith, rest)
      | no ne ↦
          let ts' : List Task = add_key (shard_fn p.0) p.0 [] in
          let rest = shard_from-sum p.0 m ts' (add_key-AllBelow (shard_fn p.0) p.0 [] tt) o in
          ground (arith, rest, only p.0)
    ]
