-- ===== src/MapReduce/Sharding.antt =====
-- How the loop of include/map_reduce.h over the pairs distributes their keys.
use google_concurrency_libra.Base.{ℕ, ◌+◌, ◌≤◌, ◌≡◌, refl, List, [], ◌∷◌, arith, sum_map}
use google_concurrency_libra.MapReduce.Shuffle.{insert_pair, insert_range, shuffle, Task}

-- All keys are at most `b`.
unfoldable pub Below : ℕ → List ℕ → Type 0
Below b [] = Unit
Below b (k ∷ ks) = (k ≤ b) × Below b ks

unfoldable pub AllBelow : ℕ → List Task → Type 0
unfolding Below
AllBelow b [] = Unit
AllBelow b (t ∷ ts) = Below b t.work_key_set × AllBelow b ts

Below-up : (a b : ℕ) (ks : List ℕ) → a ≤ b → Below a ks → Below b ks
unfolding Below
Below-up a b [] h l = tt
Below-up a b (k ∷ ks) h (l, ls) = (omega arith, Below-up a b ks h ls)

pub AllBelow-up : (a b : ℕ) (ts : List Task) → a ≤ b → AllBelow a ts → AllBelow b ts
unfolding AllBelow
AllBelow-up a b [] h l = tt
AllBelow-up a b (t ∷ ts) h (l, ls) = (Below-up a b t.work_key_set h l, AllBelow-up a b ts h ls)

-- The pairs are in the order of their keys, the first of which is at least `n`.
module _ {V : Type 0} where
  unfoldable pub IsOrdered : ℕ → List (ℕ × V) → Type 0
  IsOrdered n [] = Unit
  IsOrdered n (p ∷ m) = (n ≤ p.0) × IsOrdered p.0 m

  insert_pair-IsOrdered :
      (n : ℕ) (p : ℕ × V) (m : List (ℕ × V))
      → n ≤ p.0
      → IsOrdered n m
      → IsOrdered n (insert_pair p m)
  unfolding insert_pair IsOrdered
  insert_pair-IsOrdered n p [] h o = (h, tt)
  insert_pair-IsOrdered n p (r ∷ m) h (l, o) =
      let rest : (r.0 ≤ p.0 → IsOrdered r.0 (insert_pair p m)) =
        (λ k. insert_pair-IsOrdered r.0 p m k o) in
      ground (arith, rest)

  pub insert_range-IsOrdered :
      (ps m : List (ℕ × V)) → IsOrdered 0 m → IsOrdered 0 (insert_range ps m)
  unfolding insert_range
  insert_range-IsOrdered [] m o = o
  insert_range-IsOrdered (p ∷ ps) m o =
      insert_range-IsOrdered ps (insert_pair p m) (insert_pair-IsOrdered 0 p m (omega arith) o)

  pub shuffle-IsOrdered :
      (logs : List (List (ℕ × V))) (m : List (ℕ × V)) → IsOrdered 0 m → IsOrdered 0 (shuffle logs m)
  unfolding shuffle
  shuffle-IsOrdered [] m o = o
  shuffle-IsOrdered (log ∷ logs) m o =
      shuffle-IsOrdered logs (insert_range (insert_range log []) m)
        (insert_range-IsOrdered (insert_range log []) m o)

  -- No pair is lost, and none comes twice.
  module _ (w : ℕ × V → ℕ) where
    insert_pair-sum :
        (p : ℕ × V) (m : List (ℕ × V)) → sum_map w (insert_pair p m) ≡ w p + sum_map w m
    unfolding insert_pair
    insert_pair-sum p [] = refl
    insert_pair-sum p (r ∷ m) =
        let rest : sum_map w (insert_pair p m) ≡ w p + sum_map w m = insert_pair-sum p m in
        ground arith

    insert_range-sum :
        (ps m : List (ℕ × V)) → sum_map w (insert_range ps m) ≡ sum_map w ps + sum_map w m
    unfolding insert_range
    insert_range-sum [] m = omega arith
    insert_range-sum (p ∷ ps) m =
        omega (arith, insert_range-sum ps (insert_pair p m), insert_pair-sum p m)

    pub shuffle-sum :
        (logs : List (List (ℕ × V))) (m : List (ℕ × V))
        → sum_map w (shuffle logs m) ≡ sum_map (sum_map w) logs + sum_map w m
    unfolding shuffle
    shuffle-sum [] m = omega arith
    shuffle-sum (log ∷ logs) m = omega (
      arith,
      shuffle-sum logs (insert_range (insert_range log []) m),
      insert_range-sum (insert_range log []) m,
      insert_range-sum log [],
    )
