-- ===== src/MapReduce/Readers.antt =====
-- What the helper threads of include/map_reduce_impl.h hold and write, in any order of their turns.
use google_concurrency_libra.Base.{
  Bool, ℕ, ◌+◌, ◌≡◌, refl, false, List, [], ◌∷◌, ◌++◌, Option, some, none, ◌*◌, arith, length,
  sum_map, sum_map-append,
}
use google_concurrency_libra.MapReduce.{
  Stage, looking, handling, ended, Reader, System, iter_next, reader, Turn, takes, handles, throws,
  ends, Moves, first, further, Step, moves, begins, Run, here, later,
}

module _ {A : Type 0} where
  -- Steps that a stage still takes.
  unfoldable pub left_in : Stage A → ℕ
  left_in (looking none) = 1
  left_in (looking (some v)) = 3
  left_in (handling v none) = 2
  left_in (handling v (some x)) = 4
  left_in ended = 0

  -- The end of the iteration has been seen, or is still to be.
  unfoldable pub Fits : List A → Stage A → Type 0
  Fits q (looking none) = q ≡ []
  Fits q (looking (some v)) = Unit
  Fits q (handling v none) = q ≡ []
  Fits q (handling v (some x)) = Unit
  Fits q ended = q ≡ []

module _ {A B : Type 0} where
  unfoldable pub written : List (Reader A B) → List B
  written [] = []
  written (r ∷ rs) = r.log ++ written rs

  unfoldable pub AllEnded : List (Reader A B) → Type 0
  AllEnded [] = Unit
  AllEnded (r ∷ rs) = (r.stage ≡ ended) × AllEnded rs

  unfoldable pub work : System A B → ℕ
  unfolding left_in
  work s = 2 * length s.queue + (2 * s.unborn + sum_map (λ r. left_in r.stage) s.readers)

  unfoldable pub AllFit : List A → List (Reader A B) → Type 0
  unfolding Fits
  AllFit q [] = Unit
  AllFit q (r ∷ rs) = Fits q r.stage × AllFit q rs

module _ {A B : Type 0} (func : A → List B × Bool) (w : B → ℕ) where
  -- What handling a value adds.
  unfoldable pub gain : A → ℕ
  gain v = sum_map w (func v).0

  unfoldable pub held : Option A → ℕ
  unfolding gain
  held none = 0
  held (some v) = gain v

  unfoldable pub holds : Stage A → ℕ
  unfolding held gain
  holds (looking it) = held it
  holds (handling v it) = gain v + held it
  holds ended = 0

  -- What has been written and what is still to come.
  unfoldable pub weigh : List (Reader A B) → ℕ
  unfolding holds
  weigh [] = 0
  weigh (r ∷ rs) = sum_map w r.log + (holds r.stage + weigh rs)

  unfoldable pub weight : System A B → ℕ
  unfolding weigh gain
  weight s = weigh s.readers + sum_map gain s.queue

  iter_next-gain :
      (q : List A) → held (iter_next q).0 + sum_map gain (iter_next q).1 ≡ sum_map gain q
  unfolding held iter_next
  iter_next-gain [] = refl
  iter_next-gain (x ∷ q) = refl

  -- No value is thrown away where none throws.
  module _ (calm : (v : A) → (func v).1 ≡ false) where
    Turn-weigh :
        {q q' : List A} {r r' : Reader A B}
        → Turn func q r q' r'
        → sum_map w r'.log + holds r'.stage + sum_map gain q'
          ≡ sum_map w r.log + holds r.stage + sum_map gain q
    unfolding holds held gain
    Turn-weigh {q} (takes v e) = rw e (omega (arith, iter_next-gain q))
    Turn-weigh {r = r} (handles v it e c) = rw e (omega (arith, sum_map-append w r.log (func v).0))
    Turn-weigh (throws v it e c) = absurd (ground (arith, calm v))
    Turn-weigh (ends e) = rw e refl

    Moves-weigh :
        {q q' : List A} {rs rs' : List (Reader A B)}
        → Moves func q rs q' rs'
        → weigh rs' + sum_map gain q' ≡ weigh rs + sum_map gain q
    unfolding weigh
    Moves-weigh (first t) = omega (arith, Turn-weigh t)
    Moves-weigh (further m) = omega (arith, Moves-weigh m)

    Step-weight : {s t : System A B} → Step func s t → weight t ≡ weight s
    unfolding weight weigh reader holds
    Step-weight (moves m) = Moves-weigh m
    Step-weight {s} (begins n e) = omega (arith, iter_next-gain s.queue)

    pub Run-weight : {s t : System A B} {n : ℕ} → Run func s n t → weight t ≡ weight s
    Run-weight here = refl
    Run-weight (later r st) = omega (arith, Run-weight r, Step-weight st)
