-- ===== src/Pipeline/Tidy.antt =====
-- What holds between neighbouring workers of include/pipeline.h at every moment.
use google_concurrency_libra.Base.{◌≡◌, List, [], ◌∷◌, true, arith, ℕ, refl, ◌⊎◌}
use google_concurrency_libra.Pipeline.{
  Worker, closing, done, Local, pops, finds_closed, calls, takes, gives_up, sees_closed, Step,
  works, pushes, closes, consumes, ends, further, each,
}
use google_concurrency_libra.Pipeline.Flow.{AllEach}

module _ {A : Type 0} where
  -- A worker that has left its loop has nothing left, and its queue is closed.
  abbrev pub Settled : Worker A → Type 0
  Settled w =
      (w.place ≡ closing) ⊎ (w.place ≡ done) → (w.pending ≡ []) × (w.queue ≡ []) × (w.shut ≡ true)

  -- The queue of the next worker is closed exactly when this one is done.
  unfoldable pub Joins : Worker A → List (Worker A) → Type 0
  Joins w [] = Unit
  Joins w (v ∷ vs) = (v.shut ≡ true → w.place ≡ done) × (w.place ≡ done → v.shut ≡ true)

  unfoldable pub Tidy : List (Worker A) → Type 0
  unfolding Joins
  Tidy [] = Unit
  Tidy (w ∷ ws) = Settled w × Joins w ws × Tidy ws

  Local-Settled : {w w' : Worker A} → Local w w' → w.kind ≡ each → Settled w → Settled w'
  Local-Settled (pops x rest k p e q) h s = ground arith
  Local-Settled (finds_closed k p e q c) h s = ground arith
  Local-Settled (calls k p e c) h s = ground arith
  Local-Settled (takes x rest p q) h s = ground arith
  Local-Settled (gives_up p q c) h s = ground arith
  Local-Settled (sees_closed k p e c) h s = ground arith

  Local-Joins : {w w' : Worker A} (ws : List (Worker A)) → Local w w' → Joins w ws → Joins w' ws
  unfolding Joins
  Local-Joins [] l j = tt
  Local-Joins (v ∷ vs) (pops x rest k p e q) j = j
  Local-Joins (v ∷ vs) (finds_closed k p e q c) j = ground arith
  Local-Joins (v ∷ vs) (calls k p e c) j = ground arith
  Local-Joins (v ∷ vs) (takes x rest p q) j = ground arith
  Local-Joins (v ∷ vs) (gives_up p q c) j = ground arith
  Local-Joins (v ∷ vs) (sees_closed k p e c) j = ground arith

  pub Local-shut : {w w' : Worker A} → Local w w' → w'.shut ≡ w.shut
  Local-shut (pops x rest k p e q) = refl
  Local-shut (finds_closed k p e q c) = refl
  Local-shut (calls k p e c) = refl
  Local-shut (takes x rest p q) = refl
  Local-shut (gives_up p q c) = refl
  Local-shut (sees_closed k p e c) = refl

  -- No step closes the first queue.
  Step-Joins :
      {cap : ℕ} {ws ws' : List (Worker A)} {out out' : List A} (u : Worker A)
      → Step cap ws out ws' out'
      → Joins u ws
      → Joins u ws'
  unfolding Joins
  Step-Joins u (works l) j = ground (arith, Local-shut l)
  Step-Joins u (pushes y rest e p s c) j = j
  Step-Joins u (closes p) j = j
  Step-Joins u (consumes y rest e p) j = j
  Step-Joins u (ends p) j = j
  Step-Joins u (further st) j = j

  pub Step-Tidy :
      {cap : ℕ} {ws ws' : List (Worker A)} {out out' : List A}
      → Step cap ws out ws' out'
      → AllEach ws
      → Tidy ws
      → Tidy ws'
  unfolding Tidy Joins AllEach
  Step-Tidy (works {ws = ws} l) h (s, j, t) = (Local-Settled l h.0 s, Local-Joins ws l j, t)
  Step-Tidy (pushes y rest e p s c) h (sw, j, (sv, k, t)) =
      (ground arith, ground arith, (ground arith, k, t))
  Step-Tidy (closes p) h (sw, j, (sv, k, t)) = (ground arith, ground arith, (ground arith, k, t))
  Step-Tidy (consumes y rest e p) h (s, j, t) = (ground arith, tt, tt)
  Step-Tidy (ends p) h (s, j, t) = (ground arith, tt, tt)
  Step-Tidy (further {w = w} st) h (s, j, t) = (s, Step-Joins w st j, Step-Tidy st h.2 t)
