-- ===== src/Pipeline/Work.antt =====
-- How many steps the workers of include/pipeline.h have left.
use google_concurrency_libra.Base.{
  ℕ, ◌+◌, ◌≡◌, refl, List, [], ◌∷◌, arith, ap, ◌≢◌, sum_map, sum_map-append,
}
use google_concurrency_libra.Pipeline.{
  Worker, Place, looping, calling, closing, done, Local, pops, finds_closed, Step, works, pushes,
  closes, consumes, ends, further, calls, takes, gives_up, sees_closed, each,
}
use google_concurrency_libra.Pipeline.Flow.{AllEach}

-- The steps that a place has before it, without elements.
unfoldable pub left_at : Place → ℕ
left_at looping = 2
left_at calling = 2
left_at closing = 1
left_at done = 0

module _ {A : Type 0} where
  -- The steps for one element in the queue of the first of workers with these functions: one to take it,
  -- and for each element that it gives one to push it and those of the workers behind.
  unfoldable pub cost : List (A → List A) → A → ℕ
  cost [] x = 0
  cost (f ∷ fs) x = 1 + sum_map (λ y. 1 + cost fs y) (f x)

  unfoldable pub funcs : List (Worker A) → List (A → List A)
  funcs [] = []
  funcs (w ∷ ws) = w.func ∷ funcs ws

  unfoldable pub work : List (Worker A) → ℕ
  unfolding left_at
  work [] = 0
  work (w ∷ ws) =
      sum_map (cost (w.func ∷ funcs ws)) w.queue
      + sum_map (λ y. 1 + cost (funcs ws) y) w.pending
      + left_at w.place
      + work ws

  Local-work :
      {w w' : Worker A} (ws : List (Worker A))
      → Local w w'
      → w.kind ≡ each
      → w.place ≢ calling
      → work (w ∷ ws) ≡ 1 + work (w' ∷ ws)
  unfolding work cost
  Local-work ws (pops x rest k p e q) h n = rw (e, q) (omega arith)
  Local-work ws (finds_closed k p e q s) h n = rw p (omega arith)
  Local-work ws (calls k p e s) h n = ground arith
  Local-work ws (takes x rest p q) h n = absurd (n p)
  Local-work ws (gives_up p q s) h n = absurd (n p)
  Local-work ws (sees_closed k p e s) h n = ground arith

  Step-funcs :
      {cap : ℕ} {ws ws' : List (Worker A)} {out out' : List A}
      → Step cap ws out ws' out'
      → funcs ws' ≡ funcs ws
  unfolding funcs
  Step-funcs (works (pops x rest k p e q)) = refl
  Step-funcs (works (finds_closed k p e q s)) = refl
  Step-funcs (works (calls k p e s)) = refl
  Step-funcs (works (takes x rest p q)) = refl
  Step-funcs (works (gives_up p q s)) = refl
  Step-funcs (works (sees_closed k p e s)) = refl
  Step-funcs (pushes y rest e p s c) = refl
  Step-funcs (closes p) = refl
  Step-funcs (consumes y rest e p) = refl
  Step-funcs (ends p) = refl
  Step-funcs (further {w = w} st) = ap (λ fs. w.func ∷ fs) (Step-funcs st)

  pub Step-work :
      {cap : ℕ} {ws ws' : List (Worker A)} {out out' : List A}
      → Step cap ws out ws' out'
      → AllEach ws
      → work ws ≡ 1 + work ws'
  unfolding work AllEach funcs cost
  Step-work (works {ws = ws} l) h = Local-work ws l h.0 h.1
  Step-work (pushes {w = w} {v = v} {ws = ws} y rest e p s c) h =
      rw e (omega (arith, sum_map-append (cost (v.func ∷ funcs ws)) v.queue (y ∷ [])))
  Step-work (closes p) h = rw p (omega arith)
  Step-work (consumes y rest e p) h = rw e (omega arith)
  Step-work (ends p) h = rw p (omega arith)
  Step-work (further {w = w} st) h = rw (Step-funcs st) (omega (arith, Step-work st h.2))
