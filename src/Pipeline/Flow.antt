-- ===== src/Pipeline/Flow.antt =====
-- What the workers of include/pipeline.h will have given out in the end, from where their elements are
-- now. No step of workers that loop until `wait_pop` fails changes it.
use google_concurrency_libra.Base.{◌≡◌, refl, List, [], ◌∷◌, ◌++◌, append_assoc, ap, ℕ, ◌≢◌, arith}
use google_concurrency_libra.Pipeline.{
  each, calling, Worker, Local, pops, finds_closed, calls, takes, gives_up, sees_closed, Step,
  works, pushes, closes, consumes, ends, further,
}

module _ {A : Type 0} where
  unfoldable pub concat_map : (A → List A) → List A → List A
  concat_map f [] = []
  concat_map f (x ∷ xs) = f x ++ concat_map f xs

  -- Everything that reaches the end, behind what comes into the first queue.
  unfoldable pub flow : List (Worker A) → List A → List A
  flow [] incoming = incoming
  flow (w ∷ ws) incoming = flow ws (w.pending ++ concat_map w.func (w.queue ++ incoming))

  -- All workers loop until `wait_pop` fails.
  unfoldable pub AllEach : List (Worker A) → Type 0
  AllEach [] = Unit
  AllEach (w ∷ ws) = (w.kind ≡ each) × (w.place ≢ calling) × AllEach ws

  pub concat_map-append :
      (f : A → List A) (xs ys : List A)
      → concat_map f (xs ++ ys) ≡ concat_map f xs ++ concat_map f ys
  unfolding concat_map
  concat_map-append f [] ys = refl
  concat_map-append f (x ∷ xs) ys = simp (concat_map-append f xs ys, append_assoc)

  Local-flow :
      {w w' : Worker A} (ws : List (Worker A)) (incoming : List A)
      → Local w w'
      → w.kind ≡ each
      → w.place ≢ calling
      → flow (w' ∷ ws) incoming ≡ flow (w ∷ ws) incoming
  unfolding flow concat_map
  Local-flow ws inc (pops x rest k p e q) h n = rw (e, q) refl
  Local-flow ws inc (finds_closed k p e q s) h n = refl
  Local-flow ws inc (calls k p e s) h n = refl
  Local-flow ws inc (takes x rest p q) h n = absurd (n p)
  Local-flow ws inc (gives_up p q s) h n = absurd (n p)
  Local-flow ws inc (sees_closed k p e s) h n = refl

  pub Step-flow :
      {cap : ℕ} {ws ws' : List (Worker A)} {out out' : List A} (incoming : List A)
      → Step cap ws out ws' out'
      → AllEach ws
      → out' ++ flow ws' incoming ≡ out ++ flow ws incoming
  unfolding flow AllEach
  Step-flow inc (works {ws = ws} {out = out} l) h = ap (λ r. out ++ r) (Local-flow ws inc l h.0 h.1)
  Step-flow inc (pushes y rest e p s c) h = rw (e, append_assoc) refl
  Step-flow inc (closes p) h = refl
  Step-flow inc (consumes y rest e p) h = rw (e, append_assoc) refl
  Step-flow inc (ends p) h = refl
  Step-flow inc (further st) h = Step-flow _ st h.2

  Local-each : {w w' : Worker A} → Local w w' → w.kind ≡ each → w'.kind ≡ each
  Local-each (pops x rest k p e q) h = h
  Local-each (finds_closed k p e q s) h = h
  Local-each (calls k p e s) h = h
  Local-each (takes x rest p q) h = h
  Local-each (gives_up p q s) h = h
  Local-each (sees_closed k p e s) h = h

  Local-looping :
      {w w' : Worker A} → Local w w' → w.kind ≡ each → w.place ≢ calling → w'.place ≢ calling
  Local-looping (pops x rest k p e q) h n = n
  Local-looping (finds_closed k p e q s) h n = ground arith
  Local-looping (calls k p e s) h n = ground arith
  Local-looping (takes x rest p q) h n = ground arith
  Local-looping (gives_up p q s) h n = ground arith
  Local-looping (sees_closed k p e s) h n = ground arith

  pub Step-AllEach :
      {cap : ℕ} {ws ws' : List (Worker A)} {out out' : List A}
      → Step cap ws out ws' out'
      → AllEach ws
      → AllEach ws'
  unfolding AllEach
  Step-AllEach (works l) h = (Local-each l h.0, Local-looping l h.0 h.1, h.2)
  Step-AllEach (pushes y rest e p s c) h = h
  Step-AllEach (closes p) h = (h.0, ground arith, h.2)
  Step-AllEach (consumes y rest e p) h = h
  Step-AllEach (ends p) h = (h.0, ground arith, h.2)
  Step-AllEach (further st) h = (h.0, h.1, Step-AllEach st h.2)
