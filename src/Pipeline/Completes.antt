-- ===== src/Pipeline/Completes.antt =====
-- Every run of a pipeline of include/pipeline.h comes to its end, and there everything has come through.
use google_concurrency_libra.Base.{
  ℕ, ◌+◌, ◌<◌, ◌≡◌, refl, List, [], ◌∷◌, ◌++◌, arith, ◌⊎◌, ◌∙◌, true, sym, ap, inl, inr, append-nil,
}
use google_concurrency_libra.Pipeline.{
  Worker, each, looping, Step, Run, here, later, worker, works, pushes, closes, consumes, ends,
  further,
}
use google_concurrency_libra.Pipeline.Flow.{AllEach, flow, Step-flow, Step-AllEach, concat_map}
use google_concurrency_libra.Pipeline.Tidy.{Tidy, Joins, Step-Tidy, Local-shut}
use google_concurrency_libra.Pipeline.Work.{work, Step-work}
use google_concurrency_libra.Pipeline.Progress.{AllDone, CanStep, Waits, verdict}

module _ {A : Type 0} where
  Run-AllEach :
      {cap : ℕ} {ws : List (Worker A)} {out : List A} {n : ℕ} {vs : List (Worker A)} {end : List A}
      → AllEach ws
      → Run cap ws out n vs end
      → AllEach vs
  Run-AllEach h here = h
  Run-AllEach h (later r st) = Step-AllEach st (Run-AllEach h r)

  Run-Tidy :
      {cap : ℕ} {ws : List (Worker A)} {out : List A} {n : ℕ} {vs : List (Worker A)} {end : List A}
      → AllEach ws
      → Tidy ws
      → Run cap ws out n vs end
      → Tidy vs
  Run-Tidy h t here = t
  Run-Tidy h t (later r st) = Step-Tidy st (Run-AllEach h r) (Run-Tidy h t r)

  Run-work :
      {cap : ℕ} {ws : List (Worker A)} {out : List A} {n : ℕ} {vs : List (Worker A)} {end : List A}
      → AllEach ws
      → Run cap ws out n vs end
      → n + work vs ≡ work ws
  Run-work h here = omega arith
  Run-work h (later r st) = omega (arith, Run-work h r, Step-work st (Run-AllEach h r))

  Run-flow :
      {cap : ℕ} {ws : List (Worker A)} {out : List A} {n : ℕ} {vs : List (Worker A)} {end : List A}
      → AllEach ws
      → Run cap ws out n vs end
      → end ++ flow vs [] ≡ out ++ flow ws []
  Run-flow h here = refl
  Run-flow h (later r st) = Step-flow [] st (Run-AllEach h r) ∙ Run-flow h r

  -- The queue of the first worker is closed, and no step opens it.
  unfoldable pub Headed : List (Worker A) → Type 0
  Headed [] = Unit
  Headed (w ∷ ws) = w.shut ≡ true

  Step-Headed :
      {cap : ℕ} {ws ws' : List (Worker A)} {out out' : List A}
      → Step cap ws out ws' out'
      → Headed ws
      → Headed ws'
  unfolding Headed
  Step-Headed (works l) h = Local-shut l ∙ h
  Step-Headed (pushes y rest e p s c) h = h
  Step-Headed (closes p) h = h
  Step-Headed (consumes y rest e p) h = h
  Step-Headed (ends p) h = h
  Step-Headed (further st) h = h

  Run-Headed :
      {cap : ℕ} {ws : List (Worker A)} {out : List A} {n : ℕ} {vs : List (Worker A)} {end : List A}
      → Headed ws
      → Run cap ws out n vs end
      → Headed vs
  Run-Headed h here = h
  Run-Headed h (later r st) = Step-Headed st (Run-Headed h r)

  AllDone-flow : (ws : List (Worker A)) → Tidy ws → AllDone ws → flow ws [] ≡ []
  unfolding flow AllDone Tidy Joins concat_map
  AllDone-flow [] t d = refl
  AllDone-flow (w ∷ ws) (s, j, t) (e, d) =
      let (pending, queue, shut) = s (inr e) in rw (pending, queue) (AllDone-flow ws t d)

  -- Middle workers and a consumer that have not started.
  unfoldable pub fresh : List (A → List A) → List (Worker A)
  unfolding worker
  fresh [] = []
  fresh (f ∷ fs) = worker each f ∷ fresh fs

  -- What a plan computes: each function on everything that the one before it gives.
  unfoldable pub meaning : List (A → List A) → List A → List A
  meaning [] xs = xs
  meaning (f ∷ fs) xs = meaning fs (concat_map f xs)

  fresh-AllEach : (fs : List (A → List A)) → AllEach (fresh fs)
  unfolding fresh AllEach
  fresh-AllEach [] = tt
  fresh-AllEach (f ∷ fs) = (refl, ground arith, fresh-AllEach fs)

  fresh-Tidy :
      (fs : List (A → List A)) (w : Worker A)
      → w.place ≡ looping
      → Tidy (fresh fs) × Joins w (fresh fs)
  unfolding fresh Tidy Joins worker
  fresh-Tidy [] w p = (tt, tt)
  fresh-Tidy (f ∷ fs) w p =
      let (t, j) = fresh-Tidy fs (worker each f) refl in
      ((ground arith, j, t), (ground arith, ground arith))

  flow-fresh : (fs : List (A → List A)) (xs : List A) → flow (fresh fs) xs ≡ meaning fs xs
  unfolding flow fresh meaning worker
  flow-fresh [] xs = refl
  flow-fresh (f ∷ fs) xs = flow-fresh fs (concat_map f xs)

-- A worker at its loop on a closed queue, and workers with these functions behind it.
module _ {A : Type 0} (w : Worker A) (kind : w.kind ≡ each) (place : w.place ≡ looping)
    (shut : w.shut ≡ true) (fs : List (A → List A)) where
  Headed-plan : Headed (w ∷ fresh fs)
  unfolding Headed
  Headed-plan = shut

  plan-AllEach : AllEach (w ∷ fresh fs)
  unfolding AllEach
  plan-AllEach = (kind, ground arith, fresh-AllEach fs)

  plan-Tidy : Tidy (w ∷ fresh fs)
  unfolding Tidy
  plan-Tidy = (ground arith, (fresh-Tidy fs w place).1, (fresh-Tidy fs w place).0)

  -- All that is to come through.
  unfoldable pub whole : List A
  whole = meaning fs (w.pending ++ concat_map w.func (w.queue ++ []))

  flow-plan : flow (w ∷ fresh fs) [] ≡ whole
  unfolding flow whole
  flow-plan = flow-fresh fs (w.pending ++ concat_map w.func (w.queue ++ []))

  headed : (ws : List (Worker A)) → Headed ws → Waits ws → ⊥
  unfolding Headed
  headed [] h w = w
  headed (v ∷ vs) h w = cc (w.1)

  ended :
      {cap : ℕ} {ws : List (Worker A)} {out : List A}
      → Headed ws
      → Tidy ws
      → out ++ flow ws [] ≡ whole
      → CanStep cap ws out ⊎ (AllDone ws ⊎ Waits ws)
      → CanStep cap ws out ⊎ (AllDone ws × (out ≡ whole))
  ended h t e (inl c) = inl c
  ended {ws = ws} {out = out} h t e (inr (inl d)) =
      inr (d, sym (append-nil out) ∙ (ap (λ l. out ++ l) (sym (AllDone-flow ws t d)) ∙ e))
  ended {ws = ws} h t e (inr (inr w)) = absurd (headed ws h w)

  -- Each step takes one from `work`, what is given out is always a first part of what is to come through,
  -- and a worker can take a step unless all are done and everything has come through.
  pub run_completes :
      {cap n : ℕ} {ws : List (Worker A)} {out : List A}
      → 0 < cap
      → Run cap (w ∷ fresh fs) [] n ws out
      → (n + work ws ≡ work (w ∷ fresh fs))
        × (out ++ flow ws [] ≡ whole)
        × (CanStep cap ws out ⊎ (AllDone ws × (out ≡ whole)))
  unfolding Headed
  run_completes {cap} {n} {ws} {out} c r =
      let t : Tidy ws = Run-Tidy plan-AllEach plan-Tidy r in
      let e : out ++ flow ws [] ≡ whole = Run-flow plan-AllEach r ∙ flow-plan in
      (
        Run-work plan-AllEach r,
        e,
        ended (Run-Headed Headed-plan r) t e (verdict cap c out ws (Run-AllEach plan-AllEach r) t),
      )
