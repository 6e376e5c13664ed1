-- ===== src/Pipeline/Merged.antt =====
-- Which workers a plan of include/pipeline.h has: merging a queue into the function behind it takes one
-- worker away, and cloning a plan changes nothing.
use google_concurrency_libra.Pipeline.{worker, each, producer, queue_producer}
use google_concurrency_libra.Base.{
  ◌≡◌, refl, false, List, [], ◌∷◌, ◌++◌, ◌&&◌, append-nil, sym, ◌∙◌, Option, none, append_assoc, ap,
  true, some,
}
use google_concurrency_libra.Pipeline.Completes.{fresh}
use google_concurrency_libra.Pipeline.Plan.{
  Segment, producing, from_queue, function, consumer, to_queue, chain, can_merge_on_front,
  can_merge_on_back, new_chain, clone, pipe, run, piped, plan, merge_back, merge_on_front,
}

module _ {A : Type 0} where
  -- No chain in it can still merge its parts.
  unfoldable pub Merged : Segment A → Type 0
  Merged (producing xs) = Unit
  Merged (from_queue xs merged) = Unit
  Merged (function f merged) = Unit
  Merged consumer = Unit
  Merged to_queue = Unit
  Merged (chain first second) =
      ((can_merge_on_back first && can_merge_on_front second) ≡ false)
      × Merged first
      × Merged second

  clone_lem : (s : Segment A) → Merged s → clone s ≡ s
  unfolding clone Merged new_chain
  clone_lem (producing xs) m = refl
  clone_lem (from_queue xs merged) m = refl
  clone_lem (function f merged) m = refl
  clone_lem consumer m = refl
  clone_lem to_queue m = refl
  clone_lem (chain first second) (apart, m, n) =
      rw (clone_lem first m, clone_lem second n, apart) refl

  function-Merged : (f : A → List A) (ft : Option (List A)) → Merged (function f ft)
  unfolding Merged
  function-Merged f ft = tt

  function_back :
      (s : Segment A) (f : A → List A) → can_merge_on_back (chain s (function f none)) ≡ false
  unfolding can_merge_on_back
  function_back s f = refl

  assoc_run :
      (s : Segment A) (f : A → List A) (fs : List (A → List A))
      → run (chain s (function f none)) ++ fresh fs ≡ run s ++ fresh (f ∷ fs)
  unfolding run fresh
  assoc_run s f fs = append_assoc (run s) (worker each f ∷ []) (fresh fs)

  run_behind :
      (s : Segment A) (fs : List (A → List A))
      → run (piped s fs) ≡ run s ++ fresh fs
      → run (chain (piped s fs) consumer) ≡ run s ++ (fresh fs ++ fresh ((λ x. x ∷ []) ∷ []))
  unfolding run fresh
  run_behind s fs e = rw e (append_assoc (run s) (fresh fs) (worker each (λ x. x ∷ []) ∷ []))

  -- A pipe behind a segment that has no queue to give away.
  pipe_lem :
      (s p : Segment A) → Merged s → Merged p → can_merge_on_back s ≡ false → pipe s p ≡ chain s p
  unfolding pipe new_chain
  pipe_lem s p m n b = rw (clone_lem s m, clone_lem p n, b) refl

  chain-Merged :
      (s p : Segment A) → Merged s → Merged p → can_merge_on_back s ≡ false → Merged (chain s p)
  unfolding Merged
  chain-Merged s p m n b = (rw b refl, m, n)

  run-piped :
      (s : Segment A) (fs : List (A → List A))
      → Merged s
      → can_merge_on_back s ≡ false
      → Merged (piped s fs)
        × (can_merge_on_back (piped s fs) ≡ false)
        × (run (piped s fs) ≡ run s ++ fresh fs)
  unfolding piped fresh
  run-piped s [] m b = (m, b, sym (append-nil (run s)))
  run-piped s (f ∷ fs) m b =
      let joined : pipe s (function f none) ≡ chain s (function f none) =
        pipe_lem s (function f none) m (function-Merged f none) b in
      let (k, c, e) =
        run-piped (chain s (function f none)) fs
          (chain-Merged s (function f none) m (function-Merged f none) b) (function_back s f) in
      rw joined (k, c, e ∙ assoc_run s f fs)

  -- The workers of a plan whose source has nothing to give away.
  run-plan :
      (s : Segment A) (fs : List (A → List A))
      → Merged s
      → can_merge_on_back s ≡ false
      → run (plan s fs) ≡ run s ++ (fresh fs ++ fresh ((λ x. x ∷ []) ∷ []))
  unfolding plan fresh Merged
  run-plan s fs m b =
      let (k, c, e) = run-piped s fs m b in
      rw (pipe_lem (piped s fs) consumer k tt c) (run_behind s fs e)

  -- What a consumer does with an element: it is called with it.
  abbrev pub called : A → List A
  called x = x ∷ []

  fresh-append : (fs gs : List (A → List A)) → fresh (fs ++ gs) ≡ fresh fs ++ fresh gs
  unfolding fresh
  fresh-append [] gs = refl
  fresh-append (f ∷ fs) gs = ap (λ ws. worker each f ∷ ws) (fresh-append fs gs)

  pub producing_workers :
      (xs : List A) (fs : List (A → List A))
      → run (plan (producing xs) fs) ≡ producer xs ∷ fresh (fs ++ (called ∷ []))
  unfolding run Merged can_merge_on_back
  producing_workers xs fs =
      run-plan (producing xs) fs tt refl
      ∙ ap (λ ws. producer xs ∷ ws) (sym (fresh-append fs (called ∷ [])))

  pub queue_workers :
      (xs : List A) → run (plan (from_queue xs false) []) ≡ queue_producer xs ∷ fresh (called ∷ [])
  unfolding run plan piped pipe new_chain clone fresh can_merge_on_back can_merge_on_front
  queue_workers xs = refl

  -- The first function behind a queue reads that queue itself.
  pub merged_workers :
      (xs : List A) (f : A → List A) (fs : List (A → List A))
      → run (plan (from_queue xs false) (f ∷ fs))
        ≡ record (worker each f) { queue = xs; shut = true } ∷ fresh (fs ++ (called ∷ []))
  unfolding run Merged can_merge_on_back plan piped pipe new_chain clone merge_back merge_on_front
      can_merge_on_front
  merged_workers xs f fs =
      run-plan (chain (from_queue [] true) (function f (some xs))) fs (refl, tt, tt) refl
      ∙ ap (λ ws. record (worker each f) { queue = xs; shut = true } ∷ ws)
          (sym (fresh-append fs (called ∷ [])))
