-- ===== src/Pipeline/Progress.antt =====
-- Workers of include/pipeline.h never wait for one another in a circle.
use google_concurrency_libra.Pipeline.Flow.{AllEach}
use google_concurrency_libra.Base.{
  ℕ, ◌<◌, ◌≡◌, List, [], ◌∷◌, ◌⊎◌, inl, inr, true, false, Bool, refl, ◌≢◌, arith, dec_lt, length,
}
use google_concurrency_libra.Pipeline.{
  Worker, each, looping, done, pops, finds_closed, Step, works, consumes, closing, further, Place,
  pushes, ends, calling, closes,
}
use google_concurrency_libra.Pipeline.Tidy.{Joins, Tidy}

module _ {A : Type 0} where
  unfoldable pub AllDone : List (Worker A) → Type 0
  AllDone [] = Unit
  AllDone (w ∷ ws) = (w.place ≡ done) × AllDone ws

  -- Some worker can take a step.
  pub record CanStep (cap : ℕ) (ws : List (Worker A)) (out : List A) : Type 0 where
    pub next : List (Worker A)
    pub given : List A
    pub step : Step cap ws out next given

  -- The first worker waits for an element, or for its queue to be closed.
  abbrev pub Waits : List (Worker A) → Type 0
  Waits [] = ⊥
  Waits (w ∷ ws) = (w.queue ≡ []) × (w.shut ≡ false)

  abbrev pub Verdict : ℕ → List (Worker A) → List A → Type 0
  Verdict cap ws out = CanStep cap ws out ⊎ (AllDone ws ⊎ Waits ws)

  module _ (cap : ℕ) (some_room : 0 < cap) (out : List A) where
    can : (ws us : List (Worker A)) (given : List A) → Step cap ws out us given → Verdict cap ws out
    can ws us given st = inl (record { next = us; given = given; step = st })

    -- The first worker is at its loop with nothing to push.
    reads :
        (w : Worker A) (ws : List (Worker A)) (q : List A) (b : Bool)
        → w.kind ≡ each
        → w.place ≡ looping
        → w.pending ≡ []
        → w.queue ≡ q
        → w.shut ≡ b
        → Verdict cap (w ∷ ws) out
    reads w ws (x ∷ q) b k p e h c = can _ _ _ (works (pops x q k p e h))
    reads w ws [] true k p e h c = can _ _ _ (works (finds_closed k p e h c))
    reads w ws [] false k p e h c = inr (inr (h, c))

    -- It has an element to push.
    hands_on :
        (w : Worker A) (ws : List (Worker A)) (y : A) (rest : List A)
        → w.place ≡ looping
        → w.pending ≡ y ∷ rest
        → Joins w ws
        → Tidy ws
        → Verdict cap ws out
        → Verdict cap (w ∷ ws) out
    unfolding Joins Tidy AllDone
    hands_on w [] y rest p e j t ih = can _ _ _ (consumes y rest e p)
    hands_on w (v ∷ vs) y rest p e j t ih = elim (dec_lt (length v.queue) cap) [
      | yes room ↦ can _ _ _ (pushes y rest e p (ground arith) room)
      | no full ↦ elim ih [
        | inl c ↦ can _ _ _ (further c.step)
        | inr (inl d) ↦ absurd (full (ground arith))
        | inr (inr h) ↦ absurd (full (ground arith))
      ]
    ]

    -- It is done, and the next one cannot wait for it.
    hands_over :
        (w : Worker A) (ws : List (Worker A))
        → w.place ≡ done
        → Joins w ws
        → Verdict cap ws out
        → Verdict cap (w ∷ ws) out
    unfolding Joins AllDone
    hands_over w [] p j ih = inr (inl (p, tt))
    hands_over w (v ∷ vs) p j ih = elim ih [
      | inl c ↦ can _ _ _ (further c.step)
      | inr (inl d) ↦ inr (inl (p, d))
      | inr (inr h) ↦ ground arith
    ]

    closing_on :
        (w : Worker A) (ws : List (Worker A)) → w.place ≡ closing → Verdict cap (w ∷ ws) out
    closing_on w [] p = can _ _ _ (ends p)
    closing_on w (v ∷ vs) p = can _ _ _ (closes p)

    looping_on :
        (w : Worker A) (ws : List (Worker A)) (ys : List A)
        → w.kind ≡ each
        → w.place ≡ looping
        → w.pending ≡ ys
        → Joins w ws
        → Tidy ws
        → Verdict cap ws out
        → Verdict cap (w ∷ ws) out
    looping_on w ws [] k p e j t ih = reads w ws w.queue w.shut k p e refl refl
    looping_on w ws (y ∷ ys) k p e j t ih = hands_on w ws y ys p e j t ih

    at_place :
        (w : Worker A) (ws : List (Worker A)) (p : Place)
        → w.place ≡ p
        → w.kind ≡ each
        → w.place ≢ calling
        → Joins w ws
        → Tidy ws
        → Verdict cap ws out
        → Verdict cap (w ∷ ws) out
    at_place w ws looping p k n j t ih = looping_on w ws w.pending k p refl j t ih
    at_place w ws calling p k n j t ih = absurd (n p)
    at_place w ws closing p k n j t ih = closing_on w ws p
    at_place w ws done p k n j t ih = hands_over w ws p j ih

    pub verdict : (ws : List (Worker A)) → AllEach ws → Tidy ws → Verdict cap ws out
    unfolding AllEach Tidy AllDone
    verdict [] h t = inr (inl tt)
    verdict (w ∷ ws) (k, n, h) (s, j, t) = at_place w ws w.place refl k n j t (verdict ws h t)
