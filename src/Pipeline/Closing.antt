-- ===== src/Pipeline/Closing.antt =====
-- Workers of include/pipeline.h that loop until `is_closed`: the queue of include/buffer_queue.h is
-- closed as soon as `close` has been called, also while it has elements.
use google_concurrency_libra.Base.{
  ℕ, ◌+◌, ◌≤◌, refl, List, [], ◌∷◌, ◌++◌, length, arith, append_assoc, append-nil, subst, true, sym,
  length-append, suc,
}
use google_concurrency_libra.Pipeline.{
  Worker, batch, done, pushes, Run, here, later, worker, producer, works, finds_closed, closes,
  further, sees_closed, ends,
}
use google_concurrency_libra.Pipeline.Progress.{AllDone}

module _ {A : Type 0} (f : A → List A) where
  -- A producer that still has to push `ys`, and a consumer that has not looked at its queue.
  at_work : List A → List A → List (Worker A)
  at_work ys queue = producer ys ∷ record (worker batch f) { queue = queue } ∷ []

  -- The producer pushes all that it has before the consumer looks.
  fills :
      {cap : ℕ} {ws : List (Worker A)} {n : ℕ} (ys queue : List A)
      → length queue + length ys ≤ cap
      → Run cap ws [] n (at_work ys queue) []
      → (m : ℕ) × Run cap ws [] m (at_work [] (queue ++ ys)) []
  unfolding at_work producer worker
  fills {cap} {ws} {n} [] queue h r =
      (n, subst (λ q. Run cap ws [] n (at_work [] q) []) (sym (append-nil queue)) r)
  fills {cap} {ws} (y ∷ ys) queue h r =
      let (m, s) =
        fills ys (queue ++ (y ∷ [])) (omega (arith, length-append queue (y ∷ [])))
          (later r (pushes y ys refl refl refl (omega arith))) in
      (m, subst (λ q. Run cap ws [] m (at_work [] q) []) (append_assoc queue (y ∷ []) ys) s)

  -- Then both end.
  lost : List A → List (Worker A)
  lost xs =
      record (producer []) { place = done }
      ∷ record (worker batch f) { queue = xs; shut = true; place = done }
      ∷ []

  ends_early :
      {cap : ℕ} {ws : List (Worker A)} {n : ℕ} (xs : List A)
      → Run cap ws [] n (at_work [] xs) []
      → Run cap ws [] (suc (suc (suc (suc n)))) (lost xs) []
  unfolding at_work lost producer worker
  ends_early xs r =
      later
        (later (later (later r (works (finds_closed refl refl refl refl refl))) (closes refl))
          (further (works (sees_closed refl refl refl refl))))
        (further (ends refl))

  -- For every input that the queue can hold a schedule exists in which producer and consumer both come
  -- to their ends and the function of the consumer has not been called.
  pub batch_loses :
      {cap : ℕ} (xs : List A)
      → length xs ≤ cap
      → (n : ℕ) × (ws : List (Worker A)) × Run cap (producer xs ∷ worker batch f ∷ []) [] n ws []
        × AllDone ws
  unfolding at_work worker lost AllDone producer
  batch_loses xs h =
      let (n, r) = fills xs [] (omega arith) here in
      (_, lost xs, ends_early xs r, (refl, (refl, tt)))
