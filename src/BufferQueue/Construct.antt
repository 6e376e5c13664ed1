-- ===== src/BufferQueue/Construct.antt =====
-- The constructor of include/buffer_queue.h that fills the queue from a range.
use google_concurrency_libra.Base.{ℕ, ◌+◌, Bool, List, [], ◌∷◌, leb, if◌then◌else◌, set}
use google_concurrency_libra.Outcome.{
  copy_failed, invalid_argument, Outcome, returned, thrown, fault,
}
use google_concurrency_libra.BufferQueue.{BufferQueue, members, push_reindex}

module _ {ℓ} {A : Type ℓ} (throws : A → Bool) where
  -- The loop of `iter_init`: the array and `hdx` when it is left.
  unfoldable pub fill : ℕ → List A → List A → ℕ → Outcome (List A × ℕ)
  fill max_elems [] buffer hdx = returned (buffer, hdx)
  fill max_elems (x ∷ xs) buffer hdx =
      let rest = fill max_elems xs (set buffer hdx x) (hdx + 1) in
      if leb max_elems hdx
      then thrown invalid_argument
      else (if throws x then thrown copy_failed else rest)

  -- This constructor runs `iter_init` only, and not `init`.
  unfoldable pub construct_from : A → ℕ → List A → Outcome (BufferQueue A)
  unfolding members fill push_reindex
  construct_from initial max_elems xs =
      let q = members initial max_elems in
      elim (fill max_elems xs q.buffer 0) [
        | returned (buffer, hdx) ↦ returned ((push_reindex (record q { buffer = buffer }) hdx).0)
        | thrown e ↦ thrown e
        | fault ↦ fault
      ]
