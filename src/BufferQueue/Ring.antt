-- ===== src/BufferQueue/Ring.antt =====
-- The elements that a circular array holds between its two indices.
use google_concurrency_libra.Base.{
  ℕ, suc, ◌+◌, ◌≤◌, ◌<◌, ◌≡◌, ◌≢◌, sym, ap, ◌∙◌, ◌⊎◌, inl, inr, List, [], ◌∷◌, ◌++◌, some, arith,
  leb, if◌then◌else◌, length, get_elem?, set, take, drop, length-append, length-take, length-drop,
  length-set, append_assoc, append-nil, dec_le, ◌≡⟨◌⟩◌, ◌∎,
}
use google_concurrency_libra.Base.Slices.{
  take-set_end, drop-set_of_lt, drop-append_of_le, drop-get_elem?, get_elem?-take, take-length,
  drop-of_le, drop-take_self,
}

-- The index after `i` in an array of `n` slots.
abbrev pub IsNext : ℕ → ℕ → ℕ → Type 0
IsNext n i nxt = ((nxt ≡ suc i) × (suc i < n)) ⊎ ((nxt ≡ 0) × (suc i ≡ n))

module _ {ℓ} {A : Type ℓ} where
  -- From `pop` up to `push`, going round at the end of the array.
  pub ring : List A → ℕ → ℕ → List A
  ring buffer pop push =
      if leb pop push then drop pop (take push buffer) else drop pop buffer ++ take push buffer

  ring-straight :
      (buffer : List A) (pop push : ℕ)
      → pop ≤ push
      → ring buffer pop push ≡ drop pop (take push buffer)
  unfolding ring
  ring-straight buffer pop push h = ground arith

  ring-round :
      (buffer : List A) (pop push : ℕ)
      → push < pop
      → ring buffer pop push ≡ drop pop buffer ++ take push buffer
  unfolding ring
  ring-round buffer pop push h = ground arith

  pub ring_self : (buffer : List A) (i : ℕ) → ring buffer i i ≡ []
  ring_self buffer i = ring-straight buffer i i (omega arith) ∙ drop-take_self i buffer

  pub ring_zero : (buffer : List A) (push : ℕ) → ring buffer 0 push ≡ take push buffer
  ring_zero buffer push = ring-straight buffer 0 push (omega arith)

  pub length-ring :
      (buffer : List A) (pop push : ℕ)
      → pop < length buffer
      → push < length buffer
      → ((pop ≤ push) × (length (ring buffer pop push) + pop ≡ push))
        ⊎ ((push < pop) × (length (ring buffer pop push) + pop ≡ push + length buffer))
  length-ring buffer pop push hp hq = elim (dec_le pop push) [
    | yes h ↦ inl (
      h,
      omega (
        arith,
        ap length (ring-straight buffer pop push h),
        length-drop pop (take push buffer),
        length-take push buffer,
      ),
    )
    | no h ↦ inr (
      omega arith,
      omega (
        arith,
        ap length (ring-round buffer pop push (omega arith)),
        length-append (drop pop buffer) (take push buffer),
        length-drop pop buffer,
        length-take push buffer,
      ),
    )
  ]

  set_last :
      (buffer : List A) (i : ℕ) (v : A)
      → suc i ≡ length buffer
      → set buffer i v ≡ take i buffer ++ v ∷ []
  set_last buffer i v last =
      set buffer i v
      ≡⟨ sym (take-length (set buffer i v)) ⟩ take (length (set buffer i v)) (set buffer i v)
      ≡⟨ ap (λ n. take n (set buffer i v)) (length-set buffer i v ∙ sym last) ⟩
        take (suc i) (set buffer i v)
      ≡⟨ take-set_end buffer i v (omega arith) ⟩ take i buffer ++ v ∷ [] ∎

  ring-push_straight :
      (buffer : List A) (pop push : ℕ) (v : A)
      → push < length buffer
      → pop ≤ push
      → ring (set buffer push v) pop (suc push) ≡ ring buffer pop push ++ v ∷ []
  ring-push_straight buffer pop push v hq h = rw (
    ring-straight (set buffer push v) pop (suc push) (omega arith),
    ring-straight buffer pop push h,
    take-set_end buffer push v hq,
    drop-append_of_le pop (take push buffer) (v ∷ []) (omega (arith, length-take push buffer)),
  )

  ring-push_last :
      (buffer : List A) (pop push : ℕ) (v : A)
      → suc push ≡ length buffer
      → pop ≤ push
      → 0 < pop
      → ring (set buffer push v) pop 0 ≡ ring buffer pop push ++ v ∷ []
  ring-push_last buffer pop push v last h pos = rw (
    ring-round (set buffer push v) pop 0 pos,
    ring-straight buffer pop push h,
    append-nil (drop pop (set buffer push v)),
    set_last buffer push v last,
    drop-append_of_le pop (take push buffer) (v ∷ []) (omega (arith, length-take push buffer)),
  )

  ring-push_round :
      (buffer : List A) (pop push : ℕ) (v : A)
      → push < length buffer
      → suc push < pop
      → ring (set buffer push v) pop (suc push) ≡ ring buffer pop push ++ v ∷ []
  ring-push_round buffer pop push v hq h = rw (
    ring-round (set buffer push v) pop (suc push) h,
    ring-round buffer pop push (omega arith),
    take-set_end buffer push v hq,
    drop-set_of_lt buffer pop push v (omega arith),
    append_assoc (drop pop buffer) (take push buffer) (v ∷ []),
  )

  -- A write at `push` appends to the elements, if the next index is not `pop`.
  pub ring-push :
      (buffer : List A) (pop push nxt : ℕ) (v : A)
      → pop < length buffer
      → push < length buffer
      → nxt ≢ pop
      → IsNext (length buffer) push nxt
      → ring (set buffer push v) pop nxt ≡ ring buffer pop push ++ v ∷ []
  ring-push buffer pop push nxt v hp hq ne (inl (e, _)) = elim (dec_le pop push) [
    | yes h ↦ rw e (ring-push_straight buffer pop push v hq h)
    | no h ↦ rw e (ring-push_round buffer pop push v hq (omega arith))
  ]
  ring-push buffer pop push nxt v hp hq ne (inr (e, last)) =
      rw e (ring-push_last buffer pop push v last (omega arith) (omega arith))

  ring-pop_straight :
      (buffer : List A) (pop push : ℕ) (v : A)
      → pop < push
      → get_elem? buffer pop ≡ some v
      → ring buffer pop push ≡ v ∷ ring buffer (suc pop) push
  ring-pop_straight buffer pop push v h e = rw (
    ring-straight buffer pop push (omega arith),
    ring-straight buffer (suc pop) push h,
    drop-get_elem? (take push buffer) pop v (get_elem?-take buffer push pop h ∙ e),
  )

  ring-pop_round :
      (buffer : List A) (pop push : ℕ) (v : A)
      → push < pop
      → get_elem? buffer pop ≡ some v
      → ring buffer pop push ≡ v ∷ ring buffer (suc pop) push
  ring-pop_round buffer pop push v h e = rw (
    ring-round buffer pop push h,
    ring-round buffer (suc pop) push (omega arith),
    drop-get_elem? buffer pop v e,
  )

  ring-pop_last :
      (buffer : List A) (pop push : ℕ) (v : A)
      → push < pop
      → suc pop ≡ length buffer
      → get_elem? buffer pop ≡ some v
      → ring buffer pop push ≡ v ∷ ring buffer 0 push
  ring-pop_last buffer pop push v h last e = rw (
    ring-round buffer pop push h,
    ring-straight buffer 0 push (omega arith),
    drop-get_elem? buffer pop v e,
    drop-of_le (suc pop) buffer (omega arith),
  )

  -- A read at `pop` takes the first element.
  pub ring-pop :
      (buffer : List A) (pop push nxt : ℕ) (v : A)
      → push < length buffer
      → pop ≢ push
      → IsNext (length buffer) pop nxt
      → get_elem? buffer pop ≡ some v
      → ring buffer pop push ≡ v ∷ ring buffer nxt push
  ring-pop buffer pop push nxt v hq ne (inl (next, _)) e = elim (dec_le pop push) [
    | yes h ↦ rw next (ring-pop_straight buffer pop push v (omega arith) e)
    | no h ↦ rw next (ring-pop_round buffer pop push v (omega arith) e)
  ]
  ring-pop buffer pop push nxt v hq ne (inr (next, last)) e =
      rw next (ring-pop_last buffer pop push v (omega arith) last e)
