-- ===== src/BufferQueue/Filled.antt =====
-- What the two constructors of include/buffer_queue.h build.
use native.Mathlib.Numerals.{add-one}
use google_concurrency_libra.Base.{
  Bool, ℕ, zero, suc, ◌+◌, ◌^◌, ◌≤◌, ◌<◌, ◌≡◌, refl, ◌⊎◌, inl, inr, false, List, [], ◌∷◌, ◌++◌,
  arith, length, set, length-set, take, replicate, length-replicate, sym, ap, ◌∙◌, append_assoc,
  append-nil, dec_le,
}
use google_concurrency_libra.Outcome.{returned, thrown, invalid_argument}
use google_concurrency_libra.BufferQueue.{BufferQueue, construct, members, add_size, try_push, full}
use google_concurrency_libra.BufferQueue.Construct.{fill, construct_from}
use google_concurrency_libra.BufferQueue.Ring.{ring_zero, ring_self}
use google_concurrency_libra.BufferQueue.Bounds.{IsValid}
use google_concurrency_libra.Base.Slices.{take-set_end}
use google_concurrency_libra.BufferQueue.Refine.{view}

module _ {A : Type 0} where
  -- A new queue of at least one slot is valid, open and empty, and holds `max_elems`; a queue of
  -- none is refused.
  pub construct_plain :
      (initial : A) (max_elems : ℕ)
      → max_elems + 1 < 2 ^ 64
      → ((max_elems ≡ 0) × (construct initial max_elems ≡ thrown invalid_argument))
        ⊎ ((q : BufferQueue A) × (construct initial max_elems ≡ returned q)
            × IsValid q
            × (view q ≡ record { items = []; cap = max_elems; shut = false }))
  unfolding construct
  construct_plain initial zero h = inl (refl, refl)
  construct_plain initial (suc m) h = inr (
    members initial (suc m),
    ground arith,
    record {
      sized = length-replicate (add_size (suc m) 1) initial;
      small = omega arith;
      push_in = omega arith;
      pop_in = omega arith;
    },
    ground (arith, ring_self (replicate (add_size (suc m) 1) initial) 0),
  )

module _ {A : Type 0} (throws : A → Bool) (quiet : (a : A) → throws a ≡ false) where
  -- The loop ends at `k` with the range behind what the array held before `h`.
  fill_fits :
      (m : ℕ) (xs : List A) (buffer : List A) (h k : ℕ)
      → h + length xs ≡ k
      → k ≤ m
      → m < length buffer
      → (b : List A) × (fill throws m xs buffer h ≡ returned (b, k))
        × (length b ≡ length buffer)
        × (take k b ≡ take h buffer ++ xs)
  unfolding fill
  fill_fits m [] buffer h k e le lt =
      let same : h ≡ k = omega arith in
      (
        buffer,
        ap (λ n. returned (buffer, n)) same,
        refl,
        ap (λ n. take n buffer) (sym same) ∙ sym (append-nil (take h buffer)),
      )
  fill_fits m (x ∷ xs) buffer h k e le lt =
      let (b, run, size, front) =
        fill_fits m xs (set buffer h x) (h + 1) k (omega arith) le
          (omega (arith, length-set buffer h x)) in
      (
        b,
        ground (arith, run, quiet x),
        size ∙ length-set buffer h x,
        front
            ∙ ap (λ n. take n (set buffer h x) ++ xs) (add-one h)
            ∙ ap (λ ys. ys ++ xs) (take-set_end buffer h x (omega arith))
            ∙ append_assoc (take h buffer) (x ∷ []) xs,
      )

  fill_overflows :
      (m : ℕ) (xs : List A) (buffer : List A) (h : ℕ)
      → h ≤ m
      → m < h + length xs
      → fill throws m xs buffer h ≡ thrown invalid_argument
  unfolding fill
  fill_overflows m [] buffer h le lt = absurd (omega arith)
  fill_overflows m (x ∷ xs) buffer h le lt =
      ground (arith, quiet x, fill_overflows m xs (set buffer h x) (h + 1))

  length-members :
      (initial : A) (m : ℕ) → m + 1 < 2 ^ 64 → length (members initial m).buffer ≡ m + 1
  unfolding members
  length-members initial m h = omega (arith, length-replicate (add_size m 1) initial)

  -- A queue whose array holds the range in front.
  holding : A → ℕ → List A → ℕ → BufferQueue A
  holding initial m buffer k = record (members initial m) { buffer = buffer; push_index = k }

  holding-view :
      (initial : A) (m : ℕ) (xs b : List A)
      → m + 1 < 2 ^ 64
      → length xs ≤ m
      → length b ≡ length (members initial m).buffer
      → take (length xs) b ≡ xs
      → IsValid (holding initial m b (length xs))
        × (view (holding initial m b (length xs)) ≡ record { items = xs; cap = m; shut = false })
  unfolding holding members
  holding-view initial m xs b h fits size front =
      let slots : add_size m 1 ≡ m + 1 = omega arith in
      (
        record {
          sized = omega (arith, length-members initial m h);
          small = omega arith;
          push_in = omega arith;
          pop_in = omega arith;
        },
        ground (arith, ring_zero b (length xs)),
      )

  construct_from-fits :
      (initial : A) (m : ℕ) (xs b : List A)
      → fill throws m xs (members initial m).buffer 0 ≡ returned (b, length xs)
      → construct_from throws initial m xs ≡ returned (holding initial m b (length xs))
  unfolding construct_from holding
  construct_from-fits initial m xs b run = rw (run, construct_from)

  -- If no assignment throws, a range that fits becomes the contents of a valid open queue, and one
  -- that does not fit is refused.
  construct_from_lem :
      (initial : A) (max_elems : ℕ) (xs : List A)
      → max_elems + 1 < 2 ^ 64
      → ((max_elems < length xs)
          × (construct_from throws initial max_elems xs ≡ thrown invalid_argument))
        ⊎ ((q : BufferQueue A) × (construct_from throws initial max_elems xs ≡ returned q)
            × IsValid q
            × (view q ≡ record { items = xs; cap = max_elems; shut = false }))
  unfolding construct_from
  construct_from_lem initial m xs h = elim (dec_le (length xs) m) [
    | yes fits ↦
        let (b, run, size, front) =
          fill_fits m xs (members initial m).buffer 0 (length xs) (omega arith) fits
            (omega (arith, length-members initial m h)) in
        let (valid, same) = holding-view initial m xs b h fits size front in
        inr (holding initial m b (length xs), construct_from-fits initial m xs b run, valid, same)
    | no over ↦ inl (
      omega arith,
      rw (
        fill_overflows m xs (members initial m).buffer 0 (omega arith) (omega arith),
        construct_from,
      ),
    )
  ]

module _ {A : Type 0} (throws : A → Bool) where
  -- The constructor from a range skips the test of `init`: with an empty range it builds a queue of
  -- capacity 0, which the other constructor refuses and in which every push reports `full`.
  zero_capacity_accepted :
      (initial : A)
      → (construct initial 0 ≡ thrown invalid_argument)
        × ((q : BufferQueue A) × (construct_from throws initial 0 [] ≡ returned q)
            × ((a : A) → (try_push throws q a).outcome ≡ returned full))
  unfolding construct construct_from fill try_push
  zero_capacity_accepted initial = (refl, (members initial 0, refl, λ a. refl))

  -- The plain constructor gives a valid, open and empty queue that holds `max_elems`, or refuses 0, which
  -- the constructor from an empty range accepts: in its queue every push reports `full`.
  construct_lem :
      (initial : A) (max_elems : ℕ)
      → max_elems + 1 < 2 ^ 64
      → (((max_elems ≡ 0) × (construct initial max_elems ≡ thrown invalid_argument))
          ⊎ ((q : BufferQueue A) × (construct initial max_elems ≡ returned q)
              × IsValid q
              × (view q ≡ record { items = []; cap = max_elems; shut = false })))
        × ((q : BufferQueue A) × (construct_from throws initial 0 [] ≡ returned q)
            × ((a : A) → (try_push throws q a).outcome ≡ returned full))
  construct_lem initial m h = (construct_plain initial m h, (zero_capacity_accepted initial).1)

-- If no assignment throws, a range that fits becomes the contents of a valid open queue, and one that
-- does not fit is refused. The plain constructor gives a valid, open and empty queue that holds
-- `max_elems`, or refuses 0, which the constructor from an empty range accepts: in its queue every push
-- reports `full`.
pub constructors_lem :
    {A : Type 0} (throws : A → Bool)
    → ((x : A) → throws x ≡ false)
    → (initial : A) (max_elems : ℕ) (xs : List A) → max_elems + 1 < 2 ^ 64
    → (((max_elems < length xs)
          × (construct_from throws initial max_elems xs ≡ thrown invalid_argument))
        ⊎ ((q : BufferQueue A) × (construct_from throws initial max_elems xs ≡ returned q)
            × IsValid q
            × (view q ≡ record { items = xs; cap = max_elems; shut = false })))
      × (((max_elems ≡ 0) × (construct initial max_elems ≡ thrown invalid_argument))
          ⊎ ((q : BufferQueue A) × (construct initial max_elems ≡ returned q)
              × IsValid q
              × (view q ≡ record { items = []; cap = max_elems; shut = false })))
      × ((q : BufferQueue A) × (construct_from throws initial 0 [] ≡ returned q)
          × ((a : A) → (try_push throws q a).outcome ≡ returned full))
constructors_lem throws calm initial m xs h =
    let (plain, from_none) = construct_lem throws initial m h in
    (construct_from_lem throws calm initial m xs h, plain, from_none)
