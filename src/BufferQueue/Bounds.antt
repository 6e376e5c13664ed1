-- ===== src/BufferQueue/Bounds.antt =====
-- The representation invariant of include/buffer_queue.h, and what it gives for the indices.
use native.Mathlib.Nat.{mod-eq_of_lt, mod-eq-sub-mod}
use google_concurrency_libra.Base.{
  ℕ, suc, ◌%◌, ◌^◌, ◌<◌, ◌≡◌, ◌∙◌, arith, length, dec_lt, get_elem?, some, ap, Bool, length-set,
}
use google_concurrency_libra.Base.Slices.{get_elem?-some}
use google_concurrency_libra.BufferQueue.{try_push, try_pop, BufferQueue, add_size, next}
use google_concurrency_libra.BufferQueue.Ring.{IsNext}

pub record IsValid {ℓ} {A : Type ℓ} (q : BufferQueue A) : Type 0 where
  pub sized : length q.buffer ≡ q.num_slots
  pub small : q.num_slots < 2 ^ 64
  pub push_in : q.push_index < q.num_slots
  pub pop_in : q.pop_index < q.num_slots

next_inside {ℓ} :
    {A : Type ℓ} (q : BufferQueue A) (i : ℕ)
    → q.num_slots < 2 ^ 64
    → suc i < q.num_slots
    → next q i ≡ suc i
unfolding next
next_inside q i small h =
    let sum : add_size i 1 ≡ suc i = omega arith in ap (λ n. n % q.num_slots) sum ∙ mod-eq_of_lt h

next_last {ℓ} :
    {A : Type ℓ} (q : BufferQueue A) (i : ℕ)
    → q.num_slots < 2 ^ 64
    → suc i ≡ q.num_slots
    → next q i ≡ 0
unfolding next
next_last q i small h =
    let sum : add_size i 1 ≡ suc i = omega arith in
    ap (λ n. n % q.num_slots) sum
    ∙ omega (arith, mod-eq-sub-mod {n = suc i} {m = q.num_slots} (omega arith))

-- No `size_t` sum of `next` wraps, and its result is the next index, in range.
pub next_lem {ℓ} :
    {A : Type ℓ} (q : BufferQueue A) (i : ℕ)
    → q.num_slots < 2 ^ 64
    → i < q.num_slots
    → IsNext q.num_slots i (next q i) × (next q i < q.num_slots)
next_lem q i small h = elim (dec_lt (suc i) q.num_slots) [
  | yes inside ↦ omega (arith, next_inside q i small inside)
  | no last ↦ omega (arith, next_last q i small (omega arith))
]

module _ {ℓ} {A : Type ℓ} where
  -- The indices that `push_at` writes and `pop_from` reads lie in the array.
  pub in_bounds :
      {q : BufferQueue A}
      → IsValid q
      → (q.push_index < length q.buffer) × ((a : A) × (get_elem? q.buffer q.pop_index ≡ some a))
  in_bounds {q} v = (omega arith, get_elem?-some q.buffer q.pop_index (omega arith))

module _ {A : Type 0} (throws : A → Bool) where
  pub try_push-IsValid :
      {q : BufferQueue A} (a : A) → IsValid q → IsValid (try_push throws q a).after
  unfolding try_push
  try_push-IsValid {q} a v =
      ground (arith, next_lem q q.push_index, length-set q.buffer q.push_index a)

  pub try_pop-IsValid : {q : BufferQueue A} → IsValid q → IsValid (try_pop throws q).after
  unfolding try_pop
  try_pop-IsValid {q} v = ground (arith, next_lem q q.pop_index)

  pub slots-try_push :
      (q : BufferQueue A) (a : A) → (try_push throws q a).after.num_slots ≡ q.num_slots
  unfolding try_push
  slots-try_push q a = ground arith

  pub slots-try_pop : (q : BufferQueue A) → (try_pop throws q).after.num_slots ≡ q.num_slots
  unfolding try_pop
  slots-try_pop q = ground arith
