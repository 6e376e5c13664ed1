-- ===== src/BufferQueue/Blocking.antt =====
-- The blocking calls of include/buffer_queue.h: when they wait, and what they do once they end.
use google_concurrency_libra.Base.{
  Bool, ◌+◌, ◌-◌, ◌<◌, ◌≡◌, ◌⊎◌, true, false, List, [], ◌∷◌, arith, length, ◌≢◌, inl, inr, Option,
  none, some, ◌++◌,
}
use google_concurrency_libra.BufferQueue.{BufferQueue, Section, try_push, try_pop, QueueOpStatus}
use google_concurrency_libra.BufferQueue.Wait.{
  wait_push, wait_pop, waits, ends, wait_pop_round, wait_push_round,
}
use google_concurrency_libra.BufferQueue.Bounds.{IsValid}
use google_concurrency_libra.BufferQueue.Ring.{length-ring}
use google_concurrency_libra.BufferQueue.Refine.{contents, full_iff, empty_iff}

module _ {A : Type 0} where
  -- What the other threads do during each wait keeps the queue valid.
  abbrev pub AllKeep : List (BufferQueue A → BufferQueue A) → Type 0
  AllKeep [] = Unit
  AllKeep (f ∷ fs) = ((q : BufferQueue A) → IsValid q → IsValid (f q)) × AllKeep fs

  -- A push need not wait.
  abbrev pub HasRoom : BufferQueue A → Type 0
  HasRoom q = (q.is_shut ≡ true) ⊎ (length (contents q) < q.num_slots - 1)

  -- A pop need not wait.
  abbrev pub HasItem : BufferQueue A → Type 0
  HasItem q = (q.is_shut ≡ true) ⊎ (0 < length (contents q))

  -- `q₀` is the queue in which a push stops waiting that began at `q`: whenever there was no room,
  -- the thread was counted, and the next of the other threads' changes came about during its wait.
  pub data PushWaits (q₀ : BufferQueue A)
      : List (BufferQueue A → BufferQueue A) → BufferQueue A → Type 0 where
    at_once : {fs : List (BufferQueue A → BufferQueue A)} → HasRoom q₀ → PushWaits q₀ fs q₀
    after_wait :
        {f : BufferQueue A → BufferQueue A} {fs : List (BufferQueue A → BufferQueue A)}
        {q : BufferQueue A}
        → q.is_shut ≡ false
        → length (contents q) ≡ q.num_slots - 1
        → PushWaits q₀ fs (f (record q { waiting_full = q.waiting_full + 1 }))
        → PushWaits q₀ (f ∷ fs) q

  -- The same of a pop, which waits as long as there is no element.
  pub data PopWaits (q₀ : BufferQueue A)
      : List (BufferQueue A → BufferQueue A) → BufferQueue A → Type 0 where
    at_once : {fs : List (BufferQueue A → BufferQueue A)} → HasItem q₀ → PopWaits q₀ fs q₀
    after_wait :
        {f : BufferQueue A → BufferQueue A} {fs : List (BufferQueue A → BufferQueue A)}
        {q : BufferQueue A}
        → q.is_shut ≡ false
        → length (contents q) ≡ 0
        → PopWaits q₀ fs (f (record q { waiting_empty = q.waiting_empty + 1 }))
        → PopWaits q₀ (f ∷ fs) q

module _ {A : Type 0} (throws : A → Bool) where
  pub push_round_ends :
      {q : BufferQueue A} (a : A)
      → IsValid q
      → HasRoom q
      → wait_push_round throws q a ≡ ends (try_push throws q a)
  unfolding wait_push_round try_push
  push_round_ends {q} a v room = ground (arith, full_iff v)

  pub push_round_waits :
      {q : BufferQueue A} (a : A)
      → IsValid q
      → q.is_shut ≡ false
      → length (contents q) ≡ q.num_slots - 1
      → wait_push_round throws q a ≡ waits (record q { waiting_full = q.waiting_full + 1 })
  unfolding wait_push_round
  push_round_waits {q} a v open_q no_room = ground (arith, full_iff v)

  pub pop_round_ends :
      {q : BufferQueue A}
      → IsValid q
      → HasItem q
      → wait_pop_round throws q ≡ ends (try_pop throws q)
  unfolding wait_pop_round try_pop
  pop_round_ends {q} v item = ground (arith, empty_iff v)

  pub pop_round_waits :
      {q : BufferQueue A}
      → IsValid q
      → q.is_shut ≡ false
      → length (contents q) ≡ 0
      → wait_pop_round throws q ≡ waits (record q { waiting_empty = q.waiting_empty + 1 })
  unfolding wait_pop_round
  pop_round_waits {q} v open_q no_item = ground (arith, empty_iff v)

  room_or_not :
      (q : BufferQueue A)
      → IsValid q
      → HasRoom q ⊎ ((q.is_shut ≡ false) × (length (contents q) ≡ q.num_slots - 1))
  room_or_not q v = ground (arith, length-ring q.buffer q.pop_index q.push_index)

  item_or_not : (q : BufferQueue A) → HasItem q ⊎ ((q.is_shut ≡ false) × (length (contents q) ≡ 0))
  item_or_not q = ground arith

  -- A push that ends has waited until the queue had room or was closed, in the state that the other
  -- threads have brought about, and then does what `try_push` does in that state.
  pub wait_push_lem :
      (others : List (BufferQueue A → BufferQueue A)) (q : BufferQueue A) (a : A)
      {s : Section A QueueOpStatus}
      → AllKeep others
      → IsValid q
      → wait_push throws others q a ≡ some s
      → (q₀ : BufferQueue A) × PushWaits q₀ others q
        × IsValid q₀
        × HasRoom q₀
        × (s ≡ try_push throws q₀ a)
  unfolding wait_push
  wait_push_lem [] q a keep v h = elim (room_or_not q v) [
    | inl room ↦ (q, PushWaits.at_once room, v, room, ground (arith, push_round_ends a v room))
    | inr (open_q, no_room) ↦ absurd (ground (arith, push_round_waits a v open_q no_room))
  ]
  wait_push_lem (f ∷ fs) q a keep v h = elim (room_or_not q v) [
    | inl room ↦ (q, PushWaits.at_once room, v, room, ground (arith, push_round_ends a v room))
    | inr (open_q, no_room) ↦
        let q' : BufferQueue A = f (record q { waiting_full = q.waiting_full + 1 }) in
        let (q₀, path, v₀, stops, same) =
          wait_push_lem fs q' a keep.1 (keep.0 _ (ground arith))
            (ground (arith, push_round_waits a v open_q no_room)) in
        (q₀, PushWaits.after_wait open_q no_room path, v₀, stops, same)
  ]

  pub wait_pop_lem :
      (others : List (BufferQueue A → BufferQueue A)) (q : BufferQueue A)
      {s : Section A (QueueOpStatus × Option A)}
      → AllKeep others
      → IsValid q
      → wait_pop throws others q ≡ some s
      → (q₀ : BufferQueue A) × PopWaits q₀ others q
        × IsValid q₀
        × HasItem q₀
        × (s ≡ try_pop throws q₀)
  unfolding wait_pop
  wait_pop_lem [] q keep v h = elim (item_or_not q) [
    | inl item ↦ (q, PopWaits.at_once item, v, item, ground (arith, pop_round_ends v item))
    | inr (open_q, no_item) ↦ absurd (ground (arith, pop_round_waits v open_q no_item))
  ]
  wait_pop_lem (f ∷ fs) q keep v h = elim (item_or_not q) [
    | inl item ↦ (q, PopWaits.at_once item, v, item, ground (arith, pop_round_ends v item))
    | inr (open_q, no_item) ↦
        let q' : BufferQueue A = f (record q { waiting_empty = q.waiting_empty + 1 }) in
        let (q₀, path, v₀, stops, same) =
          wait_pop_lem fs q' keep.1 (keep.0 _ (ground arith))
            (ground (arith, pop_round_waits v open_q no_item)) in
        (q₀, PopWaits.after_wait open_q no_item path, v₀, stops, same)
  ]

  -- A push ends as soon as the others leave room, or close the queue, during a wait.
  pub wait_push-ends :
      (others : List (BufferQueue A → BufferQueue A)) (f : BufferQueue A → BufferQueue A)
      (q : BufferQueue A) (a : A)
      → AllKeep others
      → ((p : BufferQueue A) → IsValid p → IsValid (f p) × HasRoom (f p))
      → IsValid q
      → wait_push throws (others ++ f ∷ []) q a ≢ none
  unfolding wait_push
  wait_push-ends [] f q a keep frees v = elim (room_or_not q v) [
    | inl room ↦ ground (arith, push_round_ends a v room)
    | inr (open_q, no_room) ↦
        let (v', room) = frees (record q { waiting_full = q.waiting_full + 1 }) (ground arith) in
        ground (arith, push_round_waits a v open_q no_room, push_round_ends a v' room)
  ]
  wait_push-ends (g ∷ gs) f q a keep frees v = elim (room_or_not q v) [
    | inl room ↦ ground (arith, push_round_ends a v room)
    | inr (open_q, no_room) ↦
        let q' : BufferQueue A = g (record q { waiting_full = q.waiting_full + 1 }) in
        ground (
          arith,
          push_round_waits a v open_q no_room,
          wait_push-ends gs f q' a keep.1 frees (keep.0 _ (ground arith)),
        )
  ]
