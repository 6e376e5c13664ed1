-- ===== src/BufferQueue/Monitor/Sections.antt =====
-- What each critical section of include/buffer_queue.h owes to the sleeping threads.
use google_concurrency_libra.Base.{
  Bool, ℕ, ◌≡◌, ◌≢◌, false, [], ◌∷◌, arith, length-append, length-set, ◌+◌, inl, inr, Option,
  ℕ_discrete, Bool-cases, subst,
}
use google_concurrency_libra.BufferQueue.{
  BufferQueue, close, push_at, pop_from, next, try_pop_common, try_push_common, Section,
  QueueOpStatus,
}
use google_concurrency_libra.BufferQueue.Ring.{ring-push, ring-pop, length-ring}
use google_concurrency_libra.BufferQueue.Bounds.{next_lem, in_bounds}
use google_concurrency_libra.BufferQueue.Refine.{contents}
use google_concurrency_libra.BufferQueue.Monitor.{
  System, PusherTurn, PopperTurn, ended, wait_push_turn, wait_pop_turn, waits, ends,
}
use google_concurrency_libra.BufferQueue.Monitor.Invariant.{
  Slack, Inv, Owes, owes_room, owes_item, wakes_pushers, wakes_poppers,
}

module _ {A : Type 0} where
  pub PusherTurn-Slack :
      {s t : System A} {a : A} → Inv s → PusherTurn s a t → Slack 1 0 0 0 false false t
  PusherTurn-Slack o (PusherTurn.fresh e) =
      ground (arith, o.pushers_awake, o.poppers_awake, o.room_signalled, o.item_signalled)
  PusherTurn-Slack {a = a} o (PusherTurn.resumed xs ys h e) = ground (
    arith,
    o.pushers_awake,
    o.poppers_awake,
    o.room_signalled,
    o.item_signalled,
    length-append xs ys,
    length-append xs (a ∷ ys),
  )

  pub PopperTurn-Slack : {s t : System A} → Inv s → PopperTurn s t → Slack 0 1 0 0 false false t
  PopperTurn-Slack o (PopperTurn.fresh e) =
      ground (arith, o.pushers_awake, o.poppers_awake, o.room_signalled, o.item_signalled)
  PopperTurn-Slack o (PopperTurn.resumed n h e) =
      ground (arith, o.pushers_awake, o.poppers_awake, o.room_signalled, o.item_signalled)

  pub close-Owes :
      {s : System A} (i j : ℕ)
      → Slack i j 0 0 false false s
      → Owes (close s.queue).signals (ended s (close s.queue))
  unfolding close owes_room owes_item wakes_pushers wakes_poppers
  close-Owes i j o =
      ground (arith, o.pushers_awake, o.poppers_awake, o.room_signalled, o.item_signalled)

module _ {A : Type 0} (throws : A → Bool) where
  pub push_at-Owes :
      {s : System A} (a : A)
      → Slack 1 0 0 0 false false s
      → s.queue.is_shut ≡ false
      → next s.queue s.queue.push_index ≢ s.queue.pop_index
      → let c = push_at throws s.queue a s.queue.push_index (next s.queue s.queue.push_index) in
        Owes c.signals (ended s c)
  unfolding push_at owes_room owes_item wakes_pushers wakes_poppers
  push_at-Owes {s} a o open_q ne =
      let q : BufferQueue A = s.queue in
      ground (
        arith,
        o.pushers_awake,
        o.poppers_awake,
        o.room_signalled,
        o.item_signalled,
        next_lem q q.push_index,
        length-set q.buffer q.push_index a,
        ring-push q.buffer q.pop_index q.push_index (next q q.push_index) a,
        length-append (contents q) (a ∷ []),
      )

  pub pop_from-Owes :
      {s : System A}
      → Slack 0 1 0 0 false false s
      → s.queue.pop_index ≢ s.queue.push_index
      → let c = pop_from throws s.queue s.queue.pop_index in Owes c.signals (ended s c)
  unfolding pop_from owes_room owes_item wakes_pushers wakes_poppers
  pop_from-Owes {s} o ne =
      let q : BufferQueue A = s.queue in
      let (a, e) = (in_bounds o.valid).1 in
      ground (
        arith,
        o.pushers_awake,
        o.poppers_awake,
        o.room_signalled,
        o.item_signalled,
        e,
        next_lem q q.pop_index,
        ring-pop q.buffer q.pop_index q.push_index (next q q.pop_index) a,
      )

  pub push_waits-Inv :
      {s : System A} {q : BufferQueue A} (a : A)
      → Slack 1 0 0 0 false false s
      → wait_push_turn throws s.queue a ≡ waits q
      → Inv (record s { queue = q; pushers_asleep = a ∷ s.pushers_asleep })
  unfolding google_concurrency_libra.BufferQueue.Wait.wait_push_turn
  push_waits-Inv {s} a o e = ground (
    arith,
    o.pushers_awake,
    o.poppers_awake,
    o.room_signalled,
    o.item_signalled,
    next_lem s.queue s.queue.push_index,
    length-ring s.queue.buffer s.queue.pop_index s.queue.push_index,
  )

  pub pop_waits-Inv :
      {s : System A} {q : BufferQueue A}
      → Slack 0 1 0 0 false false s
      → wait_pop_turn throws s.queue ≡ waits q
      → Inv (record s { queue = q; poppers_asleep = s.poppers_asleep + 1 })
  unfolding google_concurrency_libra.BufferQueue.Wait.wait_pop_turn
  pop_waits-Inv {s} o e = ground (
    arith,
    o.pushers_awake,
    o.poppers_awake,
    o.room_signalled,
    o.item_signalled,
    length-ring s.queue.buffer s.queue.pop_index s.queue.push_index,
  )

  pub push_ends-Owes :
      {s : System A} {c : Section A QueueOpStatus} (a : A)
      → Slack 1 0 0 0 false false s
      → wait_push_turn throws s.queue a ≡ ends c
      → Owes c.signals (ended s c)
  unfolding google_concurrency_libra.BufferQueue.Wait.wait_push_turn owes_room owes_item
      wakes_pushers wakes_poppers
  push_ends-Owes {s} {c} a o e = elim (Bool-cases s.queue.is_shut) [
    | inl shut ↦
        ground (arith, o.pushers_awake, o.poppers_awake, o.room_signalled, o.item_signalled)
    | inr open_q ↦ elim (ℕ_discrete (next s.queue s.queue.push_index) s.queue.pop_index) [
      | yes same ↦ absurd (ground arith)
      | no ne ↦
          let path : push_at throws s.queue a s.queue.push_index (next s.queue s.queue.push_index)
              ≡ c =
            ground arith in
          subst (λ d. Owes d.signals (ended s d)) path (push_at-Owes a o open_q ne)
    ]
  ]

  pub pop_ends-Owes :
      {s : System A} {c : Section A (QueueOpStatus × Option A)}
      → Slack 0 1 0 0 false false s
      → wait_pop_turn throws s.queue ≡ ends c
      → Owes c.signals (ended s c)
  unfolding google_concurrency_libra.BufferQueue.Wait.wait_pop_turn owes_room owes_item
      wakes_pushers wakes_poppers
  pop_ends-Owes {s} {c} o e = elim (ℕ_discrete s.queue.pop_index s.queue.push_index) [
    | yes same ↦
        ground (arith, o.pushers_awake, o.poppers_awake, o.room_signalled, o.item_signalled)
    | no ne ↦
        let path : pop_from throws s.queue s.queue.pop_index ≡ c = ground arith in
        subst (λ d. Owes d.signals (ended s d)) path (pop_from-Owes o ne)
  ]

  pub try_push-Owes :
      {s : System A} (a : A)
      → Inv s
      → Owes (try_push_common throws s.queue a).signals (ended s (try_push_common throws s.queue a))
  unfolding try_push_common owes_room owes_item wakes_pushers wakes_poppers
  try_push-Owes {s} a o =
      let q : BufferQueue A = s.queue in
      ground (
        arith,
        o.pushers_awake,
        o.poppers_awake,
        o.room_signalled,
        o.item_signalled,
        next_lem q q.push_index,
        length-set q.buffer q.push_index a,
        ring-push q.buffer q.pop_index q.push_index (next q q.push_index) a,
        length-append (contents q) (a ∷ []),
      )

  pub try_pop-Owes :
      {s : System A}
      → Inv s
      → Owes (try_pop_common throws s.queue).signals (ended s (try_pop_common throws s.queue))
  unfolding try_pop_common owes_room owes_item wakes_pushers wakes_poppers
  try_pop-Owes {s} o =
      let q : BufferQueue A = s.queue in
      let (a, e) = (in_bounds o.valid).1 in
      ground (
        arith,
        o.pushers_awake,
        o.poppers_awake,
        o.room_signalled,
        o.item_signalled,
        e,
        next_lem q q.pop_index,
        ring-pop q.buffer q.pop_index q.push_index (next q q.pop_index) a,
      )
