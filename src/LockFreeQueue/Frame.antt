-- ===== src/LockFreeQueue/Frame.antt =====
-- Threads of include/lock_free_buffer_queue.h do not disturb each other: what a thread knows survives
-- the steps of the others.
use native.Mathlib.Nat.{div-add-mod, add-mod_right}
use google_concurrency_libra.Base.{ℕ, ◌+◌, ◌%◌, ◌<◌, ◌≡◌, ◌∷◌, arith, ◌≢◌, ap, ◌∙◌, update}
use google_concurrency_libra.LockFreeQueue.{waiting, valid}
use google_concurrency_libra.LockFreeQueue.Moves.{
  Place, away, push_start, push_full, push_state, push_reserve, push_write, push_set,
  push_invalidate, pop_start, pop_empty, pop_state, pop_reserve, pop_read, pop_clear,
  pop_clear_thrown, pop_skip, pop_reset,
}
use google_concurrency_libra.LockFreeQueue.System.{Shared}
use google_concurrency_libra.LockFreeQueue.Slots.{Knows, Sound, Fills, Drains}

-- Positions of one slot are at least a whole round apart.
pub same_slot : (k l n : ℕ) → k % n ≡ l % n → k < l + n → l < k + n → k ≡ l
same_slot k l n e a b = grind (arith, div-add-mod)

-- A position a round later has the same slot.
pub next_round : (k l n : ℕ) → k ≡ l + n → k % n ≡ l % n
next_round k l n e = ap (λ m. m % n) e ∙ add-mod_right l n

module _ {A : Type 0} where
  -- After `reserve_tail` of thread `i`.
  pub other-reserve_tail :
      {s : Shared A} (i j k : ℕ) (x : A) (q : Place A)
      → Sound s
      → i ≢ j
      → s.queue.tail ≡ k
      → k < s.queue.head + s.queue.cardinality
      → s.queue.value_state (k % s.queue.cardinality) ≡ waiting
      → Knows j q s
      → Knows j q (record s {
        queue = record s.queue { tail = k + 1 };
        accepted = update s.accepted k (x ∷ s.accepted k);
        pusher = update s.pusher k i;
      })
  unfolding Knows
  other-reserve_tail {s = s} i j k x away v ne e room w h = tt
  other-reserve_tail {s = s} i j k x (push_start y) v ne e room w h = tt
  other-reserve_tail {s = s} i j k x (push_full y tail) v ne e room w h =
      ground (arith, same_slot k tail s.queue.cardinality)
  other-reserve_tail {s = s} i j k x (push_state y tail) v ne e room w h =
      ground (arith, same_slot k tail s.queue.cardinality)
  other-reserve_tail {s = s} i j k x (push_reserve y tail) v ne e room w h =
      ground (arith, same_slot k tail s.queue.cardinality)
  other-reserve_tail {s = s} i j k x (push_write y tail) v ne e room w h =
      ground (arith, same_slot k tail s.queue.cardinality)
  other-reserve_tail {s = s} i j k x (push_set y tail) v ne e room w h =
      ground (arith, same_slot k tail s.queue.cardinality)
  other-reserve_tail {s = s} i j k x (push_invalidate tail) v ne e room w h = h
  other-reserve_tail {s = s} i j k x pop_start v ne e room w h = tt
  other-reserve_tail {s = s} i j k x (pop_empty head) v ne e room w h =
      ground (arith, next_round k head s.queue.cardinality)
  other-reserve_tail {s = s} i j k x (pop_state head) v ne e room w h =
      ground (arith, next_round k head s.queue.cardinality)
  other-reserve_tail {s = s} i j k x (pop_reserve head) v ne e room w h =
      ground (arith, next_round k head s.queue.cardinality)
  other-reserve_tail {s = s} i j k x (pop_read head) v ne e room w h =
      ground (arith, next_round k head s.queue.cardinality)
  other-reserve_tail {s = s} i j k x (pop_clear head y) v ne e room w h =
      ground (arith, next_round k head s.queue.cardinality)
  other-reserve_tail {s = s} i j k x (pop_clear_thrown head) v ne e room w h = h
  other-reserve_tail {s = s} i j k x (pop_skip head) v ne e room w h = h
  other-reserve_tail {s = s} i j k x (pop_reset head) v ne e room w h = h

  -- After `write_value`.
  pub other-write_value :
      {s : Shared A} (i j k : ℕ) (x : A) (q : Place A)
      → Sound s
      → i ≢ j
      → Fills i x k s
      → Knows j q s
      → Knows j q (record s {
        queue = record s.queue { values = update s.queue.values (k % s.queue.cardinality) x };
      })
  unfolding Knows
  other-write_value {s = s} i j k x away v ne f h = tt
  other-write_value {s = s} i j k x (push_start y) v ne f h = tt
  other-write_value {s = s} i j k x (push_full y tail) v ne f h =
      ground (arith, same_slot k tail s.queue.cardinality)
  other-write_value {s = s} i j k x (push_state y tail) v ne f h =
      ground (arith, same_slot k tail s.queue.cardinality)
  other-write_value {s = s} i j k x (push_reserve y tail) v ne f h =
      ground (arith, same_slot k tail s.queue.cardinality)
  other-write_value {s = s} i j k x (push_write y tail) v ne f h =
      ground (arith, same_slot k tail s.queue.cardinality)
  other-write_value {s = s} i j k x (push_set y tail) v ne f h =
      ground (arith, same_slot k tail s.queue.cardinality)
  other-write_value {s = s} i j k x (push_invalidate tail) v ne f h = h
  other-write_value {s = s} i j k x pop_start v ne f h = tt
  other-write_value {s = s} i j k x (pop_empty head) v ne f h =
      ground (arith, same_slot k head s.queue.cardinality)
  other-write_value {s = s} i j k x (pop_state head) v ne f h =
      ground (arith, same_slot k head s.queue.cardinality)
  other-write_value {s = s} i j k x (pop_reserve head) v ne f h =
      ground (arith, same_slot k head s.queue.cardinality)
  other-write_value {s = s} i j k x (pop_read head) v ne f h =
      ground (arith, same_slot k head s.queue.cardinality)
  other-write_value {s = s} i j k x (pop_clear head y) v ne f h =
      ground (arith, same_slot k head s.queue.cardinality)
  other-write_value {s = s} i j k x (pop_clear_thrown head) v ne f h = h
  other-write_value {s = s} i j k x (pop_skip head) v ne f h = h
  other-write_value {s = s} i j k x (pop_reset head) v ne f h = h

  -- After `set_state`.
  pub other-set_state :
      {s : Shared A} (i j k : ℕ) (x : A) (q : Place A)
      → Sound s
      → i ≢ j
      → Fills i x k s
      → Knows j q s
      → Knows j q (record s {
        queue = record s.queue {
          value_state = update s.queue.value_state (k % s.queue.cardinality) valid;
        };
      })
  unfolding Knows
  other-set_state {s = s} i j k x away v ne f h = tt
  other-set_state {s = s} i j k x (push_start y) v ne f h = tt
  other-set_state {s = s} i j k x (push_full y tail) v ne f h =
      ground (arith, same_slot k tail s.queue.cardinality)
  other-set_state {s = s} i j k x (push_state y tail) v ne f h =
      ground (arith, same_slot k tail s.queue.cardinality)
  other-set_state {s = s} i j k x (push_reserve y tail) v ne f h =
      ground (arith, same_slot k tail s.queue.cardinality)
  other-set_state {s = s} i j k x (push_write y tail) v ne f h =
      ground (arith, same_slot k tail s.queue.cardinality)
  other-set_state {s = s} i j k x (push_set y tail) v ne f h =
      ground (arith, same_slot k tail s.queue.cardinality)
  other-set_state {s = s} i j k x (push_invalidate tail) v ne f h = h
  other-set_state {s = s} i j k x pop_start v ne f h = tt
  other-set_state {s = s} i j k x (pop_empty head) v ne f h =
      ground (arith, same_slot k head s.queue.cardinality)
  other-set_state {s = s} i j k x (pop_state head) v ne f h =
      ground (arith, same_slot k head s.queue.cardinality)
  other-set_state {s = s} i j k x (pop_reserve head) v ne f h =
      ground (arith, same_slot k head s.queue.cardinality)
  other-set_state {s = s} i j k x (pop_read head) v ne f h =
      ground (arith, same_slot k head s.queue.cardinality)
  other-set_state {s = s} i j k x (pop_clear head y) v ne f h =
      ground (arith, same_slot k head s.queue.cardinality)
  other-set_state {s = s} i j k x (pop_clear_thrown head) v ne f h = h
  other-set_state {s = s} i j k x (pop_skip head) v ne f h = h
  other-set_state {s = s} i j k x (pop_reset head) v ne f h = h

  -- After `reserve_head`.
  pub other-reserve_head :
      {s : Shared A} (i j k : ℕ) (q : Place A)
      → Sound s
      → i ≢ j
      → s.queue.head ≡ k
      → k < s.queue.tail
      → s.queue.value_state (k % s.queue.cardinality) ≡ valid
      → Knows j q s
      → Knows j q
          (record s { queue = record s.queue { head = k + 1 }; popper = update s.popper k i })
  unfolding Knows
  other-reserve_head {s = s} i j k away v ne e l w h = tt
  other-reserve_head {s = s} i j k (push_start y) v ne e l w h = tt
  other-reserve_head {s = s} i j k (push_full y tail) v ne e l w h =
      ground (arith, same_slot k tail s.queue.cardinality)
  other-reserve_head {s = s} i j k (push_state y tail) v ne e l w h =
      ground (arith, same_slot k tail s.queue.cardinality)
  other-reserve_head {s = s} i j k (push_reserve y tail) v ne e l w h =
      ground (arith, same_slot k tail s.queue.cardinality)
  other-reserve_head {s = s} i j k (push_write y tail) v ne e l w h =
      ground (arith, same_slot k tail s.queue.cardinality)
  other-reserve_head {s = s} i j k (push_set y tail) v ne e l w h =
      ground (arith, same_slot k tail s.queue.cardinality)
  other-reserve_head {s = s} i j k (push_invalidate tail) v ne e l w h = h
  other-reserve_head {s = s} i j k pop_start v ne e l w h = tt
  other-reserve_head {s = s} i j k (pop_empty head) v ne e l w h =
      ground (arith, same_slot k head s.queue.cardinality)
  other-reserve_head {s = s} i j k (pop_state head) v ne e l w h =
      ground (arith, same_slot k head s.queue.cardinality)
  other-reserve_head {s = s} i j k (pop_reserve head) v ne e l w h =
      ground (arith, same_slot k head s.queue.cardinality)
  other-reserve_head {s = s} i j k (pop_read head) v ne e l w h =
      ground (arith, same_slot k head s.queue.cardinality)
  other-reserve_head {s = s} i j k (pop_clear head y) v ne e l w h =
      ground (arith, same_slot k head s.queue.cardinality)
  other-reserve_head {s = s} i j k (pop_clear_thrown head) v ne e l w h = h
  other-reserve_head {s = s} i j k (pop_skip head) v ne e l w h = h
  other-reserve_head {s = s} i j k (pop_reset head) v ne e l w h = h

  -- After `clear_value`.
  pub other-clear_value :
      {s : Shared A} (i j k : ℕ) (x : A) (q : Place A)
      → Sound s
      → i ≢ j
      → Drains i k s
      → Knows j q s
      → Knows j q (record s {
        queue = record s.queue {
          value_state = update s.queue.value_state (k % s.queue.cardinality) waiting;
        };
        delivered = update s.delivered k (x ∷ s.delivered k);
      })
  unfolding Knows
  other-clear_value {s = s} i j k x away v ne d h = tt
  other-clear_value {s = s} i j k x (push_start y) v ne d h = tt
  other-clear_value {s = s} i j k x (push_full y tail) v ne d h =
      ground (arith, same_slot k tail s.queue.cardinality)
  other-clear_value {s = s} i j k x (push_state y tail) v ne d h =
      ground (arith, same_slot k tail s.queue.cardinality)
  other-clear_value {s = s} i j k x (push_reserve y tail) v ne d h =
      ground (arith, same_slot k tail s.queue.cardinality)
  other-clear_value {s = s} i j k x (push_write y tail) v ne d h =
      ground (arith, same_slot k tail s.queue.cardinality)
  other-clear_value {s = s} i j k x (push_set y tail) v ne d h =
      ground (arith, same_slot k tail s.queue.cardinality)
  other-clear_value {s = s} i j k x (push_invalidate tail) v ne d h = h
  other-clear_value {s = s} i j k x pop_start v ne d h = tt
  other-clear_value {s = s} i j k x (pop_empty head) v ne d h =
      ground (arith, same_slot k head s.queue.cardinality)
  other-clear_value {s = s} i j k x (pop_state head) v ne d h =
      ground (arith, same_slot k head s.queue.cardinality)
  other-clear_value {s = s} i j k x (pop_reserve head) v ne d h =
      ground (arith, same_slot k head s.queue.cardinality)
  other-clear_value {s = s} i j k x (pop_read head) v ne d h =
      ground (arith, same_slot k head s.queue.cardinality)
  other-clear_value {s = s} i j k x (pop_clear head y) v ne d h =
      ground (arith, same_slot k head s.queue.cardinality)
  other-clear_value {s = s} i j k x (pop_clear_thrown head) v ne d h = h
  other-clear_value {s = s} i j k x (pop_skip head) v ne d h = h
  other-clear_value {s = s} i j k x (pop_reset head) v ne d h = h
