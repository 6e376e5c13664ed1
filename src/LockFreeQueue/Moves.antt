-- ===== src/LockFreeQueue/Moves.antt =====
-- The calls `nonblocking_push` and `nonblocking_pop` of include/lock_free_buffer_queue.h, one access to
-- a shared member at a time. A place holds the local variables of its thread.
use google_concurrency_libra.Base.{Bool, ℕ, ◌+◌, Option, none, some, ◌==◌, if◌then◌else◌, update}
use google_concurrency_libra.Outcome.{QueueOpStatus, success, empty, full, busy}
use google_concurrency_libra.LockFreeQueue.{
  LockFreeQueue, valid, waiting, invalid, slot, clear_value, set_state,
}

pub data Place (A : Type 0) : Type 0 where
  away : Place A
  push_start : A → Place A
  push_full : A → ℕ → Place A  -- has loaded `tail_`
  push_state : A → ℕ → Place A  -- has seen room
  push_reserve : A → ℕ → Place A  -- has seen a waiting slot
  push_write : A → ℕ → Place A  -- has moved `tail_`
  push_set : A → ℕ → Place A  -- has written the element
  push_invalidate : ℕ → Place A  -- its assignment has thrown
  pop_start : Place A
  pop_empty : ℕ → Place A  -- has loaded `head_`
  pop_state : ℕ → Place A  -- has seen an element
  pop_reserve : ℕ → Place A  -- has seen a valid slot
  pop_read : ℕ → Place A  -- has moved `head_`
  pop_clear : ℕ → A → Place A  -- has read the element
  pop_clear_thrown : ℕ → Place A  -- its assignment has thrown
  pop_skip : ℕ → Place A  -- has seen an invalid slot
  pop_reset : ℕ → Place A  -- has tried to move `head_` past it

-- What a call gives its caller.
pub data Answer (A : Type 0) : Type 0 where
  pushed : QueueOpStatus → Answer A
  popped : QueueOpStatus → Option A → Answer A
  threw : Answer A

-- A step to another place, or the end of a call.
pub data Move (A : Type 0) : Type 0 where
  goes : LockFreeQueue A → Place A → Move A
  ends : LockFreeQueue A → Answer A → Move A

module _ {A : Type 0} (throws : A → Bool) (spurious : Bool) where
  unfoldable pub reserve_tail : LockFreeQueue A → A → ℕ → Move A
  reserve_tail q x tail =
      if q.tail == tail
      then goes (record q { tail = tail + 1 }) (push_write x tail)
      else ends q (pushed busy)

  unfoldable pub write_value : LockFreeQueue A → A → ℕ → Move A
  unfolding slot
  write_value q x tail =
      if throws x
      then goes q (push_invalidate tail)
      else goes (record q { values = update q.values (slot q tail) x }) (push_set x tail)

  unfoldable pub reserve_head : LockFreeQueue A → ℕ → Move A
  reserve_head q head =
      if q.head == head
      then goes (record q { head = head + 1 }) (pop_read head)
      else ends q (popped busy none)

  unfoldable pub read_value : LockFreeQueue A → ℕ → Move A
  unfolding slot
  read_value q head =
      if throws (q.values (slot q head))
      then goes q (pop_clear_thrown head)
      else goes q (pop_clear head (q.values (slot q head)))

  -- The strong exchange of `head_` past an invalid slot, whose result is not looked at.
  unfoldable pub skip_head : LockFreeQueue A → ℕ → Move A
  skip_head q head =
      if q.head == head
      then goes (record q { head = head + 1 }) (pop_reset head)
      else goes q (pop_reset head)

  unfoldable pub advance : LockFreeQueue A → Place A → Move A
  unfolding reserve_tail write_value reserve_head read_value skip_head slot clear_value set_state
  advance q away = goes q away
  advance q (push_start x) = goes q (push_full x q.tail)
  advance q (push_full x tail) =
      if tail == q.head + q.cardinality then ends q (pushed full) else goes q (push_state x tail)
  advance q (push_state x tail) = elim (q.value_state (slot q tail)) [
    | valid ↦ ends q (pushed busy)
    | waiting ↦ goes q (push_reserve x tail)
    | invalid ↦ ends q (pushed busy)
  ]
  advance q (push_reserve x tail) = reserve_tail q x tail
  advance q (push_write x tail) = write_value q x tail
  advance q (push_set x tail) = ends (set_state spurious valid (slot q tail) q) (pushed success)
  advance q (push_invalidate tail) = ends (set_state spurious invalid (slot q tail) q) threw
  advance q pop_start = goes q (pop_empty q.head)
  advance q (pop_empty head) =
      if head == q.tail then ends q (popped empty none) else goes q (pop_state head)
  advance q (pop_state head) = elim (q.value_state (slot q head)) [
    | valid ↦ goes q (pop_reserve head)
    | waiting ↦ ends q (popped busy none)
    | invalid ↦ goes q (pop_skip head)
  ]
  advance q (pop_reserve head) = reserve_head q head
  advance q (pop_read head) = read_value q head
  advance q (pop_clear head x) =
      ends (clear_value spurious valid (slot q head) q) (popped success (some x))
  advance q (pop_clear_thrown head) = ends (clear_value spurious valid (slot q head) q) threw
  advance q (pop_skip head) = skip_head q head
  advance q (pop_reset head) =
      ends (clear_value spurious invalid (slot q head) q) (popped busy none)
