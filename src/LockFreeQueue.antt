-- ===== src/LockFreeQueue.antt =====
-- include/lock_free_buffer_queue.h: a bounded queue without a mutex. Positions are handed out by two
-- counters, which are taken never to reach 2 ^ 64, as the source takes them. Each access to an atomic
-- member, and each assignment of an element, is a step of its own, and all see one order of the
-- accesses. The arrays are functions of the slot. Copying and moving an element are one definition.
pub mod Moves
pub mod System
pub mod Slots
pub mod Frame
pub mod Keeps
pub mod Steps
pub mod Fifo
pub mod Blocked
pub mod StaleReset
pub mod Loops
pub mod Quiet
pub mod Cleared
pub mod Alone
mod Tests
use google_concurrency_libra.Base.{
  Bool, ℕ, zero, suc, ◌+◌, ◌%◌, ◌^◌, ltb, Option, none, some, true, false, ◌==◌, if◌then◌else◌, ◌≡◌,
  refl, ◌⊎◌, inl, inr, update,
}
use google_concurrency_libra.Outcome.{Outcome, returned, thrown, invalid_argument}

pub data ValueState : Type 0 where
  valid waiting invalid : ValueState

pub ValueState-cases : (w : ValueState) → (w ≡ valid) ⊎ (w ≡ waiting) ⊎ (w ≡ invalid)
ValueState-cases valid = inl refl
ValueState-cases waiting = inr (inl refl)
ValueState-cases invalid = inr (inr refl)

pub record LockFreeQueue (A : Type 0) : Type 0 where
  pub cardinality : ℕ
  pub head : ℕ
  pub tail : ℕ
  pub value_state : ℕ → ValueState
  pub values : ℕ → A

-- The comparison of the compare-and-exchange calls.
pub is_state : ValueState → ValueState → Bool
is_state valid valid = true
is_state valid waiting = false
is_state valid invalid = false
is_state waiting valid = false
is_state waiting waiting = true
is_state waiting invalid = false
is_state invalid valid = false
is_state invalid waiting = false
is_state invalid invalid = true

-- The loop of `init` from the index `i`, an `unsigned int` of 32 bits: it ends when the index is not
-- below the capacity, and `none` means that the fuel, a number of rounds, has run out.
unfoldable pub reset_states : ℕ → ℕ → ℕ → (ℕ → ValueState) → Option (ℕ → ValueState)
reset_states zero i n states = none
reset_states (suc fuel) i n states =
    let rest = reset_states fuel ((i + 1) % 2 ^ 32) n (update states i waiting) in
    if ltb i n then rest else some states

module _ {A : Type 0} where
  -- `init`; `blank` is a value-initialised element, and `states` what the new array of states holds.
  pub construct : ℕ → (ℕ → ValueState) → A → ℕ → Option (Outcome (LockFreeQueue A))
  unfolding reset_states
  construct fuel states blank max_elems =
      if max_elems == 0
      then some (thrown invalid_argument)
      else elim (reset_states fuel 0 max_elems states) [
        | none ↦ none
        | some reset ↦ some (
            returned (record {
              cardinality = max_elems;
              head = 0;
              tail = 0;
              value_state = reset;
              values = λ p. blank;
            }))
      ]

  pub is_empty : LockFreeQueue A → Bool
  is_empty q = q.head == q.tail

  pub is_full : LockFreeQueue A → Bool
  is_full q = q.tail == q.head + q.cardinality

  pub slot : LockFreeQueue A → ℕ → ℕ
  slot q ticket = ticket % q.cardinality

  -- A weak exchange may fail although the slot has the expected state: then `spurious` is true.
  pub clear_value : Bool → ValueState → ℕ → LockFreeQueue A → LockFreeQueue A
  unfolding is_state
  clear_value spurious old pos q =
      if spurious
      then q
      else (if is_state (q.value_state pos) old
          then record q { value_state = update q.value_state pos waiting }
          else q)

  pub set_state : Bool → ValueState → ℕ → LockFreeQueue A → LockFreeQueue A
  unfolding is_state
  set_state spurious new pos q =
      if spurious
      then q
      else (if is_state (q.value_state pos) waiting
          then record q { value_state = update q.value_state pos new }
          else q)
