-- ===== src/BufferQueue.antt =====
-- include/buffer_queue.h: a bounded queue in a circular array, under one mutex.
-- A function is one critical section of the code: the state that it leaves, the condition variables
-- that it signals, and how it ends. `throws a` says whether assigning the element `a` throws; an
-- assignment that does not throw stores the element. The copying and the moving overloads differ
-- in that assignment alone.
pub mod Ring
pub mod Bounds
pub mod Fifo
pub mod Calls
pub mod Refine
pub mod Order
pub mod Filled
pub mod Blocking
pub mod Throwing
pub mod Monitor
mod Tests
pub mod Wait
pub mod Construct
use google_concurrency_libra.Base.{
  ℕ, ◌+◌, ◌-◌, ◌%◌, ◌^◌, Bool, true, false, List, [], ◌∷◌, ◌++◌, Option, some, none, ltb, ◌==◌,
  if◌then◌else◌, set, get_elem?, replicate,
}
use google_concurrency_libra.Outcome.{
  QueueOpStatus, success, empty, full, closed, busy, copy_failed, invalid_argument, Outcome,
  returned, thrown, fault,
}

pub record BufferQueue {ℓ} (A : Type ℓ) : Type ℓ where
  pub waiting_full : ℕ
  pub waiting_empty : ℕ
  pub buffer : List A
  pub push_index : ℕ
  pub pop_index : ℕ
  pub num_slots : ℕ
  pub is_shut : Bool  -- `closed_`

-- Calls on `not_empty_` and `not_full_`.
pub data Signal : Type 0 where
  one_not_empty one_not_full all_not_empty all_not_full : Signal

pub record Section {ℓ κ} (A : Type ℓ) (R : Type κ) : Type (ℓ ⊔ κ) where
  pub after : BufferQueue A
  pub signals : List Signal
  pub outcome : Outcome R

-- `size_t` addition
abbrev pub add_size : ℕ → ℕ → ℕ
add_size a b = (a + b) % 2 ^ 64

module _ {ℓ} {A : Type ℓ} where
  pub next : BufferQueue A → ℕ → ℕ
  next q idx = add_size idx 1 % q.num_slots

  pub push_reindex : BufferQueue A → ℕ → BufferQueue A × List Signal
  push_reindex q nxt =
      if ltb 0 q.waiting_empty
      then (record q { push_index = nxt; waiting_empty = q.waiting_empty - 1 }, one_not_empty ∷ [])
      else (record q { push_index = nxt }, [])

  unfoldable pub close : BufferQueue A → Section A (Unit {0})
  close q = record {
    after = record q { is_shut = true };
    signals = all_not_empty ∷ all_not_full ∷ [];
    outcome = returned tt;
  }

  pub is_closed : BufferQueue A → Bool
  is_closed q = q.is_shut

  pub is_empty : BufferQueue A → Bool
  is_empty q = q.push_index == q.pop_index

  -- `buffer_queue(max_elems)`: the members, with `new Value[max_elems + 1]`, before `init`.
  members : A → ℕ → BufferQueue A
  members initial max_elems = record {
    waiting_full = 0;
    waiting_empty = 0;
    buffer = replicate (add_size max_elems 1) initial;
    push_index = 0;
    pop_index = 0;
    num_slots = add_size max_elems 1;
    is_shut = false;
  }

  pub construct : A → ℕ → Outcome (BufferQueue A)
  unfolding members
  construct initial max_elems =
      if ltb max_elems 1 then thrown invalid_argument else returned (members initial max_elems)

module _ {ℓ} {A : Type ℓ} (throws : A → Bool) where
  -- The handler `catch (...) { close(); throw; }`.
  pub close_on_throw {κ} : {R : Type κ} → Section A R → Section A R
  unfolding close
  close_on_throw s = elim s.outcome [
    | returned r ↦ s
    | thrown e ↦ record {
      after = (close s.after).after;
      signals = s.signals ++ (close s.after).signals;
      outcome = thrown e;
    }
    | fault ↦ s
  ]

  -- The index moves, and a waiting producer is notified, before the element is assigned.
  pub pop_from : BufferQueue A → ℕ → Section A (QueueOpStatus × Option A)
  unfolding next
  pop_from q pdx =
      let moved : BufferQueue A = record q { pop_index = next q pdx } in
      record {
        after =
            if ltb 0 q.waiting_full
            then record moved { waiting_full = q.waiting_full - 1 }
            else moved;
        signals = if ltb 0 q.waiting_full then one_not_full ∷ [] else [];
        outcome = elim (get_elem? q.buffer pdx) [
          | none ↦ fault
          | some a ↦ if throws a then thrown copy_failed else returned (success, some a)
        ];
      }

  -- The element is assigned before the index moves.
  pub push_at : BufferQueue A → A → ℕ → ℕ → Section A QueueOpStatus
  unfolding push_reindex
  push_at q elem hdx nxt =
      if throws elem
      then record { after = q; signals = []; outcome = thrown copy_failed }
      else (let written : BufferQueue A = record q { buffer = set q.buffer hdx elem } in
          record {
            after = (push_reindex written nxt).0;
            signals = (push_reindex written nxt).1;
            outcome = returned success;
          })

  pub try_pop_common : BufferQueue A → Section A (QueueOpStatus × Option A)
  unfolding pop_from
  try_pop_common q =
      if q.pop_index == q.push_index
      then record {
        after = q;
        signals = [];
        outcome = returned (if q.is_shut then closed else empty, none);
      }
      else pop_from q q.pop_index

  pub try_push_common : BufferQueue A → A → Section A QueueOpStatus
  unfolding push_at next
  try_push_common q elem =
      if q.is_shut
      then record { after = q; signals = []; outcome = returned closed }
      else (if next q q.push_index == q.pop_index
          then record { after = q; signals = []; outcome = returned full }
          else push_at q elem q.push_index (next q q.push_index))

  pub try_pop : BufferQueue A → Section A (QueueOpStatus × Option A)
  unfolding close_on_throw try_pop_common
  try_pop q = close_on_throw (try_pop_common q)

  pub try_push : BufferQueue A → A → Section A QueueOpStatus
  unfolding close_on_throw try_push_common
  try_push q elem = close_on_throw (try_push_common q elem)

  -- `owns_lock` is the answer of `try_to_lock`.
  pub nonblocking_pop : Bool → BufferQueue A → Section A (QueueOpStatus × Option A)
  unfolding try_pop
  nonblocking_pop owns_lock q =
      if owns_lock
      then try_pop q
      else record { after = q; signals = []; outcome = returned (busy, none) }

  pub nonblocking_push : Bool → BufferQueue A → A → Section A QueueOpStatus
  unfolding try_push
  nonblocking_push owns_lock q elem =
      if owns_lock
      then try_push q elem
      else record { after = q; signals = []; outcome = returned busy }
