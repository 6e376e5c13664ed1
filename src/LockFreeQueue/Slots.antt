-- ===== src/LockFreeQueue/Slots.antt =====
-- What holds at each place of the code of include/lock_free_buffer_queue.h, as long as no assignment
-- throws and no weak exchange fails spuriously.
use google_concurrency_libra.Base.{
  ℕ, ◌+◌, ◌%◌, ◌<◌, ◌≤◌, ◌≡◌, ◌⊎◌, [], ◌∷◌, ◌≢◌, length, Bool, true, false, ◌==◌,
}
use google_concurrency_libra.LockFreeQueue.{valid, waiting, invalid}
use google_concurrency_libra.LockFreeQueue.Moves.{
  Place, away, push_start, push_full, push_state, push_reserve, push_write, push_set,
  push_invalidate, pop_start, pop_empty, pop_state, pop_reserve, pop_read, pop_clear,
  pop_clear_thrown, pop_skip, pop_reset,
}
use google_concurrency_libra.LockFreeQueue.System.{Shared}

module _ {A : Type 0} where
  -- Thread `i` has position `k` for its push, and the slot is still waiting.
  pub record Fills (i : ℕ) (x : A) (k : ℕ) (s : Shared A) : Type 0 where
    pub reserved : k < s.queue.tail
    pub unread : s.queue.head ≤ k
    pub mine : s.pusher k ≡ i
    pub given : s.accepted k ≡ x ∷ []
    pub open_slot : s.queue.value_state (k % s.queue.cardinality) ≡ waiting

  -- Thread `i` has position `k` for its pop, and the slot still holds the element.
  pub record Drains (i : ℕ) (k : ℕ) (s : Shared A) : Type 0 where
    pub reserved : k < s.queue.head
    pub unused : s.queue.tail ≤ k + s.queue.cardinality
    pub mine : s.popper k ≡ i
    pub fresh : s.delivered k ≡ []
    pub held : s.accepted k ≡ s.queue.values (k % s.queue.cardinality) ∷ []
    pub full_slot : s.queue.value_state (k % s.queue.cardinality) ≡ valid

  -- What thread `i` knows at a place.
  unfoldable pub Knows : ℕ → Place A → Shared A → Type 0
  Knows i away s = Unit
  Knows i (push_start x) s = Unit
  Knows i (push_full x tail) s = tail ≤ s.queue.tail
  Knows i (push_state x tail) s =
      (tail ≤ s.queue.tail) × (s.queue.tail ≡ tail → tail < s.queue.head + s.queue.cardinality)
  Knows i (push_reserve x tail) s =
      (tail ≤ s.queue.tail)
      × (s.queue.tail ≡ tail
          → (tail < s.queue.head + s.queue.cardinality)
            × (s.queue.value_state (tail % s.queue.cardinality) ≡ waiting))
  Knows i (push_write x tail) s = Fills i x tail s
  Knows i (push_set x tail) s = Fills i x tail s × (s.queue.values (tail % s.queue.cardinality) ≡ x)
  Knows i (push_invalidate tail) s = ⊥
  Knows i pop_start s = Unit
  Knows i (pop_empty head) s = head ≤ s.queue.head
  Knows i (pop_state head) s = (head ≤ s.queue.head) × (s.queue.head ≡ head → head < s.queue.tail)
  Knows i (pop_reserve head) s =
      (head ≤ s.queue.head)
      × (s.queue.head ≡ head
          → (head < s.queue.tail) × (s.queue.value_state (head % s.queue.cardinality) ≡ valid))
  Knows i (pop_read head) s = Drains i head s
  Knows i (pop_clear head x) s = Drains i head s × (s.accepted head ≡ x ∷ [])
  Knows i (pop_clear_thrown head) s = ⊥
  Knows i (pop_skip head) s = ⊥
  Knows i (pop_reset head) s = ⊥

  -- The positions between the counters.
  pub record Sound (s : Shared A) : Type 0 where
    pub some_slot : 0 < s.queue.cardinality
    pub ordered : s.queue.head ≤ s.queue.tail
    pub within : s.queue.tail ≤ s.queue.head + s.queue.cardinality
    pub stored :
        (k : ℕ)
        → s.queue.head ≤ k
        → k < s.queue.tail
        → s.queue.value_state (k % s.queue.cardinality) ≡ valid
        → s.accepted k ≡ s.queue.values (k % s.queue.cardinality) ∷ []
    pub later_free : (k : ℕ) → s.queue.tail ≤ k → s.accepted k ≡ []
    pub undelivered : (k : ℕ) → s.queue.head ≤ k → s.delivered k ≡ []
    pub settled : (k : ℕ) → (s.delivered k ≡ []) ⊎ (s.delivered k ≡ s.accepted k)
    pub once : (k : ℕ) → k < s.queue.tail → length (s.accepted k) ≡ 1
    pub never_invalid : (p : ℕ) → s.queue.value_state p ≢ invalid

  -- Whether a thread is about to deliver, or to make valid, this position.
  unfoldable pub delivers : ℕ → Place A → Bool
  delivers k away = false
  delivers k (push_start x) = false
  delivers k (push_full x l) = false
  delivers k (push_state x l) = false
  delivers k (push_reserve x l) = false
  delivers k (push_write x l) = false
  delivers k (push_set x l) = false
  delivers k (push_invalidate l) = false
  delivers k pop_start = false
  delivers k (pop_empty l) = false
  delivers k (pop_state l) = false
  delivers k (pop_reserve l) = false
  delivers k (pop_read l) = l == k
  delivers k (pop_clear l x) = l == k
  delivers k (pop_clear_thrown l) = false
  delivers k (pop_skip l) = false
  delivers k (pop_reset l) = false

  unfoldable pub fills : ℕ → Place A → Bool
  fills k away = false
  fills k (push_start x) = false
  fills k (push_full x l) = false
  fills k (push_state x l) = false
  fills k (push_reserve x l) = false
  fills k (push_write x l) = l == k
  fills k (push_set x l) = l == k
  fills k (push_invalidate l) = false
  fills k pop_start = false
  fills k (pop_empty l) = false
  fills k (pop_state l) = false
  fills k (pop_reserve l) = false
  fills k (pop_read l) = false
  fills k (pop_clear l x) = false
  fills k (pop_clear_thrown l) = false
  fills k (pop_skip l) = false
  fills k (pop_reset l) = false

  -- A position that `head_` has passed is delivered, or will be by the thread that moved `head_`, which
  -- stands at this place.
  abbrev pub Delivered : ℕ → Shared A → Place A → Type 0
  Delivered k s p = k < s.queue.head → (s.delivered k ≡ s.accepted k) ⊎ (delivers k p ≡ true)

  -- A position that only `tail_` has passed is valid, or will be.
  abbrev pub Filled : ℕ → Shared A → Place A → Type 0
  Filled k s p =
      s.queue.head ≤ k
      → k < s.queue.tail
      → (s.queue.value_state (k % s.queue.cardinality) ≡ valid) ⊎ (fills k p ≡ true)
