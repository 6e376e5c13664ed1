-- ===== src/LockFreeQueue/Quiet.antt =====
-- A queue of include/lock_free_buffer_queue.h while no call is under way, and what a push adds to it.
use google_concurrency_libra.LockFreeQueue.Frame.{same_slot}
use google_concurrency_libra.Base.{
  ℕ, ◌+◌, ◌%◌, ◌<◌, ◌≤◌, ◌≡◌, arith, zero, suc, ◌-◌, ap, List, [], ◌∷◌, ◌++◌, ◌∙◌, update,
}
use google_concurrency_libra.LockFreeQueue.{LockFreeQueue, valid, waiting}

same_position : (m k n : ℕ) → m ≡ k → m % n ≡ k % n
same_position m k n e = ap (λ l. l % n) e

module _ {A : Type 0} where
  -- No call is under way: the slots between the counters are valid, the others wait.
  pub record IsQuiet (q : LockFreeQueue A) : Type 0 where
    pub some_slot : 0 < q.cardinality
    pub ordered : q.head ≤ q.tail
    pub within : q.tail ≤ q.head + q.cardinality
    pub used : (k : ℕ) → q.head ≤ k → k < q.tail → q.value_state (k % q.cardinality) ≡ valid
    pub free :
        (k : ℕ)
        → q.tail ≤ k
        → k < q.head + q.cardinality
        → q.value_state (k % q.cardinality) ≡ waiting

  unfoldable pub with_pushed : LockFreeQueue A → A → LockFreeQueue A
  with_pushed q x = record q {
    tail = q.tail + 1;
    values = update q.values (q.tail % q.cardinality) x;
    value_state = update q.value_state (q.tail % q.cardinality) valid;
  }

  -- The elements of `n` positions from `k` on.
  unfoldable pub elements : LockFreeQueue A → ℕ → ℕ → List A
  elements q k zero = []
  elements q k (suc n) = q.values (k % q.cardinality) ∷ elements q (suc k) n

  unfoldable pub contents : LockFreeQueue A → List A
  unfolding elements
  contents q = elements q q.head (q.tail - q.head)

  -- A push does not touch the elements before it.
  elements-with_pushed :
      (q : LockFreeQueue A) (x : A) (k n : ℕ)
      → q.head ≤ k
      → k + n ≡ q.tail
      → q.tail < q.head + q.cardinality
      → elements (with_pushed q x) k (suc n) ≡ elements q k n ++ x ∷ []
  unfolding elements with_pushed
  elements-with_pushed q x k zero l e room = ground (arith, same_position k q.tail q.cardinality)
  elements-with_pushed q x k (suc n) l e room =
      let r = elements-with_pushed q x (suc k) n (omega arith) (omega arith) room in
      ground (arith, same_slot k q.tail q.cardinality, r)

  pub contents-with_pushed :
      (q : LockFreeQueue A) (x : A)
      → IsQuiet q
      → q.tail < q.head + q.cardinality
      → contents (with_pushed q x) ≡ contents q ++ x ∷ []
  unfolding contents with_pushed
  contents-with_pushed q x v room =
      ap (elements (with_pushed q x) q.head) {y = suc (q.tail - q.head)} (omega arith)
      ∙ elements-with_pushed q x q.head (q.tail - q.head) (omega arith) (omega arith) room

  pub with_pushed-IsQuiet :
      (q : LockFreeQueue A) (x : A)
      → IsQuiet q
      → q.tail < q.head + q.cardinality
      → IsQuiet (with_pushed q x)
  unfolding with_pushed
  with_pushed-IsQuiet q x v room = record {
    some_slot = v.some_slot;
    ordered = ground (arith, v.ordered);
    within = ground arith;
    used = λ k a b. ground (arith, v.used k, same_slot k q.tail q.cardinality);
    free = λ k a b. ground (arith, v.free k, same_slot k q.tail q.cardinality);
  }
