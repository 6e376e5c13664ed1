-- ===== src/PriorityQueue.antt =====
-- include/concurrent_priority_queue.h: a queue that gives out an element of the highest priority. The
-- heap algorithms of the standard library are a parameter, a record of their documented laws; the
-- comparator is the parameter of that record. A comparator is known by a name, `C`, and the heap
-- algorithms are given for each one; a queue holds the name of its own. The calls `push`,
-- `try_pop` and `pop` each hold the mutex, from start to end but for the wait of `pop`.
pub mod Served
mod Tests
use google_concurrency_libra.Base.{
  Bool, ℕ, ◌≡◌, true, false, List, [], ◌∷◌, ◌++◌, length, Option, some, none, if◌then◌else◌,
}
use mathlib.Core.List.{Perm}

module _ {A : Type 0} where
  -- No element of the list comes after `m` in the order.
  unfoldable pub NoneAbove : (A → A → Bool) → A → List A → Type 0
  NoneAbove less m [] = Unit
  NoneAbove less m (y ∷ ys) = (less m y ≡ false) × NoneAbove less m ys

-- `std::make_heap`, `std::push_heap`, `std::pop_heap` and `std::is_heap` on a whole container.
pub record HeapOps {A : Type 0} (less : A → A → Bool) : Type 0 where
  pub make_heap : List A → List A
  pub push_heap : List A → List A
  pub pop_heap : List A → List A
  pub is_heap : List A → Bool
  pub empty_heap : is_heap [] ≡ true
  pub make_heap_lem : (l : List A) → (is_heap (make_heap l) ≡ true) × Perm l (make_heap l)
  pub push_heap_lem :
      (l : List A) (x : A)
      → is_heap l ≡ true
      → (is_heap (push_heap (l ++ (x ∷ []))) ≡ true)
        × Perm (l ++ (x ∷ [])) (push_heap (l ++ (x ∷ [])))
  pub pop_heap_lem :
      (x : A) (l : List A)
      → is_heap (x ∷ l) ≡ true
      → (ys : List A) × (m : A) × (pop_heap (x ∷ l) ≡ ys ++ (m ∷ []))
        × (is_heap ys ≡ true)
        × Perm (x ∷ l) (ys ++ (m ∷ []))
        × NoneAbove less m ys

pub record PriorityQueue (C A : Type 0) : Type 0 where
  pub less : C
  pub cont : List A

module _ {A : Type 0} where
  unfoldable pub back : List A → Option A
  back [] = none
  back (x ∷ []) = some x
  back (x ∷ y ∷ l) = back (y ∷ l)

  unfoldable pub pop_back : List A → List A
  pop_back [] = []
  pop_back (x ∷ []) = []
  pop_back (x ∷ y ∷ l) = x ∷ pop_back (y ∷ l)

module _ {C A : Type 0} where
  unfoldable pub construct : C → PriorityQueue C A
  construct less = record { less = less; cont = [] }

  -- The constructor and the assignment from another queue.
  unfoldable pub copy : PriorityQueue C A → PriorityQueue C A
  copy other = record { less = other.less; cont = other.cont }

  unfoldable pub swap :
      PriorityQueue C A × PriorityQueue C A → PriorityQueue C A × PriorityQueue C A
  swap (q, other) =
      (record { less = other.less; cont = other.cont }, record { less = q.less; cont = q.cont })

  unfoldable pub empty : PriorityQueue C A → Bool
  empty q = elim q.cont [ [] ↦ true | _ ∷ _ ↦ false ]

  unfoldable pub size : PriorityQueue C A → ℕ
  size q = length q.cont

module _ {C A : Type 0} {order : C → A → A → Bool} (heap : (c : C) → HeapOps (order c)) where
  unfoldable pub construct_from : C → List A → PriorityQueue C A
  construct_from less cont = record { less = less; cont = (heap less).make_heap cont }

  -- The constructor from a range and a container.
  unfoldable pub construct_range : List A → C → List A → PriorityQueue C A
  construct_range range less cont = record {
    less = less;
    cont = (heap less).make_heap (cont ++ range);
  }

  -- `update` to another comparator.
  unfoldable pub update : C → PriorityQueue C A → PriorityQueue C A
  update less q = record { less = less; cont = (heap less).make_heap q.cont }

  -- The queue after a push, which then notifies all waiting threads.
  unfoldable pub push : A → PriorityQueue C A → PriorityQueue C A
  push x q = record q { cont = (heap q.less).push_heap (q.cont ++ (x ∷ [])) }

  unfoldable pub do_pop : PriorityQueue C A → Option A × PriorityQueue C A
  unfolding empty
  do_pop q = if empty q then (none, q) else (
    back ((heap q.less).pop_heap q.cont),
    record q { cont = pop_back ((heap q.less).pop_heap q.cont) },
  )

  unfoldable pub try_pop : PriorityQueue C A → Option A × PriorityQueue C A
  unfolding do_pop
  try_pop q = do_pop q

  -- `pop`, where the list is what others do at each wait; it still waits if the list ends first.
  unfoldable pub pop :
      List (PriorityQueue C A → PriorityQueue C A)
      → PriorityQueue C A
      → Option A × PriorityQueue C A
  unfolding do_pop
  pop [] q = do_pop q
  pop (others ∷ rest) q =
      let later = pop rest (others q) in elim (do_pop q).0 [ none ↦ later | some x ↦ do_pop q ]
