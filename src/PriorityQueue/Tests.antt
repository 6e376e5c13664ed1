-- ===== src/PriorityQueue/Tests.antt =====
-- Heap operations on lists of numbers, and uses of the queue of include/concurrent_priority_queue.h with
-- them.
use google_concurrency_libra.PriorityQueue.Served.{
  serve, Call, Serves, pushes, history_lem, pops, updates,
}
use google_concurrency_libra.Base.{
  Bool, false, ◌-◌, ℕ, ◌≡◌, refl, List, [], ◌∷◌, ◌++◌, if◌then◌else◌, ltb, arith, ◌≤◌, true, some,
  dec_lt,
}
use google_concurrency_libra.PriorityQueue.{
  NoneAbove, pop, HeapOps, construct_range, construct, push, try_pop, do_pop, back, pop_back, empty,
  update,
}
use mathlib.Core.List.{Perm}
use mathlib.Core.List.Perm

-- Two comparators of numbers: the less, and the greater of those up to 100.
abbrev key : Bool → ℕ → ℕ
key true x = x
key false x = 100 - x

abbrev by_key : Bool → ℕ → ℕ → Bool
by_key c x y = ltb (key c x) (key c y)

-- The number with the greatest key goes to the end; any list is a heap.
module _ (c : Bool) where
  bubble : ℕ → List ℕ → List ℕ
  bubble x [] = x ∷ []
  bubble x (y ∷ l) =
      let up = bubble x l in
      let stay = bubble y l in if ltb (key c y) (key c x) then y ∷ up else x ∷ stay

  bubbled : List ℕ → List ℕ
  unfolding bubble
  bubbled [] = []
  bubbled (x ∷ l) = bubble x l

  record Bubbled (x : ℕ) (l : List ℕ) : Type 0 where
    others : List ℕ
    greatest : ℕ
    ends : bubble x l ≡ others ++ (greatest ∷ [])
    same : Perm (x ∷ l) (others ++ (greatest ∷ []))
    none_above : NoneAbove (by_key c) greatest others
    first : key c x ≤ key c greatest

  bubble_lem : (x : ℕ) (l : List ℕ) → Bubbled x l
  unfolding bubble NoneAbove
  bubble_lem x [] = record {
    others = [];
    greatest = x;
    ends = refl;
    same = Perm.refl (x ∷ []);
    none_above = tt;
    first = omega arith;
  }
  bubble_lem x (y ∷ l) =
      let u : Bubbled x l = bubble_lem x l in
      let d : Bubbled y l = bubble_lem y l in
      elim (dec_lt (key c y) (key c x)) [
        | yes h ↦ record {
          others = y ∷ u.others;
          greatest = u.greatest;
          ends = ground (arith, u.ends);
          same = Perm.trans (Perm.swap y x l) (Perm.cons y u.same);
          none_above = (ground (arith, u.first), u.none_above);
          first = u.first;
        }
        | no n ↦ record {
          others = x ∷ d.others;
          greatest = d.greatest;
          ends = ground (arith, d.ends);
          same = Perm.cons x d.same;
          none_above = (ground (arith, d.first), d.none_above);
          first = omega (arith, d.first);
        }
      ]

  number_heap : HeapOps (by_key c)
  unfolding bubbled
  number_heap = record {
    make_heap = λ l. l;
    push_heap = λ l. l;
    pop_heap = bubbled;
    is_heap = λ l. true;
    empty_heap = refl;
    make_heap_lem = λ l. (refl, Perm.refl l);
    push_heap_lem = λ l x h. (refl, Perm.refl (l ++ (x ∷ [])));
    pop_heap_lem = λ x l h.
        let b : Bubbled x l = bubble_lem x l in
        (b.others, b.greatest, b.ends, refl, b.same, b.none_above);
  }

abbrev calls : List (Call Bool ℕ)
calls = pushes 4 ∷ pops ∷ updates false ∷ pops ∷ pushes 1 ∷ []

history_lem_example :
    Serves by_key true
      (6 ∷ 2 ∷ [])
      calls
      (serve number_heap calls (construct_range number_heap (2 ∷ []) true (6 ∷ []))).0
      (serve number_heap calls (construct_range number_heap (2 ∷ []) true (6 ∷ []))).1.cont
history_lem_example = history_lem number_heap (2 ∷ []) true (6 ∷ []) calls

-- The pops of this history, and a pop that waits for the second push.
served :
    (serve number_heap calls (construct_range number_heap (2 ∷ []) true (6 ∷ []))).0
    ≡ some 6 ∷ some 2 ∷ []
unfolding serve number_heap construct_range push try_pop do_pop update back pop_back empty bubbled
    bubble
served = refl

waited : (pop number_heap ((λ q. q) ∷ push number_heap 3 ∷ []) (construct true)).0 ≡ some 3
unfolding pop number_heap construct push do_pop back pop_back empty bubbled bubble
waited = refl
