-- ===== src/PriorityQueue/Served.antt =====
-- What the queue of include/concurrent_priority_queue.h gives out, over any history of calls.
use google_concurrency_libra.Base.{
  Bool, ◌≡◌, refl, true, List, [], ◌∷◌, ◌++◌, Option, some, none, ap,
}
use google_concurrency_libra.PriorityQueue.{
  PriorityQueue, HeapOps, NoneAbove, back, pop_back, push, try_pop, update, construct_range, do_pop,
  empty,
}
use mathlib.Core.List.{Perm, perm_append_singleton}
use mathlib.Core.List.Perm

-- A call that has held the mutex.
pub data Call (C A : Type 0) : Type 0 where
  pushes : A → Call C A
  pops : Call C A
  updates : C → Call C A

-- A collection without order, and a comparator that `update` changes: a pop takes an element that no other
-- is above by the comparator of that moment, or finds nothing.
pub data Serves {C A : Type 0} (order : C → A → A → Bool)
    : C → List A → List (Call C A) → List (Option A) → List A → Type 0 where
  done : {c : C} {xs ys : List A} → Perm xs ys → Serves order c xs [] [] ys
  takes_in :
      {c : C} {cs : List (Call C A)} {outs : List (Option A)} {xs ys : List A} (x : A)
      → Serves order c (x ∷ xs) cs outs ys
      → Serves order c xs (pushes x ∷ cs) outs ys
  compares :
      {c d : C} {cs : List (Call C A)} {outs : List (Option A)} {xs ys : List A}
      → Serves order d xs cs outs ys
      → Serves order c xs (updates d ∷ cs) outs ys
  gives_out :
      {c : C} {cs : List (Call C A)} {outs : List (Option A)} {xs ys : List A} (m : A) (zs : List A)
      → Perm xs (m ∷ zs)
      → NoneAbove (order c) m zs
      → Serves order c zs cs outs ys
      → Serves order c xs (pops ∷ cs) (some m ∷ outs) ys
  finds_none :
      {c : C} {cs : List (Call C A)} {outs : List (Option A)} {xs ys : List A}
      → Perm xs []
      → Serves order c [] cs outs ys
      → Serves order c xs (pops ∷ cs) (none ∷ outs) ys

module _ {A : Type 0} where
  back_lem : (ys : List A) (m : A) → back (ys ++ (m ∷ [])) ≡ some m
  unfolding back
  back_lem [] m = refl
  back_lem (x ∷ []) m = refl
  back_lem (x ∷ y ∷ ys) m = back_lem (y ∷ ys) m

  pop_back_lem : (ys : List A) (m : A) → pop_back (ys ++ (m ∷ [])) ≡ ys
  unfolding pop_back
  pop_back_lem [] m = refl
  pop_back_lem (x ∷ []) m = refl
  pop_back_lem (x ∷ y ∷ ys) m = ap (λ l. x ∷ l) (pop_back_lem (y ∷ ys) m)

module _ {C A : Type 0} {order : C → A → A → Bool} (heap : (c : C) → HeapOps (order c)) where
  -- The calls one after the other: what the pops give out, and the queue at the end.
  unfoldable pub serve : List (Call C A) → PriorityQueue C A → List (Option A) × PriorityQueue C A
  unfolding try_pop update push
  serve [] q = ([], q)
  serve (pushes x ∷ cs) q = serve cs (push heap x q)
  serve (updates less ∷ cs) q = serve cs (update heap less q)
  serve (pops ∷ cs) q =
      let (out, q') = try_pop heap q in let (outs, q'') = serve cs q' in (out ∷ outs, q'')

  -- A push adds its element to the others.
  pushed-Perm :
      (c : C) (x : A) (l xs : List A)
      → (heap c).is_heap l ≡ true
      → Perm xs l
      → Perm (x ∷ xs) ((heap c).push_heap (l ++ (x ∷ [])))
  pushed-Perm c x l xs h p =
      Perm.trans (Perm.cons x p)
        (Perm.trans (Perm.symm (perm_append_singleton x l)) ((heap c).push_heap_lem l x h).1)

  abbrev holding : C → List A → PriorityQueue C A
  holding c l = record { less = c; cont = l }

  serve-Serves :
      (cs : List (Call C A)) (c : C) (l xs : List A)
      → (heap c).is_heap l ≡ true
      → Perm xs l
      → Serves order c xs cs (serve cs (holding c l)).0 (serve cs (holding c l)).1.cont
  unfolding serve push update try_pop do_pop empty
  serve-Serves [] c l xs h p = done p
  serve-Serves (pushes x ∷ cs) c l xs h p = takes_in x (
      serve-Serves cs c ((heap c).push_heap (l ++ (x ∷ []))) (x ∷ xs)
        ((heap c).push_heap_lem l x h).0 (pushed-Perm c x l xs h p))
  serve-Serves (updates d ∷ cs) c l xs h p = compares (
      serve-Serves cs d ((heap d).make_heap l) xs ((heap d).make_heap_lem l).0
        (Perm.trans p ((heap d).make_heap_lem l).1))
  serve-Serves (pops ∷ cs) c [] xs h p =
      finds_none p (serve-Serves cs c [] [] (heap c).empty_heap (Perm.refl []))
  serve-Serves (pops ∷ cs) c (x ∷ l) xs h p =
      let (ys, m, e, g, w, n) = (heap c).pop_heap_lem x l h in
      rw (e, back_lem ys m, pop_back_lem ys m)
        (gives_out m ys (Perm.trans p (Perm.trans w (perm_append_singleton m ys))) n
          (serve-Serves cs c ys ys g (Perm.refl ys)))

  -- A queue that is made of a range and a container serves every history of calls: what it gives out is
  -- never below another element that it holds, by the comparator that the last `update` has given it, and
  -- no element is lost or given out twice.
  pub history_lem :
      (range : List A) (less : C) (cont : List A) (cs : List (Call C A))
      → Serves order less
          (cont ++ range)
          cs
          (serve cs (construct_range heap range less cont)).0
          (serve cs (construct_range heap range less cont)).1.cont
  unfolding construct_range
  history_lem range less cont cs =
      serve-Serves cs less ((heap less).make_heap (cont ++ range)) (cont ++ range)
        ((heap less).make_heap_lem (cont ++ range)).0 ((heap less).make_heap_lem (cont ++ range)).1
