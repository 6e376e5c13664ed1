-- ===== src/ThreadPool/Bounds.antt =====
-- How many threads the pool of src/simple_thread_pool.cc holds.
use google_concurrency_libra.ThreadPool.Taken.{
  threads-cases, try_get_unused_thread_lem, first_unused,
}
use google_concurrency_libra.Base.{
  ℕ, ◌+◌, ◌≡◌, arith, length, ◌≤◌, ◌⊎◌, inl, inr, List, [], ◌∷◌, refl,
}
use google_concurrency_libra.Base.Sets.{
  length-insert, length-erase, IsAscending, insert, insert-IsAscending, contains_empty,
}
use google_concurrency_libra.ThreadPool.{
  ThreadPool, try_get_unused_thread, donate_thread, release_thread, insert_all, construct_bounded,
}
use google_concurrency_libra.ThreadPool.Owned.{
  foreign, active, place, IsValid, donate_thread_lem, release_thread_lem,
}

-- Calls of clients that donate only what they got from this pool.
pub data Step (p : ThreadPool) : ThreadPool → Type 0 where
  takes : (fresh : ℕ) → place p fresh ≡ foreign → Step p (try_get_unused_thread p fresh).0
  donates : (t : ℕ) → place p t ≡ active → Step p (donate_thread p t).0
  releases : (t : ℕ) → Step p (release_thread p t).0

pub data Reach (p : ThreadPool) : ThreadPool → Type 0 where
  here : Reach p p
  later : {q r : ThreadPool} → Reach p q → Step q r → Reach p r

abbrev pub size : ThreadPool → ℕ
size p = length p.active_threads + length p.unused_threads

take_size :
    (p : ThreadPool) (fresh : ℕ)
    → IsValid p
    → place p fresh ≡ foreign
    → (size (try_get_unused_thread p fresh).0 ≤ size p)
      ⊎ (size (try_get_unused_thread p fresh).0 ≤ p.max_threads)
unfolding try_get_unused_thread place
take_size p fresh v c = elim (threads-cases p.unused_threads) [
  | inl n ↦ ground (arith, length-insert fresh 0 p.active_threads v.active_set)
  | inr (first, rest, n) ↦ ground (
    arith,
    length-insert first 0 p.active_threads v.active_set,
    length-erase first p.unused_threads,
    first_unused p n,
  )
]

donate_size :
    (p : ThreadPool) (t : ℕ) → IsValid p → place p t ≡ active → size (donate_thread p t).0 ≤ size p
unfolding donate_thread place
donate_size p t v c =
    ground (arith, length-erase t p.active_threads, length-insert t 0 p.unused_threads v.unused_set)

release_size : (p : ThreadPool) (t : ℕ) → size (release_thread p t).0 ≤ size p
unfolding release_thread
release_size p t = ground (arith, length-erase t p.active_threads)

-- The bound holds in a state with the bounded constructor's parameters.
record Bounded (b m : ℕ) (p : ThreadPool) : Type 0 where
  valid : IsValid p
  limit : p.max_threads ≡ m
  within : size p ≤ b

Step-Bounded : {b m : ℕ} {p q : ThreadPool} → m ≤ b → Step p q → Bounded b m p → Bounded b m q
unfolding try_get_unused_thread donate_thread release_thread
Step-Bounded {p = p} h (takes fresh c) o = record {
  valid = (try_get_unused_thread_lem p fresh o.valid c).0;
  limit = elim (threads-cases p.unused_threads) [
    | inl n ↦ ground (arith, o.limit)
    | inr (first, rest, n) ↦ ground (arith, o.limit)
  ];
  within = omega (arith, take_size p fresh o.valid c, o.limit, o.within);
}
Step-Bounded {p = p} h (donates t c) o = record {
  valid = (donate_thread_lem p t o.valid).0;
  limit = ground (arith, o.limit);
  within = omega (arith, donate_size p t o.valid c, o.within);
}
Step-Bounded {p = p} h (releases t) o = record {
  valid = (release_thread_lem p t o.valid).0;
  limit = ground (arith, o.limit);
  within = omega (arith, release_size p t, o.within);
}

insert_all-size :
    (fresh s : List ℕ)
    → IsAscending 0 s
    → IsAscending 0 (insert_all fresh s) × (length (insert_all fresh s) ≤ length fresh + length s)
unfolding insert_all
insert_all-size [] s o = (o, omega arith)
insert_all-size (x ∷ fresh) s o =
    let (a, l) = insert_all-size fresh (insert x s) (insert-IsAscending 0 x s (omega arith) o) in
    (a, ground (arith, l, length-insert x 0 s o))

start-Bounded :
    (b m : ℕ) (fresh : List ℕ) → length fresh ≤ b → Bounded b m (construct_bounded fresh m)
unfolding construct_bounded IsAscending
start-Bounded b m fresh h =
    let (a, l) = insert_all-size fresh [] tt in
    record {
      valid = record {
        active_set = tt;
        unused_set = a;
        apart = λ t c. ground (arith, contains_empty t);
      };
      limit = refl;
      within = omega (arith, l);
    }

Reach-Bounded :
    {b m : ℕ} (fresh : List ℕ) {p : ThreadPool}
    → length fresh ≤ b
    → m ≤ b
    → Reach (construct_bounded fresh m) p
    → Bounded b m p
Reach-Bounded {b} {m} fresh l h here = start-Bounded b m fresh l
Reach-Bounded fresh l h (later r st) = Step-Bounded h st (Reach-Bounded fresh l h r)

-- As long as the clients donate only active threads, a pool that starts with a number of threads and a
-- `max_threads_`, neither more than `b`, keeps its sets disjoint and never holds more than `b` threads.
pub pool_stays_bounded :
    {b m : ℕ} (fresh : List ℕ) {p : ThreadPool}
    → length fresh ≤ b
    → m ≤ b
    → Reach (construct_bounded fresh m) p
    → IsValid p × (size p ≤ b)
pool_stays_bounded fresh l h r =
    let o : Bounded _ _ _ = Reach-Bounded fresh l h r in (o.valid, o.within)
