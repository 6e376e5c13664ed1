-- ===== src/ThreadPool.antt =====
-- include/simple_thread_pool.h and src/simple_thread_pool.cc: threads that the pool has handed out, and
-- threads that it keeps. A thread is known by its address, a number. A function is one critical
-- section; the sets are kept as `std::set` keeps them, in ascending order. Where the code calls
-- `new mutable_thread()` the address that it gets is an argument.
pub mod Owned
pub mod Taken
pub mod Destroyed
pub mod Bounds
mod Tests
use google_concurrency_libra.Base.{
  Bool, ℕ, true, false, Option, none, some, ltb, if◌then◌else◌, List, [], ◌∷◌, ◌++◌,
}
use google_concurrency_libra.Base.{length}
use google_concurrency_libra.Base.Sets.{contains, insert, erase}

pub record ThreadPool : Type 0 where
  pub shutting_down : Bool
  pub active_threads : List ℕ
  pub unused_threads : List ℕ
  pub min_threads : ℕ
  pub max_threads : ℕ

-- The constructor without arguments: `max_size` is the largest `size_t`.
pub construct : ℕ → ThreadPool
construct max_size = record {
  shutting_down = false;
  active_threads = [];
  unused_threads = [];
  min_threads = 0;
  max_threads = max_size;
}

-- `fresh` are the addresses of the new threads.
pub insert_all : List ℕ → List ℕ → List ℕ
insert_all [] s = s
insert_all (x ∷ fresh) s = insert_all fresh (insert x s)

-- The bounded pool: its loop runs `min_threads` times.
pub construct_bounded : List ℕ → ℕ → ThreadPool
construct_bounded fresh max_threads = record {
  shutting_down = false;
  active_threads = [];
  unused_threads = insert_all fresh [];
  min_threads = length fresh;
  max_threads = max_threads;
}

-- The pool, and the thread that the caller gets.
pub try_get_unused_thread : ThreadPool → ℕ → ThreadPool × Option ℕ
try_get_unused_thread p fresh = if p.shutting_down then (p, none) else elim p.unused_threads [
  | [] ↦
      if ltb (length p.active_threads) p.max_threads
      then (record p { active_threads = insert fresh p.active_threads }, some fresh)
      else (p, none)
  | first ∷ rest ↦ (
    record p {
      active_threads = insert first p.active_threads;
      unused_threads = erase first p.unused_threads;
    },
    some first,
  )
]

pub donate_thread : ThreadPool → ℕ → ThreadPool × Bool
donate_thread p t =
    if contains t p.active_threads
    then (
      record p {
        active_threads = erase t p.active_threads;
        unused_threads = insert t p.unused_threads;
      },
      true,
    )
    else (if contains t p.unused_threads
        then (p, false)
        else (record p { unused_threads = insert t p.unused_threads }, true))

pub release_thread : ThreadPool → ℕ → ThreadPool × Bool
release_thread p t =
    if contains t p.active_threads
    then (record p { active_threads = erase t p.active_threads }, true)
    else (p, false)

-- The destructor: the threads that it joins and deletes, in this order.
pub destroy : ThreadPool → ThreadPool × List ℕ
destroy p = (record p { shutting_down = true }, p.active_threads ++ p.unused_threads)
