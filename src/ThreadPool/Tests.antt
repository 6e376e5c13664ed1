-- ===== src/ThreadPool/Tests.antt =====
-- Calls of the pool of src/simple_thread_pool.cc, and its theorems at concrete states.
use google_concurrency_libra.Base.{◌≤◌, ◌⊎◌, ◌≡◌, refl, true, false, arith, ◌≢◌, [], ◌∷◌}
use google_concurrency_libra.Base.Sets.{IsAscending, contains, insert, erase}
use google_concurrency_libra.ThreadPool.{
  ThreadPool, construct_bounded, insert_all, try_get_unused_thread, donate_thread, release_thread,
}
use google_concurrency_libra.ThreadPool.Owned.{
  foreign, active, unused, place, IsValid, Moves, given_back_lem,
}
use google_concurrency_libra.ThreadPool.Taken.{Got, try_get_unused_thread_lem}
use google_concurrency_libra.ThreadPool.Bounds.{Reach, here, later, takes, pool_stays_bounded}

-- Thread 5 is active, thread 3 is not used, and no further thread may become active.
abbrev busy : ThreadPool
busy = record {
  shutting_down = false;
  active_threads = 5 ∷ [];
  unused_threads = 3 ∷ [];
  min_threads = 0;
  max_threads = 1;
}

busy-IsValid : IsValid busy
unfolding contains IsAscending
busy-IsValid = record {
  active_set = (omega arith, tt);
  unused_set = (omega arith, tt);
  apart = λ t c. ground arith;
}

-- The pool of one thread takes further ones.
full_pool_takes : (donate_thread busy 9).1 ≡ true
unfolding donate_thread contains
full_pool_takes = refl

given_back_lem_example :
    (IsValid (release_thread busy 5).0
      × (((place busy 5 ≡ active)
            × ((release_thread busy 5).1 ≡ true)
            × Moves busy 5 foreign (release_thread busy 5).0)
          ⊎ ((place busy 5 ≢ active)
              × ((release_thread busy 5).1 ≡ false)
              × ((release_thread busy 5).0 ≡ busy))))
    × IsValid (donate_thread busy 5).0
    × Moves busy 5 unused (donate_thread busy 5).0
    × (((place busy 5 ≡ unused)
          × ((donate_thread busy 5).1 ≡ false)
          × ((donate_thread busy 5).0 ≡ busy))
        ⊎ ((place busy 5 ≢ unused) × ((donate_thread busy 5).1 ≡ true)))
given_back_lem_example = given_back_lem busy 5 busy-IsValid

try_get_unused_thread_lem_example :
    IsValid (try_get_unused_thread busy 8).0
    × Got busy 8 (try_get_unused_thread busy 8).0 (try_get_unused_thread busy 8).1
unfolding place contains
try_get_unused_thread_lem_example = try_get_unused_thread_lem busy 8 busy-IsValid refl

abbrev one_taken : ThreadPool
one_taken = record {
  shutting_down = false;
  active_threads = 3 ∷ [];
  unused_threads = 4 ∷ [];
  min_threads = 2;
  max_threads = 1;
}

one_taken-Reach : Reach (construct_bounded (4 ∷ 3 ∷ []) 1) one_taken
unfolding construct_bounded insert_all try_get_unused_thread place contains insert erase
one_taken-Reach = later here (takes 9 refl)

pool_stays_bounded_example : IsValid one_taken × (2 ≤ 2)
pool_stays_bounded_example =
    pool_stays_bounded (4 ∷ 3 ∷ []) (omega arith) (omega arith) one_taken-Reach
