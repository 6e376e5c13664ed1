-- ===== src/ThreadPool/Destroyed.antt =====
-- The destructor of the pool of src/simple_thread_pool.cc.
use google_concurrency_libra.Base.{ℕ, ◌≡◌, none, arith, ◌≢◌}
use google_concurrency_libra.Base.Sets.{count, count-append, count-contains}
use google_concurrency_libra.ThreadPool.{ThreadPool, try_get_unused_thread, destroy}
use google_concurrency_libra.ThreadPool.Owned.{foreign, place, IsValid}

joins :
    (p : ThreadPool) (t : ℕ)
    → IsValid p
    → (place p t ≡ foreign → count t (destroy p).1 ≡ 0)
      × (place p t ≢ foreign → count t (destroy p).1 ≡ 1)
unfolding destroy place
joins p t v = ground (
  arith,
  count-append t p.active_threads p.unused_threads,
  count-contains t 0 p.active_threads v.active_set,
  count-contains t 0 p.unused_threads v.unused_set,
  v.apart t,
)

-- The destructor joins and deletes every thread that is active or unused once and no other thread,
-- and a later call of `try_get_unused_thread` gives none.
pub destroy_lem :
    (p : ThreadPool)
    → IsValid p
    → ((t : ℕ)
        → (place p t ≡ foreign → count t (destroy p).1 ≡ 0)
          × (place p t ≢ foreign → count t (destroy p).1 ≡ 1))
      × ((fresh : ℕ) → (try_get_unused_thread (destroy p).0 fresh).1 ≡ none)
unfolding destroy try_get_unused_thread
destroy_lem p v = ((λ t. joins p t v), λ fresh. ground arith)
