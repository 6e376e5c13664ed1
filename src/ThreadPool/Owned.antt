-- ===== src/ThreadPool/Owned.antt =====
-- What the calls of the pool of src/simple_thread_pool.cc do to the owner of each thread.
use google_concurrency_libra.Base.{ℕ, ◌≡◌, true, false, ◌==◌, if◌then◌else◌, ◌≢◌, ◌⊎◌, arith}
use google_concurrency_libra.Base.Sets.{
  contains, IsAscending, erase, erase-IsAscending, contains-erase, insert, insert-IsAscending,
  contains-insert,
}
use google_concurrency_libra.ThreadPool.{ThreadPool, release_thread, donate_thread}

-- Where a thread is, as the clients see it.
pub data Place : Type 0 where
  foreign : Place
  active : Place
  unused : Place

unfoldable pub place : ThreadPool → ℕ → Place
place p t =
    if contains t p.active_threads
    then active
    else (if contains t p.unused_threads then unused else foreign)

-- The sets are sets, and no thread is in both.
pub record IsValid (p : ThreadPool) : Type 0 where
  pub active_set : IsAscending 0 p.active_threads
  pub unused_set : IsAscending 0 p.unused_threads
  pub apart : (t : ℕ) → contains t p.active_threads ≡ true → contains t p.unused_threads ≡ false

-- The other threads stay where they are.
unfoldable pub Moves : ThreadPool → ℕ → Place → ThreadPool → Type 0
Moves p t w q = (x : ℕ) → place q x ≡ (if x == t then w else place p x)

-- The calls on the sets, in terms of membership.
erased_place :
    (p : ThreadPool) (t : ℕ)
    → IsValid p
    → contains t p.active_threads ≡ true
    → Moves p t foreign (record p { active_threads = erase t p.active_threads })
unfolding place Moves
erased_place p t v c x =
    ground (arith, contains-erase x t 0 p.active_threads v.active_set, v.apart t c)

erased-IsValid :
    (p : ThreadPool) (t : ℕ)
    → IsValid p
    → IsValid (record p { active_threads = erase t p.active_threads })
erased-IsValid p t v = record {
  active_set = erase-IsAscending 0 t p.active_threads v.active_set;
  unused_set = v.unused_set;
  apart = λ x c. v.apart x (ground (arith, contains-erase x t 0 p.active_threads v.active_set));
}

-- A released thread belongs to the pool no more, and only an active thread can be released.
pub release_thread_lem :
    (p : ThreadPool) (t : ℕ)
    → IsValid p
    → IsValid (release_thread p t).0
      × (((place p t ≡ active)
            × ((release_thread p t).1 ≡ true)
            × Moves p t foreign (release_thread p t).0)
          ⊎ ((place p t ≢ active)
              × ((release_thread p t).1 ≡ false)
              × ((release_thread p t).0 ≡ p)))
unfolding release_thread place
release_thread_lem p t v = ground (arith, erased-IsValid p t v, erased_place p t v)

-- An unused thread, or one that the pool has not known, is put among the unused ones.
given-IsValid :
    (p : ThreadPool) (t : ℕ)
    → IsValid p
    → contains t p.active_threads ≡ false
    → IsValid (record p { unused_threads = insert t p.unused_threads })
given-IsValid p t v c = record {
  active_set = v.active_set;
  unused_set = insert-IsAscending 0 t p.unused_threads (omega arith) v.unused_set;
  apart = λ x a. ground (arith, contains-insert x t p.unused_threads, v.apart x a);
}

given_place :
    (p : ThreadPool) (t : ℕ)
    → contains t p.active_threads ≡ false
    → Moves p t unused (record p { unused_threads = insert t p.unused_threads })
unfolding place Moves
given_place p t c x = ground (arith, contains-insert x t p.unused_threads)

erased_absent : (p : ThreadPool) (t : ℕ) → IsValid p → contains t (erase t p.active_threads) ≡ false
erased_absent p t v = ground (arith, contains-erase t t 0 p.active_threads v.active_set)

returned-IsValid :
    (p : ThreadPool) (t : ℕ)
    → IsValid p
    → IsValid (record p {
      active_threads = erase t p.active_threads;
      unused_threads = insert t p.unused_threads;
    })
returned-IsValid p t v =
    given-IsValid (record p { active_threads = erase t p.active_threads }) t (erased-IsValid p t v)
      (erased_absent p t v)

returned_place :
    (p : ThreadPool) (t : ℕ)
    → IsValid p
    → Moves p t unused (record p {
      active_threads = erase t p.active_threads;
      unused_threads = insert t p.unused_threads;
    })
unfolding place Moves
returned_place p t v x = ground (
  arith,
  contains-insert x t p.unused_threads,
  contains-erase x t 0 p.active_threads v.active_set,
)

stays_place :
    (p : ThreadPool) (t : ℕ)
    → contains t p.active_threads ≡ false
    → contains t p.unused_threads ≡ true
    → Moves p t unused p
unfolding place Moves
stays_place p t a u x = ground arith

-- A donated thread is unused from then on; the call is refused only if it was that already.
pub donate_thread_lem :
    (p : ThreadPool) (t : ℕ)
    → IsValid p
    → IsValid (donate_thread p t).0
      × Moves p t unused (donate_thread p t).0
      × (((place p t ≡ unused) × ((donate_thread p t).1 ≡ false) × ((donate_thread p t).0 ≡ p))
          ⊎ ((place p t ≢ unused) × ((donate_thread p t).1 ≡ true)))
unfolding donate_thread place Moves
donate_thread_lem p t v = ground (
  arith,
  returned-IsValid p t v,
  returned_place p t v,
  given-IsValid p t v,
  given_place p t,
  stays_place p t,
)

-- A released thread belongs to the pool no more, and only an active thread can be released. A donated
-- thread is unused from then on; the call is refused only if it was that already. Both keep the sets of
-- the pool valid and every other thread where it was.
pub given_back_lem :
    (p : ThreadPool) (t : ℕ)
    → IsValid p
    → (IsValid (release_thread p t).0
        × (((place p t ≡ active)
              × ((release_thread p t).1 ≡ true)
              × Moves p t foreign (release_thread p t).0)
            ⊎ ((place p t ≢ active)
                × ((release_thread p t).1 ≡ false)
                × ((release_thread p t).0 ≡ p))))
      × IsValid (donate_thread p t).0
      × Moves p t unused (donate_thread p t).0
      × (((place p t ≡ unused) × ((donate_thread p t).1 ≡ false) × ((donate_thread p t).0 ≡ p))
          ⊎ ((place p t ≢ unused) × ((donate_thread p t).1 ≡ true)))
given_back_lem p t v =
    let (valid, moves, told) = donate_thread_lem p t v in
    (release_thread_lem p t v, valid, moves, told)
