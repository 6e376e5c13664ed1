-- ===== src/ThreadPool/Taken.antt =====
-- What a call of `try_get_unused_thread` of src/simple_thread_pool.cc returns, and which threads it moves.
use google_concurrency_libra.Base.{
  ℕ, ◌≡◌, true, false, ◌⊎◌, arith, ◌≤◌, ◌<◌, inl, inr, Option, none, some, [], Bool-cases, length,
  refl, ap, List, ◌∷◌,
}
use google_concurrency_libra.Base.Sets.{
  contains, erase, erase-IsAscending, contains-erase, insert, insert-IsAscending, contains-insert,
  contains_first,
}
use google_concurrency_libra.ThreadPool.{ThreadPool, try_get_unused_thread}
use google_concurrency_libra.ThreadPool.Owned.{foreign, active, unused, place, IsValid, Moves}
use google_concurrency_libra.Base.Sets.{contains_first}

taken-IsValid :
    (p : ThreadPool) (t : ℕ)
    → IsValid p
    → IsValid (record p {
      active_threads = insert t p.active_threads;
      unused_threads = erase t p.unused_threads;
    })
taken-IsValid p t v = record {
  active_set = insert-IsAscending 0 t p.active_threads (omega arith) v.active_set;
  unused_set = erase-IsAscending 0 t p.unused_threads v.unused_set;
  apart = λ x a. ground (
    arith,
    contains-insert x t p.active_threads,
    contains-erase x t 0 p.unused_threads v.unused_set,
    v.apart x,
  );
}

taken_place :
    (p : ThreadPool) (t : ℕ)
    → IsValid p
    → Moves p t active (record p {
      active_threads = insert t p.active_threads;
      unused_threads = erase t p.unused_threads;
    })
unfolding place Moves
taken_place p t v x = ground (
  arith,
  contains-insert x t p.active_threads,
  contains-erase x t 0 p.unused_threads v.unused_set,
)

new-IsValid :
    (p : ThreadPool) (t : ℕ)
    → IsValid p
    → contains t p.unused_threads ≡ false
    → IsValid (record p { active_threads = insert t p.active_threads })
new-IsValid p t v c = record {
  active_set = insert-IsAscending 0 t p.active_threads (omega arith) v.active_set;
  unused_set = v.unused_set;
  apart = λ x a. ground (arith, contains-insert x t p.active_threads, v.apart x);
}

new_place :
    (p : ThreadPool) (t : ℕ)
    → Moves p t active (record p { active_threads = insert t p.active_threads })
unfolding place Moves
new_place p t x = ground (arith, contains-insert x t p.active_threads)

pub threads-cases : (s : List ℕ) → (s ≡ []) ⊎ (first : ℕ) × (rest : List ℕ) × (s ≡ first ∷ rest)
threads-cases [] = inl refl
threads-cases (first ∷ rest) = inr (first, rest, refl)

pub first_unused :
    (p : ThreadPool) {first : ℕ} {rest : List ℕ}
    → p.unused_threads ≡ first ∷ rest
    → contains first p.unused_threads ≡ true
first_unused p {first} {rest} n = ground (arith, ap (contains first) n, contains_first first rest)

first_place :
    (p : ThreadPool) {first : ℕ} {rest : List ℕ}
    → IsValid p
    → p.unused_threads ≡ first ∷ rest
    → place p first ≡ unused
unfolding place
first_place p {first} v n = ground (arith, v.apart first, first_unused p n)

-- What a call of `try_get_unused_thread` did.
pub data Got (p : ThreadPool) (fresh : ℕ) (q : ThreadPool) : Option ℕ → Type 0 where
  reused :
      {t : ℕ}
      → p.shutting_down ≡ false
      → place p t ≡ unused
      → Moves p t active q
      → Got p fresh q (some t)
  created :
      p.shutting_down ≡ false
      → p.unused_threads ≡ []
      → length p.active_threads < p.max_threads
      → Moves p fresh active q
      → Got p fresh q (some fresh)
  closing : p.shutting_down ≡ true → q ≡ p → Got p fresh q none
  full :
      p.shutting_down ≡ false
      → p.unused_threads ≡ []
      → p.max_threads ≤ length p.active_threads
      → q ≡ p
      → Got p fresh q none

pub <_or_≤ : (m n : ℕ) → (m < n) ⊎ (n ≤ m)
<_or_≤ m n = omega arith

without_unused :
    (p : ThreadPool) (fresh : ℕ)
    → IsValid p
    → place p fresh ≡ foreign
    → p.shutting_down ≡ false
    → p.unused_threads ≡ []
    → IsValid (try_get_unused_thread p fresh).0
      × Got p fresh (try_get_unused_thread p fresh).0 (try_get_unused_thread p fresh).1
unfolding try_get_unused_thread place
without_unused p fresh v c e n = elim (<_or_≤ (length p.active_threads) p.max_threads) [
  | inl l ↦
      let got : Got p fresh _ (some fresh) = created e n l (new_place p fresh) in
      ground (arith, new-IsValid p fresh v, got)
  | inr l ↦ let got : Got p fresh p none = full e n l refl in ground (arith, got)
]

-- If `new` gives an address that no thread of the pool has: a pool that is shutting down gives none and
-- stays as it is. Otherwise the caller gets an unused thread if there is one, else a new one if fewer
-- than `max_threads_` are active, else none; the thread that it gets becomes active.
pub try_get_unused_thread_lem :
    (p : ThreadPool) (fresh : ℕ)
    → IsValid p
    → place p fresh ≡ foreign
    → IsValid (try_get_unused_thread p fresh).0
      × Got p fresh (try_get_unused_thread p fresh).0 (try_get_unused_thread p fresh).1
unfolding try_get_unused_thread place
try_get_unused_thread_lem p fresh v c = elim (Bool-cases p.shutting_down) [
  | inl e ↦ let got : Got p fresh p none = closing e refl in ground (arith, got)
  | inr e ↦ elim (threads-cases p.unused_threads) [
    | inl n ↦ without_unused p fresh v c e n
    | inr (first, rest, n) ↦
        let got : Got p fresh _ (some first) =
          reused e (first_place p v n) (taken_place p first v) in
        ground (arith, taken-IsValid p first v, got)
  ]
]
