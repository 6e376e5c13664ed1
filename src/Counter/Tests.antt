-- ===== src/Counter/Tests.antt =====
-- Runs of the counters of include/counter.h, and their theorems at concrete states.
use google_concurrency_libra.Base.{
  ◌≡◌, refl, true, false, List, [], ◌∷◌, arith, some, length, update,
}
use google_concurrency_libra.Base.Int.{pos, negsuc, ◌+ℤ◌, ◌-ℤ◌, ◌≤ℤ◌}
use google_concurrency_libra.Base.Sets
use google_concurrency_libra.Counter.{
  Bumper, bumper, exchange, increment, decrement, load, add, sub,
}
use google_concurrency_libra.Counter.Duplex
use google_concurrency_libra.Counter.Arrays.{
  push_all, push_all_lem, sums, bumper_array, load_at, exchange_at,
}
use google_concurrency_libra.Counter.Weak
use google_concurrency_libra.Counter.Weak.Query.{weak_load_lem}
use google_concurrency_libra.Counter.Strong
use google_concurrency_libra.Counter.Strong.Conserved.{strong_conserves, in_store}

up_and_down : load (decrement (increment (bumper (negsuc 3)))) ≡ negsuc 3
unfolding load decrement increment sub add bumper ◌+ℤ◌ ◌-ℤ◌
up_and_down = refl

exchanged :
    exchange_at (bumper (pos 4) ∷ bumper (pos 7) ∷ []) 1 (pos 2)
    ≡ some (pos 7, bumper (pos 4) ∷ bumper (pos 2) ∷ [])
unfolding exchange_at bumper exchange
exchanged = refl

loaded : load_at (bumper (pos 4) ∷ bumper (pos 7) ∷ []) 1 ≡ some (pos 7)
unfolding load_at bumper load
loaded = refl

abbrev primes : List Bumper
primes = bumper (pos 4) ∷ bumper (pos 7) ∷ []

abbrev buffers : List Bumper
buffers = bumper (negsuc 0) ∷ bumper (pos 0) ∷ []

push_all_lem_example :
    push_all (primes, buffers) ≡ some (sums primes buffers, bumper_array (length buffers))
push_all_lem_example = push_all_lem primes buffers refl

-- A broker that has counted 4, and a query that has polled it.
queried :
    (s : Weak.System) × Weak.Reach false (Weak.start (pos 5)) s
    × (s.lock ≡ Weak.polling [] (pos 4))
    × (s.counted ≡ pos 11)
unfolding Weak.poll Duplex.insert Sets.insert Sets.contains Sets.erase Duplex.bump Duplex.duplex
    ◌+ℤ◌
queried = (
  _,
  Weak.later
      (Weak.later
        (Weak.later
          (Weak.later
            (Weak.later (Weak.later Weak.here (Weak.creates 3 refl refl)) (Weak.reads 3 refl))
            (Weak.writes 3 (pos 0) (pos 4) refl (omega arith)))
          (Weak.bumps (pos 2) (omega arith)))
        (Weak.locks refl))
      (Weak.polls 3 (3 ∷ []) (pos 0) refl refl),
  refl,
  refl,
)

abbrev queried_state : Weak.System
queried_state = queried.0

weak_load_lem_example :
    (Weak.load_result (pos 4) queried_state.counter ≤ℤ queried_state.counted)
    × (false ≡ false → queried_state.before ≤ℤ Weak.load_result (pos 4) queried_state.counter)
    × (false ≡ true → Weak.load_result (pos 4) queried_state.counter ≡ queried_state.counter.prime)
weak_load_lem_example = weak_load_lem queried.1 queried.2

-- A broker that has counted 3, and an exchange that has drained it.
extracted_once :
    (s : Strong.System) × Strong.Reach false false (Strong.start (pos 5)) s × (s.extracted ≡ pos 8)
unfolding Strong.drain Duplex.insert Sets.insert Sets.contains Sets.erase Duplex.bump Duplex.duplex
    Strong.exchange_prime ◌+ℤ◌
extracted_once = (
  _,
  Strong.later
      (Strong.later
        (Strong.later
          (Strong.later
            (Strong.later (Strong.later Strong.here (Strong.creates 1 refl refl))
              (Strong.adds 1 (pos 3) refl))
            (Strong.locks_exchange refl))
          (Strong.drains 1 (1 ∷ []) (pos 0) refl refl (λ h. refl)))
        (Strong.unlocks_exchange (pos 3) refl))
      (Strong.ends_exchange (pos 3) (pos 1) [] [] refl),
  refl,
)

strong_conserves_example :
    extracted_once.0.counted ≡ extracted_once.0.extracted +ℤ in_store extracted_once.0
strong_conserves_example = strong_conserves extracted_once.1

-- A prime of 5 with one broker that has counted 2.
one_broker : Strong.System
unfolding Duplex.duplex
one_broker = record (Strong.start (pos 5)) {
  counter = record { prime = pos 5; children = 1 ∷ [] };
  brokers = update (λ a. pos 0) 1 (pos 2);
  owners = update (λ a. Strong.absent) 1 Strong.resting;
  live = 1 ∷ [];
  counted = pos 7;
}

-- The assertion of the destructor fails while a broker exists, unless it is left out.
dies_late : Duplex.may_die false one_broker.counter ≡ false
unfolding one_broker Duplex.may_die
dies_late = refl

dies_unseen : Duplex.may_die true one_broker.counter ≡ true
unfolding one_broker Duplex.may_die
dies_unseen = refl
