-- ===== src/Counter/Strong.antt =====
-- Threads that use one strong duplex counter of include/counter.h. A broker changes in one atomic step.
-- A query or an extraction holds the lock while it goes through the brokers in any order, and reads the
-- prime after it has given the lock back; the end of a broker adds to the prime before it takes the
-- lock. A state also holds which brokers exist, what was counted and what was extracted in all, and the
-- last answer of a query.
pub mod Conserved
pub mod Twice
use google_concurrency_libra.Base.{Bool, ℕ, ◌≡◌, true, false, List, [], ◌∷◌, ◌++◌, update}
use google_concurrency_libra.Base.Int.{ℤ, pos, ◌+ℤ◌}
use google_concurrency_libra.Base.Sets
use google_concurrency_libra.Counter.Duplex
use google_concurrency_libra.Counter.Duplex.{Duplex, duplex, bump}

-- Where the owner of a broker stands. `leaving` has loaded the count, `given` has added it to the prime.
pub data Owner : Type 0 where
  absent resting : Owner
  leaving given : ℤ → Owner

-- `load` and `exchange` with the lock: the brokers to come, and the sum of the others.
pub data Lock : Type 0 where
  idle : Lock
  summing draining : List ℕ → ℤ → Lock

-- The lists are the sums of the calls that have given the lock back.
pub record System : Type 0 where
  pub counter : Duplex
  pub brokers : ℕ → ℤ
  pub owners : ℕ → Owner
  pub lock : Lock
  pub loads : List ℤ
  pub exchanges : List ℤ
  pub live : List ℕ
  pub counted : ℤ
  pub extracted : ℤ
  pub answer : ℤ

abbrev pub start : ℤ → System
start v = record {
  counter = duplex v;
  brokers = λ a. pos 0;
  owners = λ a. absent;
  lock = idle;
  loads = [];
  exchanges = [];
  live = [];
  counted = v;
  extracted = pos 0;
  answer = pos 0;
}

-- `poll` in the loop of `load`, and `drain` in the loop of `exchange`.
unfoldable pub poll : ℕ → List ℕ → ℤ → System → System
poll a todo tmp s = record s { lock = summing (Sets.erase a todo) (tmp +ℤ s.brokers a) }

unfoldable pub drain : ℕ → List ℕ → ℤ → System → System
drain a todo tmp s = record s {
  lock = draining (Sets.erase a todo) (tmp +ℤ s.brokers a);
  brokers = update s.brokers a (pos 0);
}

-- The ends of `load` and of `exchange`, and the first part of `erase`.
unfoldable pub load_result : ℤ → Duplex → ℤ
load_result tmp d = tmp +ℤ d.prime

unfoldable pub exchange_prime : ℤ → ℤ → Duplex → ℤ × Duplex
exchange_prime tmp to d = (tmp +ℤ d.prime, record d { prime = to })

-- `racing` tells whether an exchange may drain a broker whose destructor has begun.
pub data Step (ndebug racing : Bool) (s : System) : System → Type 0 where
  creates :
      (a : ℕ)
      → s.owners a ≡ absent
      → s.lock ≡ idle
      → Step ndebug racing s (record s {
        counter = Duplex.insert ndebug a s.counter;
        brokers = update s.brokers a (pos 0);
        owners = update s.owners a resting;
        live = Sets.insert a s.live;
      })
  adds :
      (a : ℕ) (by : ℤ)
      → s.owners a ≡ resting
      → Step ndebug racing s
          (record s { brokers = update s.brokers a (s.brokers a +ℤ by); counted = s.counted +ℤ by })
  leaves :
      (a : ℕ)
      → s.owners a ≡ resting
      → Step ndebug racing s (record s { owners = update s.owners a (leaving (s.brokers a)) })
  gives :
      (a : ℕ) (v : ℤ)
      → s.owners a ≡ leaving v
      → Step ndebug racing s
          (record s { counter = bump v s.counter; owners = update s.owners a (given v) })
  is_erased :
      (a : ℕ) (v : ℤ)
      → s.owners a ≡ given v
      → s.lock ≡ idle
      → Step ndebug racing s (record s {
        counter = Duplex.forget ndebug a s.counter;
        owners = update s.owners a absent;
        live = Sets.erase a s.live;
      })
  bumps :
      (by : ℤ)
      → Step ndebug racing s (record s { counter = bump by s.counter; counted = s.counted +ℤ by })
  locks_load :
      s.lock ≡ idle → Step ndebug racing s (record s { lock = summing s.counter.children (pos 0) })
  polls :
      (a : ℕ) (todo : List ℕ) (tmp : ℤ)
      → s.lock ≡ summing todo tmp
      → Sets.contains a todo ≡ true
      → Step ndebug racing s (poll a todo tmp s)
  unlocks_load :
      (tmp : ℤ)
      → s.lock ≡ summing [] tmp
      → Step ndebug racing s (record s { lock = idle; loads = tmp ∷ s.loads })
  ends_load :
      (tmp : ℤ) (xs ys : List ℤ)
      → s.loads ≡ xs ++ (tmp ∷ ys)
      → Step ndebug racing s (record s { loads = xs ++ ys; answer = load_result tmp s.counter })
  locks_exchange :
      s.lock ≡ idle → Step ndebug racing s (record s { lock = draining s.counter.children (pos 0) })
  drains :
      (a : ℕ) (todo : List ℕ) (tmp : ℤ)
      → s.lock ≡ draining todo tmp
      → Sets.contains a todo ≡ true
      → (racing ≡ false → s.owners a ≡ resting)
      → Step ndebug racing s (drain a todo tmp s)
  unlocks_exchange :
      (tmp : ℤ)
      → s.lock ≡ draining [] tmp
      → Step ndebug racing s (record s { lock = idle; exchanges = tmp ∷ s.exchanges })
  ends_exchange :
      (tmp to : ℤ) (xs ys : List ℤ)
      → s.exchanges ≡ xs ++ (tmp ∷ ys)
      → Step ndebug racing s (record s {
        counter = (exchange_prime tmp to s.counter).1;
        exchanges = xs ++ ys;
        extracted = s.extracted +ℤ (exchange_prime tmp to s.counter).0;
        counted = s.counted +ℤ to;
      })

pub data Reach (ndebug racing : Bool) (s : System) : System → Type 0 where
  here : Reach ndebug racing s s
  later :
      {t u : System} → Reach ndebug racing s t → Step ndebug racing t u → Reach ndebug racing s u
