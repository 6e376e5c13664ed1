-- ===== src/Counter/Weak.antt =====
-- Threads that use one weak duplex counter of include/counter.h. The owner of a broker loads and stores
-- its count in two steps; a query holds the lock and reads the brokers in any order. A state also
-- holds which brokers exist, what was counted in all, and what had been counted when the query under
-- way took the lock.
pub mod Conserved
pub mod Query
use google_concurrency_libra.Base.{Bool, ℕ, ◌≡◌, true, List, [], update}
use google_concurrency_libra.Base.Int.{ℤ, pos, ◌+ℤ◌, ◌≤ℤ◌}
use google_concurrency_libra.Base.Sets
use google_concurrency_libra.Counter.Duplex
use google_concurrency_libra.Counter.Duplex.{Duplex, duplex, bump}

-- Where the owner of a broker stands; the values are those that it loaded.
pub data Owner : Type 0 where
  absent resting : Owner
  adding leaving : ℤ → Owner

-- A query under way has brokers to poll and what the others gave.
pub data Lock : Type 0 where
  idle : Lock
  polling : List ℕ → ℤ → Lock

pub record System : Type 0 where
  pub counter : Duplex
  pub brokers : ℕ → ℤ
  pub owners : ℕ → Owner
  pub lock : Lock
  pub live : List ℕ
  pub counted : ℤ
  pub before : ℤ

abbrev pub start : ℤ → System
start v = record {
  counter = duplex v;
  brokers = λ a. pos 0;
  owners = λ a. absent;
  lock = idle;
  live = [];
  counted = v;
  before = v;
}

-- `poll` of the broker at `a` in the loop of `load`.
unfoldable pub poll : ℕ → List ℕ → ℤ → System → System
poll a todo tmp s = record s { lock = polling (Sets.erase a todo) (tmp +ℤ s.brokers a) }

-- What `load` returns, when it has polled every broker.
unfoldable pub load_result : ℤ → Duplex → ℤ
load_result tmp d = tmp +ℤ d.prime

-- Counts only grow.
pub data Step (ndebug : Bool) (s : System) : System → Type 0 where
  creates :
      (a : ℕ)
      → s.owners a ≡ absent
      → s.lock ≡ idle
      → Step ndebug s (record s {
        counter = Duplex.insert ndebug a s.counter;
        brokers = update s.brokers a (pos 0);
        owners = update s.owners a resting;
        live = Sets.insert a s.live;
      })
  reads :
      (a : ℕ)
      → s.owners a ≡ resting
      → Step ndebug s (record s { owners = update s.owners a (adding (s.brokers a)) })
  writes :
      (a : ℕ) (v by : ℤ)
      → s.owners a ≡ adding v
      → pos 0 ≤ℤ by
      → Step ndebug s (record s {
        brokers = update s.brokers a (v +ℤ by);
        owners = update s.owners a resting;
        counted = s.counted +ℤ by;
      })
  leaves :
      (a : ℕ)
      → s.owners a ≡ resting
      → Step ndebug s (record s { owners = update s.owners a (leaving (s.brokers a)) })
  is_erased :
      (a : ℕ) (v : ℤ)
      → s.owners a ≡ leaving v
      → s.lock ≡ idle
      → Step ndebug s (record s {
        counter = Duplex.erase ndebug a v s.counter;
        owners = update s.owners a absent;
        live = Sets.erase a s.live;
      })
  bumps :
      (by : ℤ)
      → pos 0 ≤ℤ by
      → Step ndebug s (record s { counter = bump by s.counter; counted = s.counted +ℤ by })
  locks :
      s.lock ≡ idle
      → Step ndebug s (record s { lock = polling s.counter.children (pos 0); before = s.counted })
  polls :
      (a : ℕ) (todo : List ℕ) (tmp : ℤ)
      → s.lock ≡ polling todo tmp
      → Sets.contains a todo ≡ true
      → Step ndebug s (poll a todo tmp s)
  returns : (tmp : ℤ) → s.lock ≡ polling [] tmp → Step ndebug s (record s { lock = idle })

pub data Reach (ndebug : Bool) (s : System) : System → Type 0 where
  here : Reach ndebug s s
  later : {t u : System} → Reach ndebug s t → Step ndebug t u → Reach ndebug s u
