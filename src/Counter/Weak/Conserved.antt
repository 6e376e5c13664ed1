-- ===== src/Counter/Weak/Conserved.antt =====
-- Where the counts of a weak duplex counter of include/counter.h are: in its prime and in the brokers
-- that exist.
use google_concurrency_libra.Base.{
  Bool, ℕ, ◌≡◌, refl, true, false, [], if◌then◌else◌, arith, update,
}
use google_concurrency_libra.Base.Int.{ℤ, pos, ◌+ℤ◌, ◌≤ℤ◌, int_laws}
use google_concurrency_libra.Base.Sets.{
  IsAscending, contains, insert, erase, insert-IsAscending, contains-insert, erase-IsAscending,
  contains-erase,
}
use google_concurrency_libra.Counter.Duplex
use google_concurrency_libra.Counter.Duplex.{bump}
use google_concurrency_libra.Counter.Children.{
  total, total-insert, total-erase, total-update, total-update_absent,
}
use google_concurrency_libra.Counter.Weak.{
  Owner, absent, resting, adding, leaving, System, start, Step, creates, reads, writes, leaves,
  is_erased, bumps, locks, polls, returns, Reach, here, later, poll,
}

unfoldable pub exists : Owner → Bool
exists absent = false
exists resting = true
exists (adding v) = true
exists (leaving v) = true

-- The value that the owner has loaded is still the broker's.
unfoldable pub Holds : ℤ → Owner → Type 0
Holds b absent = Unit
Holds b resting = Unit
Holds b (adding v) = v ≡ b
Holds b (leaving v) = v ≡ b

pub record Conserved (ndebug : Bool) (s : System) : Type 0 where
  pub set : IsAscending 0 s.live
  pub members : (a : ℕ) → contains a s.live ≡ exists (s.owners a)
  pub known : s.counter.children ≡ (if ndebug then [] else s.live)
  pub held : (a : ℕ) → Holds (s.brokers a) (s.owners a)
  pub no_less : (a : ℕ) → pos 0 ≤ℤ s.brokers a
  pub sum : s.counted ≡ s.counter.prime +ℤ total s.brokers s.live

module _ {ndebug : Bool} {s : System} (o : Conserved ndebug s) where
  creates-Conserved :
      (a : ℕ)
      → s.owners a ≡ absent
      → Conserved ndebug (record s {
        counter = Duplex.insert ndebug a s.counter;
        brokers = update s.brokers a (pos 0);
        owners = update s.owners a resting;
        live = insert a s.live;
      })
  unfolding exists Holds Duplex.insert
  creates-Conserved a e = record {
    set = insert-IsAscending 0 a s.live (omega arith) o.set;
    members = λ x. ground (arith, contains-insert x a s.live, o.members x);
    known = ground (arith, o.known);
    held = λ x. ground (arith, o.held x);
    no_less = λ x. ground (arith, o.no_less x);
    sum = grind (
      int_laws,
      o.sum,
      o.members a,
      total-insert (update s.brokers a (pos 0)) a s.live,
      total-update_absent s.brokers a (pos 0) s.live,
    );
  }

  reads-Conserved :
      (a : ℕ)
      → s.owners a ≡ resting
      → Conserved ndebug (record s { owners = update s.owners a (adding (s.brokers a)) })
  unfolding exists Holds
  reads-Conserved a e = record {
    set = o.set;
    members = λ x. ground (arith, o.members x);
    known = o.known;
    held = λ x. ground (arith, o.held x);
    no_less = o.no_less;
    sum = o.sum;
  }

  leaves-Conserved :
      (a : ℕ)
      → s.owners a ≡ resting
      → Conserved ndebug (record s { owners = update s.owners a (leaving (s.brokers a)) })
  unfolding exists Holds
  leaves-Conserved a e = record {
    set = o.set;
    members = λ x. ground (arith, o.members x);
    known = o.known;
    held = λ x. ground (arith, o.held x);
    no_less = o.no_less;
    sum = o.sum;
  }

  is_live : (a : ℕ) → exists (s.owners a) ≡ true → contains a s.live ≡ true
  is_live a h = ground (arith, o.members a)

  writes-Conserved :
      (a : ℕ) (v by : ℤ)
      → s.owners a ≡ adding v
      → pos 0 ≤ℤ by
      → Conserved ndebug (record s {
        brokers = update s.brokers a (v +ℤ by);
        owners = update s.owners a resting;
        counted = s.counted +ℤ by;
      })
  unfolding exists Holds
  writes-Conserved a v by e h = record {
    set = o.set;
    members = λ x. ground (arith, o.members x);
    known = o.known;
    held = λ x. ground (arith, o.held x);
    no_less = λ x. grind (int_laws, o.no_less x, o.no_less a, o.held a);
    sum = grind (
      int_laws,
      o.sum,
      o.held a,
      total-update s.brokers a 0 (v +ℤ by) s.live o.set (is_live a (ground (arith))),
    );
  }

  is_erased-Conserved :
      (a : ℕ) (v : ℤ)
      → s.owners a ≡ leaving v
      → Conserved ndebug (record s {
        counter = Duplex.erase ndebug a v s.counter;
        owners = update s.owners a absent;
        live = erase a s.live;
      })
  unfolding exists Holds Duplex.erase Duplex.bump Duplex.forget
  is_erased-Conserved a v e = record {
    set = erase-IsAscending 0 a s.live o.set;
    members = λ x. ground (arith, contains-erase x a 0 s.live o.set, o.members x);
    known = ground (arith, o.known);
    held = λ x. ground (arith, o.held x);
    no_less = o.no_less;
    sum =
        grind
          (int_laws, o.sum, o.held a, total-erase s.brokers a s.live (is_live a (ground (arith))));
  }

  bumps-Conserved :
      (by : ℤ)
      → Conserved ndebug (record s { counter = bump by s.counter; counted = s.counted +ℤ by })
  unfolding Duplex.bump
  bumps-Conserved by = record {
    set = o.set;
    members = o.members;
    known = o.known;
    held = o.held;
    no_less = o.no_less;
    sum = grind (int_laws, o.sum);
  }

Step-Conserved :
    {ndebug : Bool} {s t : System} → Step ndebug s t → Conserved ndebug s → Conserved ndebug t
unfolding poll
Step-Conserved (creates a e l) o = creates-Conserved o a e
Step-Conserved (reads a e) o = reads-Conserved o a e
Step-Conserved (writes a v by e h) o = writes-Conserved o a v by e h
Step-Conserved (leaves a e) o = leaves-Conserved o a e
Step-Conserved (is_erased a v e l) o = is_erased-Conserved o a v e
Step-Conserved (bumps by h) o = bumps-Conserved o by
Step-Conserved (locks l) o = record {
  set = o.set;
  members = o.members;
  known = o.known;
  held = o.held;
  no_less = o.no_less;
  sum = o.sum;
}
Step-Conserved (polls a todo tmp l h) o = record {
  set = o.set;
  members = o.members;
  known = o.known;
  held = o.held;
  no_less = o.no_less;
  sum = o.sum;
}
Step-Conserved (returns tmp l) o = record {
  set = o.set;
  members = o.members;
  known = o.known;
  held = o.held;
  no_less = o.no_less;
  sum = o.sum;
}

start-Conserved : {ndebug : Bool} (v : ℤ) → Conserved ndebug (start v)
unfolding exists Holds Duplex.duplex total IsAscending contains
start-Conserved v = record {
  set = tt;
  members = λ a. refl;
  known = ground arith;
  held = λ a. tt;
  no_less = λ a. omega arith;
  sum = grind int_laws;
}

pub Reach-Conserved :
    {ndebug : Bool} {v : ℤ} {s : System} → Reach ndebug (start v) s → Conserved ndebug s
Reach-Conserved here = start-Conserved _
Reach-Conserved (later r st) = Step-Conserved st (Reach-Conserved r)
