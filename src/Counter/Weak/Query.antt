-- ===== src/Counter/Weak/Query.antt =====
-- What a query of a weak duplex counter of include/counter.h returns while other threads count.
use google_concurrency_libra.Base.{
  Bool, ℕ, ◌≡◌, refl, subst, sym, true, false, List, [], arith, update,
}
use google_concurrency_libra.Base.Int.{ℤ, pos, ◌+ℤ◌, ◌≤ℤ◌, int_laws}
use google_concurrency_libra.Base.Sets.{
  IsAscending, contains, erase, erase-IsAscending, contains-erase,
}
use google_concurrency_libra.Counter.Duplex
use google_concurrency_libra.Counter.Duplex.{bump}
use google_concurrency_libra.Counter.Children.{total, total-erase, total-add, total_nonneg}
use google_concurrency_libra.Counter.Weak.{
  Owner, resting, adding, System, Lock, idle, polling, start, Step, creates, reads, writes, leaves,
  is_erased, bumps, locks, polls, returns, Reach, here, later, poll, load_result,
}
use google_concurrency_libra.Counter.Weak.Conserved.{Holds, Conserved, Reach-Conserved}

-- The counts that the query has or will read.
abbrev pub in_sight : ℤ → System → List ℕ → ℤ
in_sight tmp s todo = tmp +ℤ s.counter.prime +ℤ total s.brokers todo

pub record Polled (ndebug : Bool) (s : System) (todo : List ℕ) (tmp : ℤ) : Type 0 where
  pub todo_set : IsAscending 0 todo
  pub part : (a : ℕ) → contains a todo ≡ true → contains a s.live ≡ true
  pub blind : ndebug ≡ true → (todo ≡ []) × (tmp ≡ pos 0)
  pub lower : ndebug ≡ false → s.before ≤ℤ in_sight tmp s todo
  pub upper : in_sight tmp s todo ≤ℤ s.counted

unfoldable pub Querying : Bool → System → Lock → Type 0
Querying ndebug s idle = Unit
Querying ndebug s (polling todo tmp) = Polled ndebug s todo tmp

module _ {ndebug : Bool} {s : System} (o : Conserved ndebug s) {todo : List ℕ} {tmp : ℤ} where
  writes-Polled :
      (a : ℕ) (v by : ℤ)
      → s.owners a ≡ adding v
      → pos 0 ≤ℤ by
      → Polled ndebug s todo tmp
      → Polled ndebug
          (record s {
            brokers = update s.brokers a (v +ℤ by);
            owners = update s.owners a resting;
            counted = s.counted +ℤ by;
          })
          todo
          tmp
  unfolding Holds
  writes-Polled a v by e h p = record {
    todo_set = p.todo_set;
    part = p.part;
    blind = p.blind;
    lower = λ n. grind (
      int_laws,
      p.lower n,
      total-add s.brokers a 0 v by todo p.todo_set (ground (arith, o.held a)),
    );
    upper = grind (
      int_laws,
      p.upper,
      total-add s.brokers a 0 v by todo p.todo_set (ground (arith, o.held a)),
    );
  }

  bumps-Polled :
      (by : ℤ)
      → pos 0 ≤ℤ by
      → Polled ndebug s todo tmp
      → Polled ndebug (record s { counter = bump by s.counter; counted = s.counted +ℤ by }) todo tmp
  unfolding Duplex.bump
  bumps-Polled by h p = record {
    todo_set = p.todo_set;
    part = p.part;
    blind = p.blind;
    lower = λ n. grind (int_laws, p.lower n);
    upper = grind (int_laws, p.upper);
  }

  polls-Polled :
      (a : ℕ)
      → contains a todo ≡ true
      → Polled ndebug s todo tmp
      → Polled ndebug (poll a todo tmp s) (erase a todo) (tmp +ℤ s.brokers a)
  unfolding poll contains
  polls-Polled a h p = record {
    todo_set = erase-IsAscending 0 a todo p.todo_set;
    part = λ x c. ground (arith, p.part x, contains-erase x a 0 todo p.todo_set);
    blind = λ n. ground (arith, p.blind n);
    lower = λ n. grind (int_laws, p.lower n, total-erase s.brokers a todo h);
    upper = grind (int_laws, p.upper, total-erase s.brokers a todo h);
  }

locks-Polled :
    {ndebug : Bool} {s : System}
    → Conserved ndebug s
    → Polled ndebug
        (record s { lock = polling s.counter.children (pos 0); before = s.counted })
        s.counter.children
        (pos 0)
unfolding total IsAscending contains
locks-Polled {ndebug = true} {s} o =
    subst
      (λ c.
        Polled true (record s { lock = polling s.counter.children (pos 0); before = s.counted }) c
          (pos 0))
      (sym o.known)
      (record {
        todo_set = tt;
        part = λ a c. ground (arith);
        blind = λ n. (refl, refl);
        lower = λ n. ground arith;
        upper = grind (int_laws, o.sum, total_nonneg s.brokers s.live o.no_less);
      })
locks-Polled {ndebug = false} {s} o =
    subst
      (λ c.
        Polled false (record s { lock = polling s.counter.children (pos 0); before = s.counted }) c
          (pos 0))
      (sym o.known)
      (record {
        todo_set = o.set;
        part = λ a c. c;
        blind = λ n. ground arith;
        lower = λ n. grind (int_laws, o.sum);
        upper = grind (int_laws, o.sum);
      })

-- A step that leaves the counts alone.
owner-Polled :
    {ndebug : Bool} {s : System} {todo : List ℕ} {tmp : ℤ} (f : ℕ → Owner)
    → Polled ndebug s todo tmp
    → Polled ndebug (record s { owners = f }) todo tmp
owner-Polled f p = record {
  todo_set = p.todo_set;
  part = p.part;
  blind = p.blind;
  lower = p.lower;
  upper = p.upper;
}

lift_Polled :
    {ndebug : Bool} {s t : System} (l : Lock)
    → ((todo : List ℕ) (tmp : ℤ) → Polled ndebug s todo tmp → Polled ndebug t todo tmp)
    → Querying ndebug s l
    → Querying ndebug t l
unfolding Querying
lift_Polled idle h q = tt
lift_Polled (polling todo tmp) h q = h todo tmp q

Step-Querying :
    {ndebug : Bool} {s t : System}
    → Step ndebug s t
    → Conserved ndebug s
    → Querying ndebug s s.lock
    → Querying ndebug t t.lock
unfolding Querying poll
Step-Querying {ndebug} (creates a e l) o q = subst (Querying ndebug _) (sym l) tt
Step-Querying {s = s} (reads a e) o q = lift_Polled s.lock (λ todo tmp. owner-Polled _) q
Step-Querying {s = s} (writes a v by e h) o q =
    lift_Polled s.lock (λ todo tmp. writes-Polled o a v by e h) q
Step-Querying {s = s} (leaves a e) o q = lift_Polled s.lock (λ todo tmp. owner-Polled _) q
Step-Querying {ndebug} (is_erased a v e l) o q = subst (Querying ndebug _) (sym l) tt
Step-Querying {s = s} (bumps by h) o q = lift_Polled s.lock (λ todo tmp. bumps-Polled o by h) q
Step-Querying (locks l) o q = locks-Polled o
Step-Querying {ndebug} {s} (polls a todo tmp l h) o q =
    polls-Polled o a h (subst (Querying ndebug s) l q)
Step-Querying (returns tmp l) o q = tt

pub Reach-Querying :
    {ndebug : Bool} {v : ℤ} {s : System} → Reach ndebug (start v) s → Querying ndebug s s.lock
unfolding Querying
Reach-Querying here = tt
Reach-Querying (later r st) = Step-Querying st (Reach-Conserved r) (Reach-Querying r)

-- A query that has polled every broker returns no more than was counted until then. If the assertions
-- are compiled, it returns no less than was counted when it took the lock; with `NDEBUG` it returns the
-- count of the prime alone.
pub weak_load_lem :
    {ndebug : Bool} {v tmp : ℤ} {s : System}
    → Reach ndebug (start v) s
    → s.lock ≡ polling [] tmp
    → (load_result tmp s.counter ≤ℤ s.counted)
      × (ndebug ≡ false → s.before ≤ℤ load_result tmp s.counter)
      × (ndebug ≡ true → load_result tmp s.counter ≡ s.counter.prime)
unfolding load_result Querying total
weak_load_lem {ndebug} {tmp = tmp} {s = s} r e =
    let p : Polled ndebug s [] tmp = subst (Querying ndebug s) e (Reach-Querying r) in
    (
      grind (int_laws, p.upper),
      λ n. grind (int_laws, p.lower n),
      λ n. grind (int_laws, (p.blind n).1),
    )
