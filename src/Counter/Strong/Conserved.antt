-- ===== src/Counter/Strong/Conserved.antt =====
-- Where the counts of a strong duplex counter of include/counter.h are, as long as no exchange drains a
-- broker whose destructor has begun.
use google_concurrency_libra.Base.{
  Bool, ap, ℕ, ◌≡◌, ◌≢◌, refl, true, false, List, [], ◌∷◌, ◌++◌, arith, update,
}
use google_concurrency_libra.Base.Int.{pos_part, neg_part, ℤ, pos, ◌+ℤ◌, int_laws}
use google_concurrency_libra.Base.Sets.{
  IsAscending, contains, insert, erase, insert-IsAscending, contains-insert, erase-IsAscending,
  contains-erase,
}
use google_concurrency_libra.Counter.Duplex
use google_concurrency_libra.Counter.Duplex.{bump}
use google_concurrency_libra.Counter.Children.{
  total, total-insert, total-erase, total-change, total-change_absent,
}
use google_concurrency_libra.Counter.Strong.{
  Owner, absent, resting, leaving, given, Lock, idle, summing, draining, System, start, Step,
  creates, adds, leaves, gives, is_erased, bumps, locks_load, polls, unlocks_load, ends_load,
  locks_exchange, drains, unlocks_exchange, ends_exchange, Reach, here, later, poll, drain,
  exchange_prime,
}

unfoldable pub exists : Owner → Bool
exists absent = false
exists resting = true
exists (leaving v) = true
exists (given v) = true

-- The value that the destructor has loaded is still the broker's.
unfoldable pub Holds : ℤ → Owner → Type 0
Holds b absent = Unit
Holds b resting = Unit
Holds b (leaving v) = v ≡ b
Holds b (given v) = Unit

-- What a broker holds that the prime does not.
unfoldable pub worth : Owner → ℤ → ℤ
worth absent b = b
worth resting b = b
worth (leaving v) b = b
worth (given v) b = pos 0

unfoldable pub worths : System → ℕ → ℤ
worths s a = worth (s.owners a) (s.brokers a)

-- What an exchange that has the lock has drained.
unfoldable pub drained : Lock → ℤ
drained idle = pos 0
drained (summing todo tmp) = pos 0
drained (draining todo tmp) = tmp

unfoldable pub sum_of : List ℤ → ℤ
sum_of [] = pos 0
sum_of (x ∷ xs) = sum_of xs +ℤ x

-- What is in the prime, in the brokers, and in the hands of exchanges.
unfoldable pub in_store : System → ℤ
in_store s = s.counter.prime +ℤ total (worths s) s.live +ℤ (drained s.lock +ℤ sum_of s.exchanges)

sum_of-remove : (xs ys : List ℤ) (x : ℤ) → sum_of (xs ++ (x ∷ ys)) ≡ sum_of (xs ++ ys) +ℤ x
unfolding sum_of
sum_of-remove [] ys x = refl
sum_of-remove (z ∷ xs) ys x =
    let r : sum_of (xs ++ (x ∷ ys)) ≡ sum_of (xs ++ ys) +ℤ x = sum_of-remove xs ys x in
    grind (int_laws, r)

pub record Conserved (s : System) : Type 0 where
  pub set : IsAscending 0 s.live
  pub members : (a : ℕ) → contains a s.live ≡ exists (s.owners a)
  pub held : (a : ℕ) → Holds (s.brokers a) (s.owners a)
  pub sum : s.counted ≡ s.extracted +ℤ in_store s

-- The sum after a step, from what the step does to the prime, to one broker and to the rest.
rebalance :
    (c e p t r c' p' t' r' f f' : ℤ)
    → c ≡ e +ℤ (p +ℤ t +ℤ r)
    → t' +ℤ f ≡ t +ℤ f'
    → c' +ℤ (p +ℤ f +ℤ r) ≡ c +ℤ (p' +ℤ f' +ℤ r')
    → c' ≡ e +ℤ (p' +ℤ t' +ℤ r')
rebalance c e p t r c' p' t' r' f f' h k l = omega (
  int_laws,
  ap pos_part h,
  ap neg_part h,
  ap pos_part k,
  ap neg_part k,
  ap pos_part l,
  ap neg_part l,
)

zero_worth : {t e f : ℤ} → t ≡ e +ℤ f → f ≡ pos 0 → e ≡ t
zero_worth h k = grind int_laws

module _ {s : System} (o : Conserved s) where
  is_live : (a : ℕ) → exists (s.owners a) ≡ true → contains a s.live ≡ true
  is_live a h = ground (arith, o.members a)

  -- A step that changes broker `a`, the prime and what exchanges have drained.
  sum_after :
      (t : System) (a : ℕ) (f f' d d' : ℤ)
      → ((x : ℕ) → x ≢ a → worths t x ≡ worths s x)
      → contains a s.live ≡ true
      → worths s a ≡ f
      → worths t a ≡ f'
      → drained s.lock ≡ d
      → drained t.lock ≡ d'
      → t.counted +ℤ (s.counter.prime +ℤ f +ℤ (d +ℤ sum_of s.exchanges))
        ≡ s.counted +ℤ (t.counter.prime +ℤ f' +ℤ (d' +ℤ sum_of t.exchanges))
      → t.counted
        ≡ s.extracted
          +ℤ (t.counter.prime +ℤ total (worths t) s.live +ℤ (drained t.lock +ℤ sum_of t.exchanges))
  unfolding in_store
  sum_after t a f f' d d' h c ws wt ds dt k =
      rebalance s.counted s.extracted s.counter.prime (total (worths s) s.live)
        (drained s.lock +ℤ sum_of s.exchanges) t.counted t.counter.prime (total (worths t) s.live)
        (drained t.lock +ℤ sum_of t.exchanges) (worths s a) (worths t a) o.sum
        (total-change (worths s) (worths t) a s.live h o.set c) (rw (ws, wt, ds, dt) k)

  creates-Conserved :
      (ndebug : Bool) (a : ℕ)
      → s.owners a ≡ absent
      → s.lock ≡ idle
      → Conserved (record s {
        counter = Duplex.insert ndebug a s.counter;
        brokers = update s.brokers a (pos 0);
        owners = update s.owners a resting;
        live = insert a s.live;
      })
  unfolding exists Holds Duplex.insert in_store worths worth
  creates-Conserved ndebug a e l =
      let t : System = record s {
        counter = Duplex.insert ndebug a s.counter;
        brokers = update s.brokers a (pos 0);
        owners = update s.owners a resting;
        live = insert a s.live;
      } in
      record {
        set = insert-IsAscending 0 a s.live (omega arith) o.set;
        members = λ x. ground (arith, contains-insert x a s.live, o.members x);
        held = λ x. ground (arith, o.held x);
        sum = grind (
          int_laws,
          o.sum,
          o.members a,
          total-insert (worths t) a s.live,
          total-change_absent (worths s) (worths t) a s.live (λ x n. ground (arith)),
        );
      }

  adds-Conserved :
      (a : ℕ) (by : ℤ)
      → s.owners a ≡ resting
      → Conserved
          (record s { brokers = update s.brokers a (s.brokers a +ℤ by); counted = s.counted +ℤ by })
  unfolding exists Holds in_store worths worth
  adds-Conserved a by e =
      let t : System = record s {
        brokers = update s.brokers a (s.brokers a +ℤ by);
        counted = s.counted +ℤ by;
      } in
      record {
        set = o.set;
        members = o.members;
        held = λ x. ground (arith, o.held x);
        sum =
            sum_after t a (s.brokers a) (s.brokers a +ℤ by) (drained s.lock) (drained s.lock)
              (λ x n. ground (arith)) (is_live a (ground (arith))) (ground (arith, o.held a))
              (ground (arith, o.held a)) refl refl (omega int_laws);
      }

  leaves-Conserved :
      (a : ℕ)
      → s.owners a ≡ resting
      → Conserved (record s { owners = update s.owners a (leaving (s.brokers a)) })
  unfolding exists Holds in_store worths worth
  leaves-Conserved a e =
      let t : System = record s { owners = update s.owners a (leaving (s.brokers a)) } in
      record {
        set = o.set;
        members = λ x. ground (arith, o.members x);
        held = λ x. ground (arith, o.held x);
        sum =
            sum_after t a (s.brokers a) (s.brokers a) (drained s.lock) (drained s.lock)
              (λ x n. ground (arith)) (is_live a (ground (arith))) (ground (arith, o.held a))
              (ground (arith, o.held a)) refl refl (omega int_laws);
      }

  gives-Conserved :
      (a : ℕ) (v : ℤ)
      → s.owners a ≡ leaving v
      → Conserved (record s { counter = bump v s.counter; owners = update s.owners a (given v) })
  unfolding exists Holds in_store worths worth Duplex.bump
  gives-Conserved a v e =
      let t : System = record s {
        counter = bump v s.counter;
        owners = update s.owners a (given v);
      } in
      record {
        set = o.set;
        members = λ x. ground (arith, o.members x);
        held = λ x. ground (arith, o.held x);
        sum =
            sum_after t a v (pos 0) (drained s.lock) (drained s.lock) (λ x n. ground (arith))
              (is_live a (ground (arith))) (ground (arith, o.held a)) (ground (arith, o.held a))
              refl refl (omega int_laws);
      }

  -- The prime has the count of the broker that goes.
  erased_sum :
      (a : ℕ) (t : System)
      → ((x : ℕ) → x ≢ a → worths t x ≡ worths s x)
      → contains a s.live ≡ true
      → worths s a ≡ pos 0
      → t.counter.prime ≡ s.counter.prime
      → t.counted ≡ s.counted
      → drained t.lock ≡ drained s.lock
      → t.exchanges ≡ s.exchanges
      → t.counted
        ≡ s.extracted
          +ℤ (t.counter.prime
              +ℤ total (worths t) (erase a s.live)
              +ℤ (drained t.lock +ℤ sum_of t.exchanges))
  unfolding in_store
  erased_sum a t h c w p n d x =
      let gone : contains a (erase a s.live) ≡ false =
        ground (arith, contains-erase a a 0 s.live o.set) in
      let left : total (worths t) (erase a s.live) ≡ total (worths s) (erase a s.live) =
        total-change_absent (worths s) (worths t) a (erase a s.live) h gone in
      rw (left, zero_worth (total-erase (worths s) a s.live c) w, n, p, d, x) o.sum

  is_erased-Conserved :
      (ndebug : Bool) (a : ℕ) (v : ℤ)
      → s.owners a ≡ given v
      → Conserved (record s {
        counter = Duplex.forget ndebug a s.counter;
        owners = update s.owners a absent;
        live = erase a s.live;
      })
  unfolding exists Holds in_store worths worth Duplex.forget
  is_erased-Conserved ndebug a v e =
      let t : System = record s {
        counter = Duplex.forget ndebug a s.counter;
        owners = update s.owners a absent;
        live = erase a s.live;
      } in
      record {
        set = erase-IsAscending 0 a s.live o.set;
        members = λ x. ground (arith, contains-erase x a 0 s.live o.set, o.members x);
        held = λ x. ground (arith, o.held x);
        sum =
            erased_sum a t (λ x n. ground (arith)) (is_live a (ground (arith))) (ground (arith))
              (ground arith) refl refl refl;
      }

  drains-Conserved :
      (a : ℕ) (todo : List ℕ) (tmp : ℤ)
      → s.lock ≡ draining todo tmp
      → s.owners a ≡ resting
      → Conserved (drain a todo tmp s)
  unfolding exists Holds in_store worths worth drain drained
  drains-Conserved a todo tmp l e = record {
    set = o.set;
    members = o.members;
    held = λ x. ground (arith, o.held x);
    sum =
        sum_after (drain a todo tmp s) a (s.brokers a) (pos 0) tmp (tmp +ℤ s.brokers a)
          (λ x n. ground (arith)) (is_live a (ground (arith))) (ground (arith, o.held a))
          (ground (arith, o.held a)) (rw l refl) refl (omega int_laws);
  }

Step-Conserved : {ndebug : Bool} {s t : System} → Step ndebug false s t → Conserved s → Conserved t
unfolding poll exchange_prime in_store drained sum_of worths Duplex.bump
Step-Conserved (creates a e l) o = creates-Conserved o _ a e l
Step-Conserved (adds a by e) o = adds-Conserved o a by e
Step-Conserved (leaves a e) o = leaves-Conserved o a e
Step-Conserved (gives a v e) o = gives-Conserved o a v e
Step-Conserved (is_erased a v e l) o = is_erased-Conserved o _ a v e
Step-Conserved (bumps by) o = record {
  set = o.set;
  members = o.members;
  held = o.held;
  sum = grind (int_laws, o.sum);
}
Step-Conserved (locks_load l) o = record {
  set = o.set;
  members = o.members;
  held = o.held;
  sum = ground (arith, o.sum);
}
Step-Conserved (polls a todo tmp l h) o = record {
  set = o.set;
  members = o.members;
  held = o.held;
  sum = ground (arith, o.sum);
}
Step-Conserved (unlocks_load tmp l) o = record {
  set = o.set;
  members = o.members;
  held = o.held;
  sum = ground (arith, o.sum);
}
Step-Conserved (ends_load tmp xs ys e) o = record {
  set = o.set;
  members = o.members;
  held = o.held;
  sum = o.sum;
}
Step-Conserved (locks_exchange l) o = record {
  set = o.set;
  members = o.members;
  held = o.held;
  sum = ground (arith, o.sum);
}
Step-Conserved (drains a todo tmp l h r) o = drains-Conserved o a todo tmp l (r refl)
Step-Conserved (unlocks_exchange tmp l) o = record {
  set = o.set;
  members = o.members;
  held = o.held;
  sum = grind (int_laws, o.sum);
}
Step-Conserved (ends_exchange tmp to xs ys e) o = record {
  set = o.set;
  members = o.members;
  held = o.held;
  sum = grind (int_laws, o.sum, sum_of-remove xs ys tmp);
}

start-Conserved : (v : ℤ) → Conserved (start v)
unfolding exists Holds Duplex.duplex total IsAscending contains in_store drained sum_of
start-Conserved v = record { set = tt; members = λ a. refl; held = λ a. tt; sum = grind int_laws }

pub Reach-Conserved :
    {ndebug : Bool} {v : ℤ} {s : System} → Reach ndebug false (start v) s → Conserved s
Reach-Conserved here = start-Conserved _
Reach-Conserved (later r st) = Step-Conserved st (Reach-Conserved r)

-- As long as no exchange drains a broker whose destructor has begun, everything that was counted was
-- extracted once, or is still in the prime, in a broker, or in the hands of an exchange.
pub strong_conserves :
    {ndebug : Bool} {v : ℤ} {s : System}
    → Reach ndebug false (start v) s
    → s.counted ≡ s.extracted +ℤ in_store s
strong_conserves r = (Reach-Conserved r).sum
