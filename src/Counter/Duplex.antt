-- ===== src/Counter/Duplex.antt =====
-- What the strong and the weak duplex counters of include/counter.h share: a prime that knows its
-- brokers by their addresses. The calls of the set stand inside `assert`, so a build with `NDEBUG`
-- leaves them out.
use google_concurrency_libra.Base.{Bool, ℕ, List, [], if◌then◌else◌, true, false, ◌∷◌}
use google_concurrency_libra.Base.Int.{ℤ, ◌+ℤ◌}
use google_concurrency_libra.Base.Sets

pub record Duplex : Type 0 where
  pub prime : ℤ
  pub children : List ℕ

unfoldable pub duplex : ℤ → Duplex
duplex v = record { prime = v; children = [] }

-- `+=` of the prime.
unfoldable pub bump : ℤ → Duplex → Duplex
bump by d = record d { prime = d.prime +ℤ by }

unfoldable pub insert : Bool → ℕ → Duplex → Duplex
insert ndebug child d = if ndebug then d else record d { children = Sets.insert child d.children }

unfoldable pub forget : Bool → ℕ → Duplex → Duplex
forget ndebug child d = if ndebug then d else record d { children = Sets.erase child d.children }

-- `erase`, which first gives the count of the broker to the prime.
unfoldable pub erase : Bool → ℕ → ℤ → Duplex → Duplex
unfolding bump forget
erase ndebug child by d = forget ndebug child (bump by d)

-- The assertion of the destructor.
unfoldable pub may_die : Bool → Duplex → Bool
may_die ndebug d = if ndebug then true else elim d.children [ [] ↦ true | _ ∷ _ ↦ false ]
