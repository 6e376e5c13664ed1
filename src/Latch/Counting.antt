-- ===== src/Latch/Counting.antt =====
-- How often a latch of src/latch.cc can be counted down.
use google_concurrency_libra.Base.{
  Bool, ℕ, ◌+◌, ◌-◌, ◌≤◌, ◌<◌, ◌≡◌, ap, ◌↔◌, ◌⊎◌, inl, inr, true, List, [], ◌∷◌, arith, dec_le,
  ◌==◌, ◌∙◌,
}
use google_concurrency_libra.Base.Int.{pos}
use google_concurrency_libra.Outcome.{Outcome, returned, thrown, fault, logic_error}
use google_concurrency_libra.Latch.{Latch, count_down}

abbrev pub sum : List ℕ → ℕ
sum [] = 0
sum (n ∷ ns) = n + sum ns

-- Calls of `count_down` one after the other, up to the first that throws.
pub count_downs : Latch → List ℕ → Outcome Latch
count_downs l [] = returned l
count_downs l (n ∷ ns) = elim (count_down l (pos n)) [
  | returned (l', _) ↦ count_downs l' ns
  | thrown e ↦ thrown e
  | fault ↦ fault
]

one_fits :
    (c n w : ℕ)
    → n ≤ c
    → (b : Bool) × (count_down (record { count = pos c; waiting = w }) (pos n)
        ≡ returned (record { count = pos (c - n); waiting = w }, b))
      × ((b ≡ true) ↔ (c - n ≡ 0))
unfolding count_down
one_fits c n w h = (c - n == 0, ground arith, (λ e. ground arith, λ e. ground arith))

one_exceeds :
    (c n w : ℕ)
    → c < n
    → count_down (record { count = pos c; waiting = w }) (pos n) ≡ thrown logic_error
unfolding count_down
one_exceeds c n w h = ground arith

-- From a count that is not negative, a call with an amount that is not negative throws exactly if
-- the amount exceeds the count, and otherwise subtracts it; it notifies exactly if nothing is left.
pub count_down_lem :
    (c n w : ℕ)
    → let l : Latch = record { count = pos c; waiting = w } in
      ((c < n) × (count_down l (pos n) ≡ thrown logic_error))
      ⊎ ((n ≤ c)
          × ((b : Bool) × (count_down l (pos n) ≡ returned (record l { count = pos (c - n) }, b))
              × ((b ≡ true) ↔ (c ≡ n))))
count_down_lem c n w = elim (dec_le n c) [
  | yes h ↦
      let (b, e, i) = one_fits c n w h in
      inr (h, (b, e, (λ p. omega (arith, i.0 p), λ p. i.1 (omega arith))))
  | no h ↦ inl (omega arith, one_exceeds c n w (omega arith))
]

-- A series of calls succeeds exactly if the amounts add up to at most the initial count, and leaves
-- the rest of it; the latch is then ready exactly if nothing is left.
pub count_downs_lem :
    (ns : List ℕ) (c w : ℕ)
    → let l : Latch = record { count = pos c; waiting = w } in
      ((c < sum ns) × (count_downs l ns ≡ thrown logic_error))
      ⊎ ((sum ns ≤ c) × (count_downs l ns ≡ returned (record l { count = pos (c - sum ns) })))
unfolding count_downs
count_downs_lem [] c w =
    inr (omega arith, ap (λ k. returned (record { count = pos k; waiting = w })) (omega arith))
count_downs_lem (n ∷ ns) c w = elim (dec_le n c) [
  | yes h ↦
      let (b, e, i) = one_fits c n w h in
      elim (count_downs_lem ns (c - n) w) [
        | inl (over, f) ↦ inl (omega arith, rw (e, count_downs) f)
        | inr (fits, f) ↦ inr (
          omega arith,
          rw (e, count_downs)
              (f ∙ ap (λ k. returned (record { count = pos k; waiting = w })) (omega arith)),
        )
      ]
  | no h ↦ inl (omega arith, rw (one_exceeds c n w (omega arith), count_downs))
]
