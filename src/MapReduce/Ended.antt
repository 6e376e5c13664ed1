-- ===== src/MapReduce/Ended.antt =====
-- The helper threads of include/map_reduce_impl.h all come to their ends, and then nothing is left.
use google_concurrency_libra.Base.{
  Bool, ℕ, ◌+◌, ◌*◌, ◌<◌, ◌≡◌, refl, false, List, [], ◌∷◌, ◌⊎◌, inl, inr, some, none, arith, suc,
  length, sum_map, sum_map-append, Bool-cases, subst, ap, dec_lt, ◌-◌,
}
use google_concurrency_libra.MapReduce.{
  Stage, looking, handling, ended, Reader, System, reader, Turn, takes, handles, throws, ends,
  Moves, first, further, Step, moves, begins, Run, here, later,
}
use google_concurrency_libra.MapReduce.Readers.{
  written, AllEnded, left_in, work, Fits, AllFit, gain, holds, weigh, weight, Run-weight,
}
use google_concurrency_libra.MapReduce.Iterators.{
  handling_left, iter_next-exact, begin_exact, iter_next-Fits, begin-Fits, Fits-iter_next,
  looks-Fits, AllFit-iter_next,
}

module _ {A B : Type 0} (func : A → List B × Bool) (calm : (v : A) → (func v).1 ≡ false) where
  Turn-left :
      {q q' : List A} {r r' : Reader A B}
      → Turn func q r q' r'
      → 1 + left_in r'.stage + 2 * length q' ≡ left_in r.stage + 2 * length q
  unfolding left_in
  Turn-left {q} (takes v e) = rw e (iter_next-exact v q)
  Turn-left {q} (handles v it e c) = rw e (omega (arith, handling_left v it))
  Turn-left (throws v it e c) = absurd (ground (arith, calm v))
  Turn-left (ends e) = rw e refl

  Moves-left :
      {q q' : List A} {rs rs' : List (Reader A B)}
      → Moves func q rs q' rs'
      → 1 + sum_map (λ r. left_in r.stage) rs' + 2 * length q'
        ≡ sum_map (λ r. left_in r.stage) rs + 2 * length q
  Moves-left (first t) = omega (arith, Turn-left t)
  Moves-left (further m) = omega (arith, Moves-left m)

  Step-work : {s t : System A B} → Step func s t → 1 + work t ≡ work s
  unfolding work reader
  Step-work (moves m) = omega (arith, Moves-left m)
  Step-work {s} (begins n e) = omega (arith, begin_exact s.queue)

  pub Run-work : {s t : System A B} {n : ℕ} → Run func s n t → n + work t ≡ work s
  Run-work here = omega arith
  Run-work (later r st) = omega (arith, Run-work r, Step-work st)

  Turn-Fits :
      {q q' : List A} {r r' : Reader A B} → Turn func q r q' r' → Fits q r.stage → Fits q' r'.stage
  unfolding Fits
  Turn-Fits {q} (takes v e) f = iter_next-Fits v q
  Turn-Fits {q} (handles v it e c) f = looks-Fits q v it (subst (Fits q) e f)
  Turn-Fits (throws v it e c) f = absurd (ground (arith, calm v))
  Turn-Fits {q} (ends e) f = subst (Fits q) e f

  Turn-keeps :
      {q q' : List A} {r r' : Reader A B} (st : Stage A)
      → Turn func q r q' r'
      → Fits q st
      → Fits q' st
  Turn-keeps {q} st (takes v e) f = Fits-iter_next q st f
  Turn-keeps st (handles v it e c) f = f
  Turn-keeps st (throws v it e c) f = f
  Turn-keeps st (ends e) f = f

  Turn-AllFit :
      {q q' : List A} {r r' : Reader A B} (rs : List (Reader A B))
      → Turn func q r q' r'
      → AllFit q rs
      → AllFit q' rs
  unfolding AllFit
  Turn-AllFit [] t f = tt
  Turn-AllFit (r ∷ rs) t (f, fs) = (Turn-keeps r.stage t f, Turn-AllFit rs t fs)

  Moves-keeps :
      {q q' : List A} {rs rs' : List (Reader A B)} (st : Stage A)
      → Moves func q rs q' rs'
      → Fits q st
      → Fits q' st
  Moves-keeps st (first t) f = Turn-keeps st t f
  Moves-keeps st (further m) f = Moves-keeps st m f

  Moves-AllFit :
      {q q' : List A} {rs rs' : List (Reader A B)}
      → Moves func q rs q' rs'
      → AllFit q rs
      → AllFit q' rs'
  unfolding AllFit
  Moves-AllFit (first {rs = rs} t) (f, fs) = (Turn-Fits t f, Turn-AllFit rs t fs)
  Moves-AllFit (further {r = r} m) (f, fs) = (Moves-keeps r.stage m f, Moves-AllFit m fs)

  Step-AllFit :
      {s t : System A B} → Step func s t → AllFit s.queue s.readers → AllFit t.queue t.readers
  unfolding AllFit reader
  Step-AllFit (moves m) f = Moves-AllFit m f
  Step-AllFit {s} (begins n e) f = (begin-Fits s.queue, AllFit-iter_next s.queue s.readers f)

  pub Run-AllFit :
      {s t : System A B} {n : ℕ}
      → Run func s n t
      → AllFit s.queue s.readers
      → AllFit t.queue t.readers
  Run-AllFit here f = f
  Run-AllFit (later r st) f = Step-AllFit st (Run-AllFit r f)

  -- The number of threads, started or not, stays.
  Moves-length :
      {q q' : List A} {rs rs' : List (Reader A B)} → Moves func q rs q' rs' → length rs' ≡ length rs
  Moves-length (first t) = refl
  Moves-length (further m) = ap suc (Moves-length m)

  Step-threads :
      {s t : System A B} → Step func s t → t.unborn + length t.readers ≡ s.unborn + length s.readers
  Step-threads (moves m) = omega (arith, Moves-length m)
  Step-threads (begins n e) = omega arith

  pub Run-threads :
      {s t : System A B} {n : ℕ}
      → Run func s n t
      → t.unborn + length t.readers ≡ s.unborn + length s.readers
  Run-threads here = refl
  Run-threads (later r st) = omega (arith, Run-threads r, Step-threads st)

-- Threads that have not all ended can go on, whether a value throws or not.
module _ {A B : Type 0} (func : A → List B × Bool) where
  turns :
      (q : List A) (r : Reader A B) (st : Stage A)
      → r.stage ≡ st
      → (st ≡ ended) ⊎ ((q' : List A) × (r' : Reader A B) × Turn func q r q' r')
  turns q r (looking none) e = inr (_, _, ends e)
  turns q r (looking (some v)) e = inr (_, _, takes v e)
  turns q r (handling v it) e = elim (Bool-cases (func v).1) [
    | inl bad ↦ inr (_, _, throws v it e bad)
    | inr good ↦ inr (_, _, handles v it e good)
  ]
  turns q r ended e = inl refl

  can_move :
      (q : List A) (rs : List (Reader A B))
      → AllEnded rs ⊎ ((q' : List A) × (rs' : List (Reader A B)) × Moves func q rs q' rs')
  unfolding AllEnded
  can_move q [] = inl tt
  can_move q (r ∷ rs) = elim (turns q r r.stage refl) [
    | inr (q', r', t) ↦ inr (q', r' ∷ rs, first t)
    | inl e ↦ elim (can_move q rs) [
      | inl es ↦ inl (e, es)
      | inr (q', rs', m) ↦ inr (q', r ∷ rs', further m)
    ]
  ]

  pub can_step :
      (s : System A B) → ((s.unborn ≡ 0) × AllEnded s.readers) ⊎ ((t : System A B) × Step func s t)
  can_step s = elim (dec_lt 0 s.unborn) [
    | yes p ↦ inr (_, begins (s.unborn - 1) (omega arith))
    | no p ↦ elim (can_move s.queue s.readers) [
      | inl es ↦ inl (omega arith, es)
      | inr (q', rs', m) ↦ inr (_, moves m)
    ]
  ]

module _ {A B : Type 0} (func : A → List B × Bool) (w : B → ℕ) where
  ended-weigh : (rs : List (Reader A B)) → AllEnded rs → weigh func w rs ≡ sum_map w (written rs)
  unfolding weigh AllEnded written holds
  ended-weigh [] e = refl
  ended-weigh (r ∷ rs) (e, es) =
      rw e (omega (arith, ended-weigh rs es, sum_map-append w r.log (written rs)))

module _ {A B : Type 0} where
  ended-empty :
      (q : List A) (rs : List (Reader A B)) → 0 < length rs → AllEnded rs → AllFit q rs → q ≡ []
  unfolding AllEnded AllFit Fits
  ended-empty q [] h e f = absurd (omega arith)
  ended-empty q (r ∷ rs) h (e, es) (f, fs) = subst (Fits q) e f

-- Where no value throws and there is a thread: each step takes one from `work`, and a thread can go on
-- unless all have ended, and then what has been written is what handling every value writes.
pub run_ends :
    {A B : Type 0} (func : A → List B × Bool)
    → ((v : A) → (func v).1 ≡ false)
    → {s t : System A B} {n : ℕ} → 0 < s.unborn + length s.readers
    → AllFit s.queue s.readers
    → Run func s n t
    → (n + work t ≡ work s)
      × (((u : System A B) × Step func t u)
          ⊎ ((t.unborn ≡ 0)
              × AllEnded t.readers
              × ((w : B → ℕ) → sum_map w (written t.readers) ≡ weight func w s)))
unfolding weight
run_ends func calm {s} {t} some_thread fits r = (
  Run-work func calm r,
  elim (can_step func t) [
    | inr more ↦ inl more
    | inl (none_left, es) ↦ inr (
      none_left,
      es,
      λ w.
          let empty : t.queue ≡ [] =
            ended-empty t.queue t.readers (omega (arith, Run-threads func calm r)) es
              (Run-AllFit func calm r fits) in
          let nothing : sum_map (gain func w) t.queue ≡ 0 = ap (sum_map (gain func w)) empty in
          omega (arith, ended-weigh func w t.readers es, Run-weight func w calm r, nothing),
    )
  ],
)
