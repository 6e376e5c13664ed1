-- ===== src/Counter/Arrays.antt =====
-- The arrays of include/counter.h: `bumper_array`, which the simplex and the duplex arrays only rename,
-- and `buffer_array`. `none` is an access outside of the array, which the source leaves undefined.
-- A size is at most the greatest `int`.
use google_concurrency_libra.Base.{
  ℕ, suc, zero, ◌+◌, List, length, get_elem?, set, replicate, Option, some, ◌≡◌, refl, [], ◌∷◌,
  ◌++◌, arith, ◌>>=◌, ap, length-append, sym, append_assoc,
}
use google_concurrency_libra.Base.Int.{ℤ, pos, ◌+ℤ◌}
use google_concurrency_libra.Counter.{Bumper, bumper, load, exchange, push, add, store}

unfoldable pub bumper_array : ℕ → List Bumper
bumper_array size = replicate size (bumper (pos 0))

unfoldable pub load_at : List Bumper → ℕ → Option ℤ
load_at storage idx = get_elem? storage idx >>= λ b. some (load b)

unfoldable pub exchange_at : List Bumper → ℕ → ℤ → Option (ℤ × List Bumper)
exchange_at storage idx value =
    get_elem? storage idx >>= λ b. some ((exchange b value).0, set storage idx (exchange b value).1)

-- `push( idx )` on the prime and the buffers.
unfoldable pub push_at : ℕ → List Bumper × List Bumper → Option (List Bumper × List Bumper)
push_at idx (prime, storage) = get_elem? prime idx >>= λ p.
    get_elem? storage idx >>= λ b. some (set prime idx (push p b).0, set storage idx (push p b).1)

-- The rounds of the loop of `push()` from `i`.
unfoldable pub push_from : ℕ → ℕ → List Bumper × List Bumper → Option (List Bumper × List Bumper)
push_from zero i arrays = some arrays
push_from (suc n) i arrays = push_at i arrays >>= λ pushed. push_from n (i + 1) pushed

unfoldable pub push_all : List Bumper × List Bumper → Option (List Bumper × List Bumper)
push_all (prime, storage) = push_from (length storage) 0 (prime, storage)

-- One sum for each index.
unfoldable pub sums : List Bumper → List Bumper → List Bumper
sums [] bs = []
sums (p ∷ ps) [] = p ∷ ps
sums (p ∷ ps) (b ∷ bs) = add p (load b) ∷ sums ps bs

-- A buffer gives all that it has to its prime.
push_lem : (p b : Bumper) → push p b ≡ (add p (load b), bumper (pos 0))
unfolding push exchange add load bumper store ◌+ℤ◌
push_lem p b = ground arith

get_elem?-append_at :
    {A : Type 0} (xs ys : List A) (x : A) (n : ℕ)
    → length xs ≡ n
    → get_elem? (xs ++ (x ∷ ys)) n ≡ some x
get_elem?-append_at [] ys x n h = rw⁻¹ h refl
get_elem?-append_at (z ∷ xs) ys x n h = rw⁻¹ h (get_elem?-append_at xs ys x (length xs) refl)

set-append_at :
    {A : Type 0} (xs ys : List A) (x y : A) (n : ℕ)
    → length xs ≡ n
    → set (xs ++ (x ∷ ys)) n y ≡ xs ++ (y ∷ ys)
set-append_at [] ys x y n h = rw⁻¹ h refl
set-append_at (z ∷ xs) ys x y n h =
    rw⁻¹ h (ap (λ l. z ∷ l) (set-append_at xs ys x y (length xs) refl))

push_at_lem :
    (ps qs zs bs : List Bumper) (q b : Bumper) (n : ℕ)
    → length ps ≡ n
    → length zs ≡ n
    → push_at n (ps ++ (q ∷ qs), zs ++ (b ∷ bs))
      ≡ some (ps ++ (add q (load b) ∷ qs), zs ++ (bumper (pos 0) ∷ bs))
unfolding push_at
push_at_lem ps qs zs bs q b n h k = rw (
  get_elem?-append_at ps qs q n h,
  get_elem?-append_at zs bs b n k,
  push_lem q b,
  set-append_at ps qs q (add q (load b)) n h,
  set-append_at zs bs b (bumper (pos 0)) n k,
)

length-append_one :
    {A : Type 0} (xs : List A) (x : A) (n : ℕ) → length xs ≡ n → length (xs ++ (x ∷ [])) ≡ n + 1
length-append_one xs x n h = omega (arith, length-append xs (x ∷ []))

push_from_lem :
    (ps qs zs bs : List Bumper) (n : ℕ)
    → length ps ≡ n
    → length zs ≡ n
    → length qs ≡ length bs
    → push_from (length bs) n (ps ++ qs, zs ++ bs)
      ≡ some (ps ++ sums qs bs, zs ++ replicate (length bs) (bumper (pos 0)))
unfolding push_from sums
push_from_lem ps [] zs [] n h k l = refl
push_from_lem ps [] zs (b ∷ bs) n h k l = ground arith
push_from_lem ps (q ∷ qs) zs [] n h k l = ground arith
push_from_lem ps (q ∷ qs) zs (b ∷ bs) n h k l =
    let rest : push_from (length bs) (n + 1)
          ((ps ++ (add q (load b) ∷ [])) ++ qs, (zs ++ (bumper (pos 0) ∷ [])) ++ bs)
        ≡ some (
          (ps ++ (add q (load b) ∷ [])) ++ sums qs bs,
          (zs ++ (bumper (pos 0) ∷ [])) ++ replicate (length bs) (bumper (pos 0)),
        ) =
      push_from_lem (ps ++ (add q (load b) ∷ [])) qs (zs ++ (bumper (pos 0) ∷ [])) bs (n + 1)
        (length-append_one ps (add q (load b)) n h) (length-append_one zs (bumper (pos 0)) n k)
        (omega arith) in
    rw
      (
        push_at_lem ps qs zs bs q b n h k,
        sym (append_assoc ps (add q (load b) ∷ []) qs),
        sym (append_assoc zs (bumper (pos 0) ∷ []) bs),
        sym (append_assoc ps (add q (load b) ∷ []) (sums qs bs)),
        sym (append_assoc zs (bumper (pos 0) ∷ []) (replicate (length bs) (bumper (pos 0)))),
      )
      rest

-- `push()` ends inside the arrays, and does at every index what one sum does: the prime has what the
-- buffer held, and the buffer is 0.
pub push_all_lem :
    (prime storage : List Bumper)
    → length prime ≡ length storage
    → push_all (prime, storage) ≡ some (sums prime storage, bumper_array (length storage))
unfolding push_all bumper_array
push_all_lem prime storage h = push_from_lem [] prime [] storage 0 refl refl h
