-- ===== src/MapReduce/Iterators.antt =====
-- Steps of an iterator over the closed queue of include/map_reduce_impl.h.
use google_concurrency_libra.Base.{
  ◌+◌, ◌*◌, ◌≡◌, refl, List, [], ◌∷◌, Option, some, none, arith, length,
}
use google_concurrency_libra.MapReduce.{Stage, looking, handling, ended, Reader, iter_next}
use google_concurrency_libra.MapReduce.Readers.{left_in, Fits, AllFit}

module _ {A : Type 0} where
  pub handling_left : (v : A) (it : Option A) → left_in (handling v it) ≡ 1 + left_in (looking it)
  unfolding left_in
  handling_left v none = refl
  handling_left v (some x) = refl

  pub iter_next-exact :
      (v : A) (q : List A)
      → 1 + left_in (handling v (iter_next q).0) + 2 * length (iter_next q).1
        ≡ left_in (looking (some v)) + 2 * length q
  unfolding left_in iter_next
  iter_next-exact v [] = refl
  iter_next-exact v (x ∷ q) = omega arith

  pub begin_exact :
      (q : List A)
      → left_in (looking (iter_next q).0) + 2 * length (iter_next q).1 ≡ 2 * length q + 1
  unfolding left_in iter_next
  begin_exact [] = refl
  begin_exact (x ∷ q) = omega arith

  pub iter_next-Fits : (v : A) (q : List A) → Fits (iter_next q).1 (handling v (iter_next q).0)
  unfolding Fits iter_next
  iter_next-Fits v [] = refl
  iter_next-Fits v (x ∷ q) = tt

  pub begin-Fits : (q : List A) → Fits (iter_next q).1 (looking (iter_next q).0)
  unfolding Fits iter_next
  begin-Fits [] = refl
  begin-Fits (x ∷ q) = tt

  pub iter_next-empty : (q : List A) → q ≡ [] → (iter_next q).1 ≡ []
  unfolding iter_next
  iter_next-empty [] e = refl
  iter_next-empty (x ∷ q) e = absurd (ground arith)

  pub Fits-iter_next : (q : List A) (st : Stage A) → Fits q st → Fits (iter_next q).1 st
  unfolding Fits
  Fits-iter_next q (looking none) f = iter_next-empty q f
  Fits-iter_next q (looking (some v)) f = tt
  Fits-iter_next q (handling v none) f = iter_next-empty q f
  Fits-iter_next q (handling v (some x)) f = tt
  Fits-iter_next q ended f = iter_next-empty q f

  pub looks-Fits :
      (q : List A) (v : A) (it : Option A) → Fits q (handling v it) → Fits q (looking it)
  unfolding Fits
  looks-Fits q v none f = f
  looks-Fits q v (some x) f = tt

module _ {A B : Type 0} where
  pub AllFit-iter_next :
      (q : List A) (rs : List (Reader A B)) → AllFit q rs → AllFit (iter_next q).1 rs
  unfolding AllFit
  AllFit-iter_next q [] f = tt
  AllFit-iter_next q (r ∷ rs) (f, fs) = (Fits-iter_next q r.stage f, AllFit-iter_next q rs fs)
