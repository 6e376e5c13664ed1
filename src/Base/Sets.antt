-- ===== src/Base/Sets.antt =====
-- Finite sets of numbers, as `std::set` of pointers keeps them: ascending lists without repetition.
use google_concurrency_libra.Base.{
  Bool, ℕ, ◌+◌, ◌<◌, ◌≡◌, true, false, ltb, ◌==◌, List, [], ◌∷◌, if◌then◌else◌, arith, ◌≤◌, refl,
  ◌++◌,
}
use google_concurrency_libra.Base.Lists.{length}

unfoldable pub contains : ℕ → List ℕ → Bool
contains x [] = false
contains x (y ∷ s) = if x == y then true else contains x s

unfoldable pub insert : ℕ → List ℕ → List ℕ
insert x [] = x ∷ []
insert x (y ∷ s) =
    let rest = insert x s in if ltb x y then x ∷ y ∷ s else (if x == y then y ∷ s else y ∷ rest)

unfoldable pub erase : ℕ → List ℕ → List ℕ
erase x [] = []
erase x (y ∷ s) = let rest = erase x s in if x == y then s else y ∷ rest

-- Every element is at least `n`, in ascending order.
unfoldable pub IsAscending : ℕ → List ℕ → Type 0
IsAscending n [] = Unit
IsAscending n (y ∷ s) = (n ≤ y) × IsAscending (y + 1) s

pub contains_below : (x n : ℕ) (s : List ℕ) → IsAscending n s → x < n → contains x s ≡ false
unfolding contains IsAscending
contains_below x n [] o h = refl
contains_below x n (y ∷ s) (l, o) h =
    let r : contains x s ≡ false = contains_below x (y + 1) s o (omega arith) in ground arith

pub contains-insert :
    (x y : ℕ) (s : List ℕ) → contains x (insert y s) ≡ (if x == y then true else contains x s)
unfolding contains insert
contains-insert x y [] = ground arith
contains-insert x y (z ∷ s) =
    let r : contains x (insert y s) ≡ (if x == y then true else contains x s) =
      contains-insert x y s in
    ground arith

IsAscending-down : (m n : ℕ) (s : List ℕ) → n ≤ m → IsAscending m s → IsAscending n s
unfolding IsAscending
IsAscending-down m n [] h o = tt
IsAscending-down m n (y ∷ s) h (l, o) = (omega arith, o)

pub insert-IsAscending :
    (n y : ℕ) (s : List ℕ) → n ≤ y → IsAscending n s → IsAscending n (insert y s)
unfolding insert IsAscending
insert-IsAscending n y [] h o = (h, tt)
insert-IsAscending n y (z ∷ s) h (l, o) =
    let r : (z + 1 ≤ y → IsAscending (z + 1) (insert y s)) =
      (λ k. insert-IsAscending (z + 1) y s k o) in
    ground (arith, r)

pub contains-erase :
    (x y n : ℕ) (s : List ℕ)
    → IsAscending n s
    → contains x (erase y s) ≡ (if x == y then false else contains x s)
unfolding contains erase IsAscending
contains-erase x y n [] o = ground arith
contains-erase x y n (z ∷ s) (l, o) =
    let r : contains x (erase y s) ≡ (if x == y then false else contains x s) =
      contains-erase x y (z + 1) s o in
    let below : (y < z + 1 → contains y s ≡ false) = (λ k. contains_below y (z + 1) s o k) in
    ground (arith, below)

pub length-insert :
    (x n : ℕ) (s : List ℕ)
    → IsAscending n s
    → length (insert x s) ≡ (if contains x s then length s else length s + 1)
unfolding contains insert IsAscending
length-insert x n [] o = refl
length-insert x n (y ∷ s) (l, o) =
    let r : length (insert x s) ≡ (if contains x s then length s else length s + 1) =
      length-insert x (y + 1) s o in
    let below : (x < y + 1 → contains x s ≡ false) = (λ k. contains_below x (y + 1) s o k) in
    ground (arith, below)

pub length-erase :
    (x : ℕ) (s : List ℕ) → length s ≡ length (erase x s) + (if contains x s then 1 else 0)
unfolding contains erase
length-erase x [] = refl
length-erase x (y ∷ s) =
    let r : length s ≡ length (erase x s) + (if contains x s then 1 else 0) = length-erase x s in
    ground arith

pub erase-IsAscending : (n y : ℕ) (s : List ℕ) → IsAscending n s → IsAscending n (erase y s)
unfolding erase IsAscending
erase-IsAscending n y [] o = tt
erase-IsAscending n y (z ∷ s) (l, o) =
    let r : IsAscending (z + 1) (erase y s) = erase-IsAscending (z + 1) y s o in
    ground (arith, IsAscending-down (z + 1) n s (omega arith) o)

pub contains_empty : (x : ℕ) → contains x [] ≡ false
unfolding contains
contains_empty x = refl

pub contains_first : (x : ℕ) (s : List ℕ) → contains x (x ∷ s) ≡ true
unfolding contains
contains_first x s = ground arith

-- How often a number stands in a list.
unfoldable pub count : ℕ → List ℕ → ℕ
count x [] = 0
count x (y ∷ ys) = let rest = count x ys in if x == y then rest + 1 else rest

pub count-append : (x : ℕ) (xs ys : List ℕ) → count x (xs ++ ys) ≡ count x xs + count x ys
unfolding count
count-append x [] ys = omega arith
count-append x (z ∷ xs) ys =
    let r : count x (xs ++ ys) ≡ count x xs + count x ys = count-append x xs ys in ground arith

pub count-contains :
    (x n : ℕ) (s : List ℕ) → IsAscending n s → count x s ≡ (if contains x s then 1 else 0)
unfolding count contains IsAscending
count-contains x n [] o = refl
count-contains x n (y ∷ s) (l, o) =
    let r : count x s ≡ (if contains x s then 1 else 0) = count-contains x (y + 1) s o in
    let below : (x < y + 1 → contains x s ≡ false) = (λ k. contains_below x (y + 1) s o k) in
    ground (arith, below)
