-- ===== src/Counter/Children.antt =====
-- The brokers that a duplex counter of include/counter.h knows: a finite set of addresses, and what
-- their counts add up to.
use google_concurrency_libra.Base.{
  ℕ, ◌≡◌, true, false, refl, List, [], ◌∷◌, arith, update, ◌+◌, ◌<◌, if◌then◌else◌, ◌≢◌, ℕ_discrete,
}
use google_concurrency_libra.Base.Int.{ℤ, pos, ◌+ℤ◌, int_laws, ◌≤ℤ◌}
use google_concurrency_libra.Base.Sets.{contains, insert, erase, IsAscending, contains_below}

-- The sum of the counts at these addresses.
unfoldable pub total : (ℕ → ℤ) → List ℕ → ℤ
total f [] = pos 0
total f (a ∷ s) = total f s +ℤ f a

pub total-update_absent :
    (f : ℕ → ℤ) (a : ℕ) (v : ℤ) (s : List ℕ)
    → contains a s ≡ false
    → total (update f a v) s ≡ total f s
unfolding total contains
total-update_absent f a v [] h = refl
total-update_absent f a v (x ∷ s) h =
    let r : (contains a s ≡ false → total (update f a v) s ≡ total f s) =
      total-update_absent f a v s in
    ground (arith, r)

-- Another count at one of the addresses.
pub total-update :
    (f : ℕ → ℤ) (a n : ℕ) (v : ℤ) (s : List ℕ)
    → IsAscending n s
    → contains a s ≡ true
    → total (update f a v) s +ℤ f a ≡ total f s +ℤ v
unfolding total contains IsAscending
total-update f a n v [] o h = ground arith
total-update f a n v (x ∷ s) (l, o) h =
    let r : (contains a s ≡ true → total (update f a v) s +ℤ f a ≡ total f s +ℤ v) =
      total-update f a (x + 1) v s o in
    let q : (contains a s ≡ false → total (update f a v) s ≡ total f s) =
      total-update_absent f a v s in
    let b : (a < x + 1 → contains a s ≡ false) = contains_below a (x + 1) s o in
    grind (int_laws, r, q, b)

pub total-insert :
    (f : ℕ → ℤ) (a : ℕ) (s : List ℕ)
    → contains a s ≡ false
    → total f (insert a s) ≡ total f s +ℤ f a
unfolding total contains insert
total-insert f a [] h = refl
total-insert f a (x ∷ s) h =
    let r : (contains a s ≡ false → total f (insert a s) ≡ total f s +ℤ f a) = total-insert f a s in
    grind (int_laws, r)

pub total-erase :
    (f : ℕ → ℤ) (a : ℕ) (s : List ℕ) → contains a s ≡ true → total f s ≡ total f (erase a s) +ℤ f a
unfolding total contains erase
total-erase f a [] h = ground arith
total-erase f a (x ∷ s) h =
    let r : (contains a s ≡ true → total f s ≡ total f (erase a s) +ℤ f a) = total-erase f a s in
    grind (int_laws, r)

pub total_nonneg : (f : ℕ → ℤ) (s : List ℕ) → ((a : ℕ) → pos 0 ≤ℤ f a) → pos 0 ≤ℤ total f s
unfolding total
total_nonneg f [] h = omega arith
total_nonneg f (x ∷ s) h = let r : pos 0 ≤ℤ total f s = total_nonneg f s h in grind (int_laws, h x)

-- What an addition at one address adds to the sum.
pub total-add :
    (f : ℕ → ℤ) (a n : ℕ) (v by : ℤ) (s : List ℕ)
    → IsAscending n s
    → v ≡ f a
    → total (update f a (v +ℤ by)) s ≡ total f s +ℤ (if contains a s then by else pos 0)
total-add f a n v by s o e =
    grind (int_laws, total-update f a n (v +ℤ by) s o, total-update_absent f a (v +ℤ by) s)

pub total-cong : (f g : ℕ → ℤ) (s : List ℕ) → ((a : ℕ) → f a ≡ g a) → total f s ≡ total g s
unfolding total
total-cong f g [] h = refl
total-cong f g (x ∷ s) h = rw (total-cong f g s h, h x)

module _ (f g : ℕ → ℤ) (a : ℕ) (s : List ℕ) (h : (x : ℕ) → x ≢ a → g x ≡ f x) where
  elsewhere : total g s ≡ total (update f a (g a)) s
  elsewhere = total-cong g (update f a (g a)) s (λ x. agrees x (ℕ_discrete x a))
    where
      agrees : (x : ℕ) → Dec (x ≡ a) → g x ≡ update f a (g a) x
      agrees x (yes e) = rw e (ground arith)
      agrees x (no n) = ground (arith, h x n)

  -- Two families of counts that differ at one address only.
  pub total-change : IsAscending 0 s → contains a s ≡ true → total g s +ℤ f a ≡ total f s +ℤ g a
  total-change o c = rw elsewhere (total-update f a 0 (g a) s o c)

  pub total-change_absent : contains a s ≡ false → total g s ≡ total f s
  total-change_absent c = rw elsewhere (total-update_absent f a (g a) s c)
