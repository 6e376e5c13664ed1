-- ===== src/LockFreeQueue/Cleared.antt =====
-- The loop of `init` of include/lock_free_buffer_queue.h, whose index is an `unsigned int`.
use google_concurrency_libra.Base.{
  ℕ, ◌+◌, ◌%◌, ◌^◌, ◌<◌, ◌≤◌, ◌≡◌, some, none, zero, suc, arith, refl, sym, subst, update, dec_lt,
  ℕ_discrete, set,
}
use google_concurrency_libra.LockFreeQueue.{ValueState, waiting, reset_states}

reset_round :
    (fuel i n : ℕ) (states reset : ℕ → ValueState)
    → i < n
    → n < 2 ^ 32
    → reset_states fuel (i + 1) n (update states i waiting) ≡ some reset
    → reset_states (suc fuel) i n states ≡ some reset
unfolding reset_states
reset_round fuel i n states reset l h e =
    let next : (i + 1) % 2 ^ 32 ≡ i + 1 = omega arith in
    let rest =
      subst (λ j. reset_states fuel j n (update states i waiting) ≡ some reset) (sym next) e in
    ground (arith, rest)

-- The loop of `init` ends below 2 ^ 32 slots, after one round for each slot that is left and one more.
pub reset_states_end :
    (fuel i n : ℕ) (states : ℕ → ValueState)
    → i ≤ n
    → n < i + fuel
    → n < 2 ^ 32
    → (reset : ℕ → ValueState) × (reset_states fuel i n states ≡ some reset)
      × ((p : ℕ) → p < i → reset p ≡ states p)
      × ((p : ℕ) → i ≤ p → p < n → reset p ≡ waiting)
unfolding reset_states
reset_states_end zero i n states l f h = absurd (omega arith)
reset_states_end (suc fuel) i n states l f h = elim (dec_lt i n) [
  | no out ↦ (states, ground arith, λ p _. refl, λ p m o. absurd (omega arith))
  | yes below ↦
      let (reset, ends, kept, set) =
        reset_states_end fuel (i + 1) n (update states i waiting) (omega arith) (omega arith) h in
      (
        reset,
        reset_round fuel i n states reset below h ends,
        λ p m. let k = kept p (omega arith) in ground (arith, k),
        λ p m o. elim (ℕ_discrete p i) [
          | yes same ↦ let k = kept p (omega arith) in ground (arith, k)
          | no other ↦ set p (omega arith) o
        ],
      )
]

-- From 2 ^ 32 slots on the index wraps before it reaches the capacity.
pub reset_states_hang :
    (fuel i n : ℕ) (states : ℕ → ValueState)
    → 2 ^ 32 ≤ n
    → i < 2 ^ 32
    → reset_states fuel i n states ≡ none
unfolding reset_states
reset_states_hang zero i n states h l = refl
reset_states_hang (suc fuel) i n states h l =
    let rest =
      reset_states_hang fuel ((i + 1) % 2 ^ 32) n (update states i waiting) h (omega arith) in
    ground (arith, rest)
