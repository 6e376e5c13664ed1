-- ===== src/SharedEnds/Freed.antt =====
-- When the queue that shared ends hold is closed and deleted, in include/queue_base.h.
use google_concurrency_libra.Base.{ℕ, ◌+◌, ◌<◌, ◌≡◌, true, false, arith, ◌⊎◌}
use google_concurrency_libra.Base.Int.{pos}
use google_concurrency_libra.SharedEnds.{
  inc_back, inc_front, dec_back, dec_front, close, back_frees, front_frees, share_queue_ends,
}
use google_concurrency_libra.SharedEnds.System.{
  System, start, Step, copies_back, copies_front, back_goes, last_back_goes, front_goes,
  last_front_goes, back_closes, front_closes, back_tests, front_tests, Reach, here, later,
}

-- Threads between the last decrement of a count and the end of `release`.
abbrev pub at_work : System → ℕ
at_work s = s.back_closing + s.back_testing + s.front_closing + s.front_testing

pub record Inv (s : System) : Type 0 where
  pub backs_counted : s.queue.bk ≡ pos s.backs
  pub fronts_counted : s.queue.ft ≡ pos s.fronts
  pub last_back : 0 < s.back_closing + s.back_testing → s.backs ≡ 0
  pub last_front : 0 < s.front_closing + s.front_testing → s.fronts ≡ 0
  pub all_gone : 0 < s.queue.deletes → s.backs + s.fronts ≡ 0
  pub freed : s.backs + s.fronts ≡ 0 → 0 < s.queue.deletes + at_work s
  pub shut_back : s.backs ≡ 0 → (s.queue.closed ≡ true) ⊎ (0 < s.back_closing)
  pub shut_front : s.fronts ≡ 0 → (s.queue.closed ≡ true) ⊎ (0 < s.front_closing)
  pub no_misuse : s.queue.deletes ≡ 0 → s.queue.dangling ≡ false

Step-Inv : {s t : System} → Step s t → Inv s → Inv t
unfolding inc_back inc_front dec_back dec_front close back_frees front_frees
Step-Inv (copies_back n e) o = grind arith
Step-Inv (copies_front n e) o = grind arith
Step-Inv (back_goes n e d) o = grind arith
Step-Inv (last_back_goes n e d) o = grind arith
Step-Inv (front_goes n e d) o = grind arith
Step-Inv (last_front_goes n e d) o = grind arith
Step-Inv (back_closes n e) o = grind arith
Step-Inv (front_closes n e) o = grind arith
Step-Inv (back_tests n e) o = grind arith
Step-Inv (front_tests n e) o = grind arith

start-Inv : Inv start
unfolding share_queue_ends
start-Inv = ground arith

pub Reach-Inv : {s : System} → Reach start s → Inv s
Reach-Inv here = start-Inv
Reach-Inv (later r st) = Step-Inv st (Reach-Inv r)

-- At any interleaving of copies and releases: the queue is deleted only when no end holds it, and not
-- used after that as long as an end holds it; and once every end has gone and no release is under way,
-- the queue is closed and was deleted at least once.
pub ends_safety :
    {s : System}
    → Reach start s
    → (0 < s.backs + s.fronts → (s.queue.deletes ≡ 0) × (s.queue.dangling ≡ false))
      × (s.backs + s.fronts ≡ 0 → at_work s ≡ 0 → (s.queue.closed ≡ true) × (0 < s.queue.deletes))
ends_safety {s} r =
    let o : Inv s = Reach-Inv r in
    (λ h. ground (arith, o.all_gone, o.no_misuse), λ h w. ground (arith, o.freed, o.shut_back))
