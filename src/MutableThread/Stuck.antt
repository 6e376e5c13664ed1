-- ===== src/MutableThread/Stuck.antt =====
-- A function that `finish_run` of src/mutable_thread.cc leaves behind.
use google_concurrency_libra.Base.{ℕ, ◌≡◌, none, some, [], ◌∷◌, refl}
use google_concurrency_libra.MutableThread.{
  construct, has_room, is_closed, is_done, is_joining, put, try_put, thread_wait, is_set, empty_run,
  set_idle, ready_to_continue, ThreadState,
}
use google_concurrency_libra.MutableThread.System.{
  System, away, waiting, outside, start, Reach, here, later, tries, try_puts, starts,
  finishes_alone, clears, resets,
}

-- The functions `f` and `g` were accepted, and only `f` has run.
abbrev behind : ℕ → ℕ → System
behind f g = record {
  thread = record { thread_state = ThreadState.idle; run_fn = none; queued_fn = some g };
  client = away;
  worker = waiting;
  joiner = outside;
  accepted = g ∷ f ∷ [];
  ran = f ∷ [];
}

behind-Reach : (f g : ℕ) → Reach start (behind f g)
unfolding construct has_room is_closed is_done is_joining put try_put thread_wait ready_to_continue
    is_set empty_run set_idle
behind-Reach f g =
    later
      (later
        (later
          (later
            (later
              (later (later (later here (tries f refl refl)) (try_puts f refl refl))
                (starts f refl refl refl))
              (tries g refl refl))
            (finishes_alone f refl refl))
          (try_puts g refl refl))
        (clears refl))
      (resets refl)

-- For any two functions: if `finish_run` finds no queued function, and one is queued before it empties
-- the running one, then the thread waits with a queued function and does not wake for it.
pub queued_is_left_behind :
    (f g : ℕ)
    → (s : System) × Reach start s
      × (s.accepted ≡ g ∷ f ∷ [])
      × (s.ran ≡ f ∷ [])
      × (s.thread.queued_fn ≡ some g)
      × (s.worker ≡ waiting)
      × (thread_wait s.thread ≡ none)
unfolding thread_wait ready_to_continue is_closed is_done is_joining is_set
queued_is_left_behind f g = (behind f g, behind-Reach f g, refl, refl, refl, refl, refl)
