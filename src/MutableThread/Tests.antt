-- ===== src/MutableThread/Tests.antt =====
-- Runs of the thread of src/mutable_thread.cc, and its theorems at concrete states.
use google_concurrency_libra.Base.{◌+◌, ◌≤◌, ◌≡◌, refl, none, some, [], ◌∷◌}
use google_concurrency_libra.Base.Sets.{count}
use google_concurrency_libra.MutableThread.{
  construct, has_room, is_closed, is_done, is_joining, try_put, put, is_set, thread_wait,
  ready_to_continue, store, must_stop, ThreadState,
}
use google_concurrency_libra.MutableThread.System.{
  System, Worker, waiting, start, Reach, here, later, tries, try_puts, joins, join_stores, leaves,
  Joiner,
}
use google_concurrency_libra.MutableThread.Kept.{hits, accepted_is_kept}
use google_concurrency_libra.MutableThread.Stuck.{queued_is_left_behind}
use google_concurrency_libra.MutableThread.Joining.{joining_starts_none}

-- Function 4 was accepted, and has not started.
abbrev given : System
given = record start {
  thread = record { thread_state = ThreadState.idle; run_fn = some 4; queued_fn = none };
  accepted = 4 ∷ [];
}

given-Reach : Reach start given
unfolding construct has_room is_set try_put put is_closed is_done is_joining
given-Reach = later (later here (tries 4 refl refl)) (try_puts 4 refl refl)

accepted_is_kept_example : (0 ≤ 1) × (1 ≤ 0 + (1 + 0))
unfolding count hits
accepted_is_kept_example = accepted_is_kept given-Reach 4

-- It is joined before it starts.
abbrev stopping : System
stopping = record given {
  thread = record { thread_state = ThreadState.joining; run_fn = some 4; queued_fn = none };
  joiner = Joiner.blocked;
}

abbrev stopped_early : System
stopped_early = record stopping { worker = Worker.leaving }

stopping-Reach : Reach given stopping
unfolding must_stop store
stopping-Reach = later (later here (joins refl refl)) (join_stores refl)

joining_starts_none_example : stopped_early.ran ≡ stopping.ran
unfolding thread_wait ready_to_continue is_closed is_done is_joining
joining_starts_none_example =
    joining_starts_none {s = stopping} {t = stopped_early} refl refl (later here (leaves refl refl))

queued_is_left_behind_example :
    (s : System) × Reach start s
    × (s.accepted ≡ 2 ∷ 1 ∷ [])
    × (s.ran ≡ 1 ∷ [])
    × (s.thread.queued_fn ≡ some 2)
    × (s.worker ≡ waiting)
    × (thread_wait s.thread ≡ none)
queued_is_left_behind_example = queued_is_left_behind 1 2
