-- ===== src/SharedEnds/Tests.antt =====
-- Runs of the shared ends of include/queue_base.h, and their theorems at concrete states.
use google_concurrency_libra.Base.{◌+◌, ◌<◌, ◌≡◌, refl, true, false}
use google_concurrency_libra.SharedEnds.{share_queue_ends, inc_back, back_release, front_release}
use google_concurrency_libra.SharedEnds.System.{System, start, Reach, here, later, copies_back}
use google_concurrency_libra.SharedEnds.Freed.{at_work, ends_safety}
use google_concurrency_libra.SharedEnds.DoubleDelete.{double_delete}

-- One after the other, the releases delete the queue once.
released_in_turn : (front_release true (back_release true share_queue_ends)).deletes ≡ 1
unfolding front_release back_release share_queue_ends
released_in_turn = refl

null_is_not_released : back_release false share_queue_ends ≡ share_queue_ends
unfolding back_release
null_is_not_released = refl

two_backs : System
unfolding inc_back share_queue_ends
two_backs = record start { queue = inc_back share_queue_ends; backs = 2 }

two_backs-Reach : Reach start two_backs
unfolding two_backs
two_backs-Reach = later here (copies_back 0 refl)

ends_safety_example :
    (0 < two_backs.backs + two_backs.fronts
      → (two_backs.queue.deletes ≡ 0) × (two_backs.queue.dangling ≡ false))
    × (two_backs.backs + two_backs.fronts ≡ 0
        → at_work two_backs ≡ 0
        → (two_backs.queue.closed ≡ true) × (0 < two_backs.queue.deletes))
ends_safety_example = ends_safety two_backs-Reach

double_delete_example :
    (t : System) × Reach start t × (t.queue.deletes ≡ 2) × (t.queue.dangling ≡ true)
double_delete_example = double_delete here refl refl
