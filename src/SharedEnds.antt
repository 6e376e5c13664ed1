-- ===== src/SharedEnds.antt =====
-- The reference-counted ends of a queue in include/queue_base.h: `queue_counted`, and the constructors,
-- destructors and `release` of `shared_queue_back` and `shared_queue_front`. The counts are `int`s,
-- taken not to overflow. Each member function of the queue is one atomic step. The assignment operators
-- of the ends cannot be compiled, since they apply `->` to an end, and have no model.
pub mod System
pub mod Freed
pub mod DoubleDelete
mod Tests
use google_concurrency_libra.Base.{Bool, ℕ, ◌+◌, true, false, ltb, if◌then◌else◌}
use google_concurrency_libra.Base.Int.{ℤ, pos, eqb_ℤ, ◌+ℤ◌, ◌-ℤ◌}

pub record CountedQueue : Type 0 where
  pub bk : ℤ
  pub ft : ℤ
  pub closed : Bool
  pub deletes : ℕ  -- how often the object was deleted
  pub dangling : Bool  -- whether it was used after that

pub construct : CountedQueue
construct = record { bk = pos 0; ft = pos 0; closed = false; deletes = 0; dangling = false }

-- Every use of the object passes through here.
pub touch : CountedQueue → CountedQueue
touch q = record q { dangling = if ltb 0 q.deletes then true else q.dangling }

pub inc_back : CountedQueue → CountedQueue
unfolding touch ◌+ℤ◌
inc_back q = record (touch q) { bk = q.bk +ℤ pos 1 }

pub inc_front : CountedQueue → CountedQueue
unfolding touch ◌+ℤ◌
inc_front q = record (touch q) { ft = q.ft +ℤ pos 1 }

-- The queue, and whether the count has come to 0.
pub dec_back : CountedQueue → CountedQueue × Bool
unfolding touch ◌-ℤ◌
dec_back q = (record (touch q) { bk = q.bk -ℤ pos 1 }, eqb_ℤ (q.bk -ℤ pos 1) (pos 0))

pub dec_front : CountedQueue → CountedQueue × Bool
unfolding touch ◌-ℤ◌
dec_front q = (record (touch q) { ft = q.ft -ℤ pos 1 }, eqb_ℤ (q.ft -ℤ pos 1) (pos 0))

pub close : CountedQueue → CountedQueue
unfolding touch
close q = record (touch q) { closed = true }

pub no_back : CountedQueue → Bool
no_back q = eqb_ℤ q.bk (pos 0)

pub no_front : CountedQueue → Bool
no_front q = eqb_ℤ q.ft (pos 0)

pub delete : CountedQueue → CountedQueue
unfolding touch
delete q = record (touch q) { deletes = q.deletes + 1 }

-- The last part of `release` of a back, and of a front: the test of the other count.
pub back_frees : CountedQueue → CountedQueue
unfolding no_front delete touch
back_frees q = if no_front q then delete q else touch q

pub front_frees : CountedQueue → CountedQueue
unfolding no_back delete touch
front_frees q = if no_back q then delete q else touch q

-- `release` of an end alone: `has_queue` tells whether its pointer is not null.
pub back_release : Bool → CountedQueue → CountedQueue
unfolding dec_back close back_frees
back_release has_queue q =
    if has_queue
    then (let (q', last) = dec_back q in if last then back_frees (close q') else q')
    else q

pub front_release : Bool → CountedQueue → CountedQueue
unfolding dec_front close front_frees
front_release has_queue q =
    if has_queue
    then (let (q', last) = dec_front q in if last then front_frees (close q') else q')
    else q

-- `share_queue_ends`: a queue with one back and one front.
pub share_queue_ends : CountedQueue
unfolding construct inc_back inc_front
share_queue_ends = inc_front (inc_back construct)
