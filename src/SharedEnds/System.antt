-- ===== src/SharedEnds/System.antt =====
-- Threads that copy and release the ends of one queue of include/queue_base.h. A state counts the ends
-- that hold the queue, and the threads at each place of `release` after the count has come to 0.
use google_concurrency_libra.Base.{ℕ, suc, ◌+◌, ◌≡◌, true, false}
use google_concurrency_libra.SharedEnds.{
  CountedQueue, inc_back, inc_front, dec_back, dec_front, close, back_frees, front_frees,
  share_queue_ends,
}

pub record System : Type 0 where
  pub queue : CountedQueue
  pub backs : ℕ
  pub fronts : ℕ
  pub back_closing : ℕ
  pub back_testing : ℕ
  pub front_closing : ℕ
  pub front_testing : ℕ

abbrev pub start : System
start = record {
  queue = share_queue_ends;
  backs = 1;
  fronts = 1;
  back_closing = 0;
  back_testing = 0;
  front_closing = 0;
  front_testing = 0;
}

pub data Step (s : System) : System → Type 0 where
  copies_back :
      (n : ℕ)
      → s.backs ≡ suc n
      → Step s (record s { queue = inc_back s.queue; backs = s.backs + 1 })
  copies_front :
      (n : ℕ)
      → s.fronts ≡ suc n
      → Step s (record s { queue = inc_front s.queue; fronts = s.fronts + 1 })
  back_goes :
      (n : ℕ) {q : CountedQueue}
      → s.backs ≡ suc n
      → dec_back s.queue ≡ (q, false)
      → Step s (record s { queue = q; backs = n })
  last_back_goes :
      (n : ℕ) {q : CountedQueue}
      → s.backs ≡ suc n
      → dec_back s.queue ≡ (q, true)
      → Step s (record s { queue = q; backs = n; back_closing = s.back_closing + 1 })
  front_goes :
      (n : ℕ) {q : CountedQueue}
      → s.fronts ≡ suc n
      → dec_front s.queue ≡ (q, false)
      → Step s (record s { queue = q; fronts = n })
  last_front_goes :
      (n : ℕ) {q : CountedQueue}
      → s.fronts ≡ suc n
      → dec_front s.queue ≡ (q, true)
      → Step s (record s { queue = q; fronts = n; front_closing = s.front_closing + 1 })
  back_closes :
      (n : ℕ)
      → s.back_closing ≡ suc n
      → Step s
          (record s { queue = close s.queue; back_closing = n; back_testing = s.back_testing + 1 })
  front_closes :
      (n : ℕ)
      → s.front_closing ≡ suc n
      → Step s (record s {
        queue = close s.queue;
        front_closing = n;
        front_testing = s.front_testing + 1;
      })
  back_tests :
      (n : ℕ)
      → s.back_testing ≡ suc n
      → Step s (record s { queue = back_frees s.queue; back_testing = n })
  front_tests :
      (n : ℕ)
      → s.front_testing ≡ suc n
      → Step s (record s { queue = front_frees s.queue; front_testing = n })

pub data Reach (s : System) : System → Type 0 where
  here : Reach s s
  later : {t u : System} → Reach s t → Step t u → Reach s u
