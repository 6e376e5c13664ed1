-- ===== src/SharedEnds/DoubleDelete.antt =====
-- The last back and the last front of a queue of include/queue_base.h that go at the same time.
use google_concurrency_libra.Base.{◌≡◌, true, arith}
use google_concurrency_libra.SharedEnds.{
  CountedQueue, dec_back, dec_front, close, back_frees, front_frees,
}
use google_concurrency_libra.SharedEnds.System.{
  System, start, last_back_goes, last_front_goes, back_closes, front_closes, back_tests,
  front_tests, Reach, here, later,
}
use google_concurrency_libra.SharedEnds.Freed.{Inv, Reach-Inv}

-- Both counts come to 0 before either thread tests the other count.
both_gone : CountedQueue → CountedQueue
both_gone q = (dec_front (dec_back q).0).0

freed_twice : CountedQueue → CountedQueue
unfolding both_gone
freed_twice q = front_frees (close (back_frees (close (both_gone q))))

module _ {s : System} (b : s.backs ≡ 1) (f : s.fronts ≡ 1) (o : Inv s) where
  back_last : dec_back s.queue ≡ ((dec_back s.queue).0, true)
  unfolding dec_back
  back_last = ground arith

  front_last : dec_front (dec_back s.queue).0 ≡ (both_gone s.queue, true)
  unfolding dec_back dec_front both_gone
  front_last = ground arith

  freed_twice_lem : ((freed_twice s.queue).deletes ≡ 2) × ((freed_twice s.queue).dangling ≡ true)
  unfolding freed_twice dec_back dec_front close back_frees front_frees
  freed_twice_lem = ground (arith, o.all_gone)

  both_go : Reach s (record s {
    queue = freed_twice s.queue;
    backs = 0;
    fronts = 0;
    back_closing = s.back_closing;
    back_testing = s.back_testing;
    front_closing = s.front_closing;
    front_testing = s.front_testing;
  })
  unfolding freed_twice
  both_go =
      later
        (later
          (later
            (later
              (later (later here (last_back_goes 0 b back_last)) (last_front_goes 0 f front_last))
              (back_closes s.back_closing (omega arith)))
            (back_tests s.back_testing (omega arith)))
          (front_closes s.front_closing (omega arith)))
        (front_tests s.front_testing (omega arith))

-- From every reachable state with one back and one front a schedule exists in which both ends go, the
-- queue is deleted twice, and it is used after its deletion.
pub double_delete :
    {s : System}
    → Reach start s
    → s.backs ≡ 1
    → s.fronts ≡ 1
    → (t : System) × Reach s t × (t.queue.deletes ≡ 2) × (t.queue.dangling ≡ true)
double_delete {s} r b f =
    let o : Inv s = Reach-Inv r in
    (_, both_go b f o, (freed_twice_lem b f o).0, (freed_twice_lem b f o).1)
