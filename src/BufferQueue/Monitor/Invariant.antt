-- ===== src/BufferQueue/Monitor/Invariant.antt =====
-- No wakeup is lost: what the threads of include/buffer_queue.h keep true.
use google_concurrency_libra.Base.{
  Bool, ℕ, ◌+◌, ◌-◌, ◌≤◌, ◌<◌, ◌≡◌, true, false, List, ◌∷◌, arith, length, length-append, [],
}
use google_concurrency_libra.BufferQueue.{
  Signal, one_not_empty, one_not_full, all_not_empty, all_not_full,
}
use google_concurrency_libra.BufferQueue.Bounds.{IsValid}
use google_concurrency_libra.BufferQueue.Refine.{contents}
use google_concurrency_libra.BufferQueue.Monitor.{
  System, Notify, silent, wake_pusher, no_pusher, wake_popper, no_popper, wake_pushers,
  wake_poppers,
}

-- What a section that has signalled, and not yet woken, still owes to the sleepers: how often it
-- wakes one of them, and whether it wakes all.
unfoldable pub owes_room : List Signal → ℕ
owes_room [] = 0
owes_room (one_not_full ∷ l) = owes_room l + 1
owes_room (_ ∷ l) = owes_room l

unfoldable pub owes_item : List Signal → ℕ
owes_item [] = 0
owes_item (one_not_empty ∷ l) = owes_item l + 1
owes_item (_ ∷ l) = owes_item l

unfoldable pub wakes_pushers : List Signal → Bool
wakes_pushers [] = false
wakes_pushers (all_not_full ∷ _) = true
wakes_pushers (_ ∷ l) = wakes_pushers l

unfoldable pub wakes_poppers : List Signal → Bool
wakes_poppers [] = false
wakes_poppers (all_not_empty ∷ _) = true
wakes_poppers (_ ∷ l) = wakes_poppers l

module _ {A : Type 0} where
  -- Each sleeper is counted; none sleeps on a closed queue; and while a pusher sleeps there are
  -- threads on the move for all free slots, while a popper sleeps for all elements. `room` and
  -- `item` are the wakeups that are owed; all pushers or poppers may be about to be woken.
  pub record Slack (room item : ℕ) (counted_room counted_item : ℕ) (all_push all_pop : Bool)
      (s : System A) : Type 0 where
    pub valid : IsValid s.queue
    pub full_counted : length s.pushers_asleep ≤ s.queue.waiting_full + counted_room
    pub empty_counted : s.poppers_asleep ≤ s.queue.waiting_empty + counted_item
    pub pushers_awake : all_push ≡ false → s.queue.is_shut ≡ true → length s.pushers_asleep ≡ 0
    pub poppers_awake : all_pop ≡ false → s.queue.is_shut ≡ true → s.poppers_asleep ≡ 0
    pub room_signalled :
        all_push ≡ false
        → 0 < length s.pushers_asleep
        → s.queue.num_slots - 1
          ≤ length (contents s.queue) + (length s.pushers_woken + s.closers + room)
    pub item_signalled :
        all_pop ≡ false
        → 0 < s.poppers_asleep
        → length (contents s.queue) ≤ s.poppers_woken + s.closers + item

  abbrev pub Inv : System A → Type 0
  Inv = Slack 0 0 0 0 false false

  abbrev pub Owes : List Signal → System A → Type 0
  Owes l =
      Slack (owes_room l) (owes_item l) (owes_room l) (owes_item l) (wakes_pushers l)
        (wakes_poppers l)

  pub Notify-Inv : {l : List Signal} {s t : System A} → Owes l s → Notify l s t → Inv t
  unfolding owes_room owes_item wakes_pushers wakes_poppers
  Notify-Inv o silent = o
  Notify-Inv {s = s} o (wake_pusher xs a ys e n) =
      let l = length-append xs ys in
      let m = length-append xs (a ∷ ys) in
      Notify-Inv
        (ground (arith, l, m, o.pushers_awake, o.poppers_awake, o.room_signalled, o.item_signalled))
        n
  Notify-Inv o (no_pusher e n) =
      Notify-Inv
        (ground (arith, o.pushers_awake, o.poppers_awake, o.room_signalled, o.item_signalled)) n
  Notify-Inv o (wake_popper k e n) =
      Notify-Inv
        (ground (arith, o.pushers_awake, o.poppers_awake, o.room_signalled, o.item_signalled)) n
  Notify-Inv o (no_popper e n) =
      Notify-Inv
        (ground (arith, o.pushers_awake, o.poppers_awake, o.room_signalled, o.item_signalled)) n
  Notify-Inv o (wake_pushers n) =
      Notify-Inv
        (ground (arith, o.pushers_awake, o.poppers_awake, o.room_signalled, o.item_signalled)) n
  Notify-Inv o (wake_poppers n) =
      Notify-Inv
        (ground (arith, o.pushers_awake, o.poppers_awake, o.room_signalled, o.item_signalled)) n
