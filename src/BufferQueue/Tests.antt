-- ===== src/BufferQueue/Tests.antt =====
-- Runs of the queue of include/buffer_queue.h, and its theorems at concrete queues.
use google_concurrency_libra.BufferQueue.Monitor.Wakeups.{no_lost_wakeup}
use google_concurrency_libra.BufferQueue.Monitor.{
  System, Reach, later, begin, pop_waits, PopperTurn, tries_push, Notify,
}
use google_concurrency_libra.Base.{
  Bool, ℕ, ◌<◌, ◌≡◌, refl, ◌⊎◌, inl, true, false, none, some, List, [], ◌∷◌, arith, ◌==◌, get_elem?,
  length,
}
use google_concurrency_libra.Outcome.{
  returned, thrown, invalid_argument, success, full, closed, copy_failed,
}
use google_concurrency_libra.BufferQueue.{
  BufferQueue, construct, try_push, try_pop, is_empty, try_push_common, Section,
}
use google_concurrency_libra.BufferQueue.Wait.{
  wait_push, wait_pop, push, value_pop, wait_pop_round, wait_push_round, refuse_closed, take_value,
}
use google_concurrency_libra.BufferQueue.Construct.{construct_from}
use google_concurrency_libra.BufferQueue.Bounds.{IsValid, in_bounds, try_pop-IsValid}
use google_concurrency_libra.BufferQueue.Fifo.{
  fifo_run, Call, asks_empty, pops, pushes, answer, pushed, popped,
}
use google_concurrency_libra.BufferQueue.Calls.{step, run}
use google_concurrency_libra.BufferQueue.Refine.{contents, view, run-refines}
use google_concurrency_libra.BufferQueue.Filled.{constructors_lem}
use google_concurrency_libra.BufferQueue.Blocking.{HasRoom, PushWaits, PopWaits}
use google_concurrency_libra.BufferQueue.Throwing.{PushEnds, PopEnds, push_lem, value_pop_lem}

-- Assigning 13 throws.
abbrev unlucky : ℕ → Bool
unlucky n = n == 13

abbrev never : ℕ → Bool
never n = false

-- Capacity 2, holding 8 and then 9, which lies at the start of the array.
abbrev wrapped : BufferQueue ℕ
wrapped = record {
  waiting_full = 0;
  waiting_empty = 0;
  buffer = 7 ∷ 8 ∷ 9 ∷ [];
  push_index = 0;
  pop_index = 1;
  num_slots = 3;
  is_shut = false;
}

wrapped-IsValid : IsValid wrapped
wrapped-IsValid = omega arith

abbrev script : List (Call ℕ)
script = pushes 1 ∷ pops ∷ pushes 13 ∷ pushes 2 ∷ pops ∷ asks_empty ∷ pops ∷ []

run-wrapped :
    run unlucky wrapped script
    ≡ pushed (returned full)
      ∷ popped (returned (success, some 8))
      ∷ pushed (thrown copy_failed)
      ∷ pushed (returned closed)
      ∷ popped (returned (success, some 9))
      ∷ answer true
      ∷ popped (returned (closed, none))
      ∷ []
unfolding run step try_push try_pop is_empty
run-wrapped = refl

run-refines_example : run unlucky wrapped script ≡ fifo_run unlucky (view wrapped) script
run-refines_example = run-refines unlucky script wrapped-IsValid

in_bounds_example : (0 < 3) × ((a : ℕ) × (get_elem? (7 ∷ 8 ∷ 9 ∷ []) 1 ≡ some a))
in_bounds_example = in_bounds wrapped-IsValid

constructors_lem_example :
    (((2 < 2) × (construct_from never 0 2 (4 ∷ 5 ∷ []) ≡ thrown invalid_argument))
      ⊎ ((q : BufferQueue ℕ) × (construct_from never 0 2 (4 ∷ 5 ∷ []) ≡ returned q)
          × IsValid q
          × (view q ≡ record { items = 4 ∷ 5 ∷ []; cap = 2; shut = false })))
    × ((◌≡◌ {A = ℕ} 2 0 × (construct {A = ℕ} 0 2 ≡ thrown invalid_argument))
        ⊎ ((q : BufferQueue ℕ) × (construct {A = ℕ} 0 2 ≡ returned q)
            × IsValid q
            × (view q ≡ record { items = []; cap = 2; shut = false })))
    × ((q : BufferQueue ℕ) × (construct_from never 0 0 [] ≡ returned q)
        × ((a : ℕ) → (try_push never q a).outcome ≡ returned full))
constructors_lem_example = constructors_lem never (λ _. refl) 0 2 (4 ∷ 5 ∷ []) (omega arith)

-- While a push waits, another thread pops.
abbrev pops_once : BufferQueue ℕ → BufferQueue ℕ
pops_once q = (try_pop unlucky q).after

pops_once-IsValid : (q : BufferQueue ℕ) → IsValid q → IsValid (pops_once q)
pops_once-IsValid q v = try_pop-IsValid unlucky v

abbrev shuts : BufferQueue ℕ → BufferQueue ℕ
shuts q = record q { is_shut = true }

shuts_frees : (q : BufferQueue ℕ) → IsValid q → IsValid (shuts q) × HasRoom (shuts q)
shuts_frees q v = (ground arith, inl refl)

abbrev pushed_five : Section ℕ (Unit {0})
pushed_five = record {
  after = record wrapped { buffer = 5 ∷ 8 ∷ 9 ∷ []; push_index = 1; pop_index = 2 };
  signals = [];
  outcome = returned tt;
}

abbrev popped_eight : Section ℕ ℕ
popped_eight = record {
  after = record wrapped { pop_index = 2 };
  signals = [];
  outcome = returned 8;
}

push_lem_example :
    (q₀ : BufferQueue ℕ) × PushWaits q₀ (pops_once ∷ []) wrapped
    × IsValid q₀
    × PushEnds unlucky q₀ 5 pushed_five
unfolding push wait_push wait_push_round refuse_closed try_pop
push_lem_example =
    push_lem unlucky (pops_once ∷ []) wrapped 5 (pops_once-IsValid, tt) wrapped-IsValid refl

value_pop_lem_example :
    (q₀ : BufferQueue ℕ) × PopWaits q₀ [] wrapped × IsValid q₀ × PopEnds unlucky q₀ popped_eight
unfolding value_pop wait_pop wait_pop_round take_value
value_pop_lem_example = value_pop_lem unlucky [] wrapped tt wrapped-IsValid refl

-- One slot; two threads wait in `wait_pop`, and a push wakes one of them.
abbrev one_slot : BufferQueue ℕ
one_slot = record {
  waiting_full = 0;
  waiting_empty = 0;
  buffer = 0 ∷ 0 ∷ [];
  push_index = 0;
  pop_index = 0;
  num_slots = 2;
  is_shut = false;
}

abbrev handed_over : System ℕ
handed_over = record {
  queue = record one_slot { waiting_empty = 1; buffer = 5 ∷ 0 ∷ []; push_index = 1 };
  pushers_asleep = [];
  pushers_woken = [];
  poppers_asleep = 1;
  poppers_woken = 1;
  closers = 0;
}

handed_over-Reach : Reach never 0 1 handed_over
unfolding construct google_concurrency_libra.BufferQueue.Wait.wait_pop_turn try_push_common
handed_over-Reach =
    later
      (later (later (begin refl) (pop_waits (PopperTurn.fresh refl) refl))
        (pop_waits (PopperTurn.fresh refl) refl))
      (tries_push 5 (Notify.wake_popper 1 refl Notify.silent))

no_lost_wakeup_example :
    (0 < 0
      → (handed_over.queue.is_shut ≡ true) ⊎ (length (contents handed_over.queue) < 1)
      → (handed_over.queue.is_shut ≡ false) × (0 < 0))
    × (0 < 1
        → (handed_over.queue.is_shut ≡ true) ⊎ (0 < length (contents handed_over.queue))
        → (handed_over.queue.is_shut ≡ false) × (0 < 1))
no_lost_wakeup_example = no_lost_wakeup never (omega arith) handed_over-Reach
