-- ===== src/FlexBarrier/Safety.antt =====
-- What holds in every state of the threads of one barrier of src/flex_barrier.cc.
use google_concurrency_libra.FlexBarrier.{arrive, drop_thread, pass, FlexBarrier, Arrival, Drop}
use google_concurrency_libra.Base.{
  ℕ, ◌+◌, ◌<◌, ◌≡◌, ◌⊎◌, arith, suc, Bool, true, false, Option, none, some, ◌≤◌, ◌-◌, List, [], ◌∷◌,
  sum_map,
}
use google_concurrency_libra.Base.Int.{pos, ℤ}
use google_concurrency_libra.FlexBarrier.System.{
  System, Caller, fresh, woken, notify_idle, completes, ends_phase, notify_ready, Reach, start,
  Step, arrive_idle, arrive_ready, arrive_through, arrive_fails, drop_idle, drops, drop_refused,
  drop_fails, wakes_idle, wakes_ready, pass_waits, pass_through, later, here,
}

-- Each completed phase had as many arrivals as threads.
abbrev pub AllEven : List (ℕ × ℕ) → Type 0
AllEven [] = Unit
AllEven (p ∷ ps) = (p.0 ≡ p.1) × AllEven ps

-- Arrivals are counted, and no thread waits for the last phase to be left.
pub record Filling (s : System) : Type 0 where
  pub left : s.barrier.num_to_leave ≡ pos 0
  pub awake : s.idle_asleep ≡ 0
  pub threads : s.barrier.thread_count ≡ pos s.phase_size
  pub counted : s.barrier.num_waiting ≡ s.gathered
  pub waiting : s.ready_asleep + s.ready_woken ≡ s.barrier.num_waiting
  pub below : (s.gathered < s.phase_size) ⊎ (s.phase_size ≡ 0)
  pub arrivals : s.arrived ≡ s.completed + s.gathered
  pub releases : s.passed ≡ s.completed

-- The phase is complete, its threads are awake, and the next size is known.
pub record Draining (s : System) : Type 0 where
  pub left : s.barrier.num_to_leave ≡ pos s.ready_woken
  pub some_left : 0 < s.ready_woken
  pub awake : s.ready_asleep ≡ 0
  pub full : s.barrier.thread_count ≡ pos s.barrier.num_waiting
  pub following : s.barrier.new_thread_count ≡ pos s.phase_size
  pub some_next : 0 < s.phase_size
  pub none_yet : s.gathered ≡ 0
  pub arrivals : s.arrived ≡ s.completed
  pub releases : s.passed + s.ready_woken ≡ s.completed

pub record Mode (s : System) : Type 0 where
  pub even : AllEven s.phases
  pub total : s.completed ≡ sum_map (λ p. p.0) s.phases
  pub mode : Filling s ⊎ Draining s

-- Until a completion function has returned 0 or thrown.
abbrev pub Inv : System → Type 0
Inv s = s.failed ≡ 0 → Mode s

pub Caller-Inv : {s t : System} → Caller s t → Inv s → Inv t
Caller-Inv fresh o = o
Caller-Inv (woken n e) o = λ f. let x : Mode _ = o f in ground arith

arrive_idle-Mode :
    {t : System} (r : Option ℤ)
    → arrive t.barrier r ≡ Arrival.waits_idle
    → Mode t
    → Mode (record t { idle_asleep = t.idle_asleep + 1 })
unfolding arrive
arrive_idle-Mode r e o = ground arith

arrive_ready-Mode :
    {t : System} {b : FlexBarrier} (r : Option ℤ)
    → arrive t.barrier r ≡ Arrival.waits_ready b
    → Mode t
    → Mode (record t {
      barrier = b;
      ready_asleep = t.ready_asleep + 1;
      arrived = t.arrived + 1;
      gathered = t.gathered + 1;
    })
unfolding arrive
arrive_ready-Mode r e o = ground arith

arrive_through-Mode :
    {t : System} {b : FlexBarrier} (notifies : Bool) (r : Option ℤ)
    → arrive t.barrier r ≡ Arrival.through b notifies
    → Mode t
    → Mode (
        notify_idle notifies (
          notify_ready true (
            ends_phase r (record t {
              barrier = b;
              passed = t.passed + 1;
              arrived = t.arrived + 1;
              gathered = t.gathered + 1;
            }))))
unfolding arrive
arrive_through-Mode true r e o = ground arith
arrive_through-Mode false r e o = ground arith

drop_idle-Mode :
    {t : System} (r : Option ℤ)
    → drop_thread t.barrier r ≡ Drop.waits_idle
    → Mode t
    → Mode (record t { idle_asleep = t.idle_asleep + 1 })
unfolding drop_thread
drop_idle-Mode r e o = ground arith

drops-Mode :
    {t : System} {b : FlexBarrier} (notifies : Bool) (r : Option ℤ)
    → drop_thread t.barrier r ≡ Drop.dropped b notifies
    → Mode t
    → Mode (
        completes notifies r
          (notify_ready notifies (record t { barrier = b; phase_size = t.phase_size - 1 })))
unfolding drop_thread
drops-Mode true r e o = ground arith
drops-Mode false r e o = ground arith

pass_through-Mode :
    {s : System} {b : FlexBarrier} (notifies : Bool) (n : ℕ)
    → s.ready_woken ≡ suc n
    → pass s.barrier ≡ some (b, notifies)
    → Mode s
    → Mode (notify_idle notifies (record s { barrier = b; ready_woken = n; passed = s.passed + 1 }))
unfolding pass
pass_through-Mode true n e w o = ground arith
pass_through-Mode false n e w o = ground arith

pass_waits-Mode :
    {s : System} (n : ℕ)
    → s.ready_woken ≡ suc n
    → pass s.barrier ≡ none
    → Mode s
    → Mode (record s { ready_woken = n; ready_asleep = s.ready_asleep + 1 })
unfolding pass
pass_waits-Mode n e w o = ground arith

Step-Inv : {s t : System} → Step s t → Inv s → Inv t
Step-Inv (arrive_idle r c e) o = λ f. arrive_idle-Mode r e (Caller-Inv c o f)
Step-Inv (arrive_ready r c e) o = λ f. arrive_ready-Mode r e (Caller-Inv c o f)
Step-Inv (arrive_through {notifies = true} r c e) o =
    λ f. arrive_through-Mode true r e (Caller-Inv c o f)
Step-Inv (arrive_through {notifies = false} r c e) o =
    λ f. arrive_through-Mode false r e (Caller-Inv c o f)
Step-Inv (arrive_fails r c e) o = λ f. absurd (omega arith)
Step-Inv (drop_idle r c e) o = λ f. drop_idle-Mode r e (Caller-Inv c o f)
Step-Inv (drops {notifies = true} r c e) o = λ f. drops-Mode true r e (Caller-Inv c o f)
Step-Inv (drops {notifies = false} r c e) o = λ f. drops-Mode false r e (Caller-Inv c o f)
Step-Inv (drop_refused r c e) o = Caller-Inv c o
Step-Inv (drop_fails r c e) o = λ f. absurd (omega arith)
Step-Inv (wakes_idle n e) o = λ f. let x : Mode _ = o f in ground arith
Step-Inv (wakes_ready n e) o = λ f. let x : Mode _ = o f in ground arith
Step-Inv (pass_waits n e w) o = λ f. pass_waits-Mode n e w (o f)
Step-Inv (pass_through n {notifies = true} e w) o = λ f. pass_through-Mode true n e w (o f)
Step-Inv (pass_through n {notifies = false} e w) o = λ f. pass_through-Mode false n e w (o f)

start-Inv : (unset : ℤ) (n : ℕ) → Inv (start unset n)
start-Inv unset n f = ground arith

pub Reach-Inv : {unset : ℤ} {n : ℕ} {s : System} → Reach (start unset n) s → Inv s
Reach-Inv {unset} {n} here = start-Inv unset n
Reach-Inv (later r st) = Step-Inv st (Reach-Inv r)

-- While no completion function has returned 0 or thrown: each completed phase had exactly as many
-- arrivals as its size, which is that of the first phase, or what the completion function before
-- it returned, where a negative result keeps the size, less the threads that dropped. The threads
-- that have returned all belong to a completed phase, and the arrivals of the completed phases
-- have all happened. While a phase is being left, its remaining threads are awake and counted, and
-- with the returned ones make up the completed phases; once it has been left, all of them have
-- returned, the barrier has the size of the new phase, its count is that of the threads that wait,
-- and no thread sleeps that waits for this.
pub flex_safety :
    {unset : ℤ} {n : ℕ} {s : System}
    → Reach (start unset n) s
    → s.failed ≡ 0
    → AllEven s.phases
      × (s.completed ≡ sum_map (λ p. p.0) s.phases)
      × (s.passed ≤ s.completed)
      × (s.completed ≤ s.arrived)
      × (((s.barrier.num_to_leave ≡ pos 0)
            × (s.passed ≡ s.completed)
            × (s.barrier.thread_count ≡ pos s.phase_size)
            × (s.barrier.num_waiting ≡ s.ready_asleep + s.ready_woken)
            × (s.idle_asleep ≡ 0))
          ⊎ ((0 < s.ready_woken)
              × (s.passed + s.ready_woken ≡ s.completed)
              × (s.barrier.num_to_leave ≡ pos s.ready_woken)
              × (s.ready_asleep ≡ 0)))
flex_safety r f = let x : Mode _ = Reach-Inv r f in ground arith
