-- ===== src/BufferQueue/Fifo.antt =====
-- What include/buffer_queue.h promises: a bounded first-in first-out queue that can be closed.
use google_concurrency_libra.Base.{
  ℕ, Bool, true, false, List, [], ◌∷◌, ◌++◌, Option, some, none, leb, if◌then◌else◌, length,
}
use google_concurrency_libra.Outcome.{
  QueueOpStatus, success, empty, full, closed, busy, copy_failed, Outcome, returned, thrown,
}

pub record Fifo {ℓ} (A : Type ℓ) : Type ℓ where
  pub items : List A  -- oldest first
  pub cap : ℕ
  pub shut : Bool

-- The calls that do not wait.
pub data Call {ℓ} (A : Type ℓ) : Type ℓ where
  closes asks_closed asks_empty pops : Call A
  pushes : A → Call A
  nonblocking_pops : Bool → Call A
  nonblocking_pushes : Bool → A → Call A

pub data Reply {ℓ} (A : Type ℓ) : Type ℓ where
  done : Reply A
  answer : Bool → Reply A
  pushed : Outcome QueueOpStatus → Reply A
  popped : Outcome (QueueOpStatus × Option A) → Reply A

module _ {ℓ} {A : Type ℓ} where
  abbrev pub is_nil : List A → Bool
  is_nil [] = true
  is_nil (_ ∷ _) = false

  abbrev pub fifo_close : Fifo A → Fifo A
  fifo_close f = record f { shut = true }

module _ {ℓ} {A : Type ℓ} (throws : A → Bool) where
  -- A throwing assignment closes the queue and leaves its elements.
  unfoldable pub fifo_push : Fifo A → A → Fifo A × Outcome QueueOpStatus
  fifo_push f a =
      if f.shut
      then (f, returned closed)
      else (if leb f.cap (length f.items)
          then (f, returned full)
          else (if throws a
              then (fifo_close f, thrown copy_failed)
              else (record f { items = f.items ++ a ∷ [] }, returned success)))

  take_first : Fifo A → List A → Fifo A × Outcome (QueueOpStatus × Option A)
  take_first f [] = (f, returned (if f.shut then closed else empty, none))
  take_first f (a ∷ rest) =
      if throws a
      then (fifo_close (record f { items = rest }), thrown copy_failed)
      else (record f { items = rest }, returned (success, some a))

  -- A throwing assignment closes the queue, and the element is lost.
  unfoldable pub fifo_pop : Fifo A → Fifo A × Outcome (QueueOpStatus × Option A)
  unfolding take_first
  fifo_pop f = take_first f f.items

  unfoldable pub fifo_step : Fifo A → Call A → Fifo A × Reply A
  unfolding fifo_push fifo_pop
  fifo_step f closes = (fifo_close f, done)
  fifo_step f asks_closed = (f, answer f.shut)
  fifo_step f asks_empty = (f, answer (is_nil f.items))
  fifo_step f pops = let (f', r) = fifo_pop f in (f', popped r)
  fifo_step f (pushes a) = let (f', r) = fifo_push f a in (f', pushed r)
  fifo_step f (nonblocking_pops true) = let (f', r) = fifo_pop f in (f', popped r)
  fifo_step f (nonblocking_pops false) = (f, popped (returned (busy, none)))
  fifo_step f (nonblocking_pushes true a) = let (f', r) = fifo_push f a in (f', pushed r)
  fifo_step f (nonblocking_pushes false a) = (f, pushed (returned busy))

  unfoldable pub fifo_run : Fifo A → List (Call A) → List (Reply A)
  fifo_run f [] = []
  fifo_run f (c ∷ cs) = let (f', r) = fifo_step f c in r ∷ fifo_run f' cs
