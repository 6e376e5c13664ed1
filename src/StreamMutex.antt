-- ===== src/StreamMutex.antt =====
-- The mutexes of streams of include/stream_mutex.h and src/stream_mutex.cc, and the threads that write
-- through them. A stream, an object of the class and a mutex are numbers, and a mutex is recursive: a
-- thread that has it can lock it again.
pub mod System
pub mod Safety
pub mod Lost
mod Tests
use google_concurrency_libra.Base.{ℕ, ◌+◌, ◌-◌, ◌≡◌, ◌⊎◌, Option, some, none, update}

-- What the source uses of `std::recursive_mutex`.
pub record RecursiveMutex : Type 0 where
  pub owner : ℕ
  pub depth : ℕ

-- `stream_map`, with the mutexes that have been made.
pub record Streams : Type 0 where
  pub stream_map : ℕ → Option ℕ
  pub mutexes : ℕ → RecursiveMutex
  pub made : ℕ

-- `get_stream_mutex_map`
unfoldable pub get_stream_mutex_map : ℕ → Streams → ℕ × Streams
get_stream_mutex_map stm_ptr s = elim (s.stream_map stm_ptr) [
  | some mtx ↦ (mtx, s)
  | none ↦ (
    s.made,
    record {
      stream_map = update s.stream_map stm_ptr (some s.made);
      mutexes = update s.mutexes s.made (record { owner = 0; depth = 0 });
      made = s.made + 1;
    },
  )
]

unfoldable pub MayLock : ℕ → RecursiveMutex → Type 0
MayLock thread mtx = (mtx.depth ≡ 0) ⊎ (mtx.owner ≡ thread)

unfoldable pub lock : ℕ → ℕ → Streams → Streams
lock thread m s = record s {
  mutexes = update s.mutexes m (record { owner = thread; depth = (s.mutexes m).depth + 1 });
}

unfoldable pub unlock : ℕ → Streams → Streams
unlock m s = record s {
  mutexes =
      update s.mutexes m (record { owner = (s.mutexes m).owner; depth = (s.mutexes m).depth - 1 });
}
