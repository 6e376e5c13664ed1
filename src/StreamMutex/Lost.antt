-- ===== src/StreamMutex/Lost.antt =====
-- What a throwing output leaves behind in include/stream_mutex.h.
use google_concurrency_libra.Base.{ℕ, ◌<◌, ◌≡◌, ◌≢◌, arith}
use google_concurrency_libra.StreamMutex.{get_stream_mutex_map, MayLock, lock, unlock}
use google_concurrency_libra.StreamMutex.System.{
  System, start, Step, constructs, locks, writes, unlocks, throws, unlocks_lost, Reach, Leaves,
  here, later,
}
use google_concurrency_libra.StreamMutex.Safety.{Inv, start-Inv, Reach-Inv, Step-Inv}

module _ {A : Type 0} where
  Step-owner :
      {s t : System A} (i m : ℕ)
      → Step s t
      → Inv s
      → 0 < s.lost m
      → (s.streams.mutexes m).owner ≡ i
      → (t.streams.mutexes m).owner ≡ i
  unfolding get_stream_mutex_map lock unlock MayLock
  Step-owner {s} i m (constructs o p' free e) v h g = ground (arith, v.unmade 0 m)
  Step-owner {s} i m (locks j o p' m' e may) v h g = ground (arith, v.counted m)
  Step-owner {s} i m (writes j o p' m' x e h') v h g = g
  Step-owner {s} i m (unlocks j o p' m' n e h') v h g = ground arith
  Step-owner {s} i m (throws j o p' m' e may) v h g = ground (arith, v.counted m)
  Step-owner {s} i m (unlocks_lost j o p' m' n e own h') v h g = ground arith

  Leaves-Inv : {m : ℕ} {s t : System A} → Leaves m s t → Inv s → Inv t
  Leaves-Inv here v = v
  Leaves-Inv (later r st h) v = Step-Inv st (Leaves-Inv r v)

  Leaves-lost :
      (i m : ℕ) {s t : System A}
      → Leaves m s t
      → Inv s
      → 0 < s.lost m
      → (s.streams.mutexes m).owner ≡ i
      → (0 < t.lost m) × ((t.streams.mutexes m).owner ≡ i)
  Leaves-lost i m here v h g = (h, g)
  Leaves-lost i m (later r st k) v h g =
      let (h', g') = Leaves-lost i m r v h g in
      (omega arith, Step-owner i m st (Leaves-Inv r v) h' g')

  -- If the output of a `<<` on an object throws, its thread keeps the mutex: as long as `unlock` is not
  -- called for that, no other thread has the mutex, or can lock it, whatever the threads do.
  pub throw_keeps_lock :
      (i j m : ℕ) {s t : System A}
      → Reach start s
      → 0 < s.lost m
      → (s.streams.mutexes m).owner ≡ i
      → Leaves m s t
      → j ≢ i
      → (t.held j m ≡ 0) × (MayLock j (t.streams.mutexes m) → ⊥)
  unfolding MayLock
  throw_keeps_lock i j m {s} {t} r h g r' ne =
      let v : Inv t = Leaves-Inv r' (Reach-Inv r start-Inv) in
      let (h', g') = Leaves-lost i m r' (Reach-Inv r start-Inv) h g in
      (ground (arith, v.owner_holds j m), λ may. ground (arith, v.counted m))
