-- ===== src/StreamMutex/Safety.antt =====
-- Only one thread at a time writes to a stream of include/stream_mutex.h.
use google_concurrency_libra.Base.{ℕ, ◌+◌, ◌<◌, ◌≤◌, ◌≡◌, refl, List, some, suc, update, arith}
use google_concurrency_libra.StreamMutex.{Streams, get_stream_mutex_map, MayLock, lock, unlock}
use google_concurrency_libra.StreamMutex.System.{
  System, start, set_held, Step, constructs, locks, writes, unlocks, throws, unlocks_lost, Reach,
  here, later,
}

module _ {A : Type 0} where
  pub record Inv (s : System A) : Type 0 where
    pub of_stream : (o p m : ℕ) → s.objects o ≡ some (p, m) → s.streams.stream_map p ≡ some m
    pub known : (p m : ℕ) → s.streams.stream_map p ≡ some m → m < s.streams.made
    pub own :
        (p p' m : ℕ) → s.streams.stream_map p ≡ some m → s.streams.stream_map p' ≡ some m → p ≡ p'
    pub owner_holds : (i m : ℕ) → 0 < s.held i m → (s.streams.mutexes m).owner ≡ i
    pub counted :
        (m : ℕ) → (s.streams.mutexes m).depth ≡ s.held (s.streams.mutexes m).owner m + s.lost m
    pub unmade : (i m : ℕ) → s.streams.made ≤ m → (s.held i m ≡ 0) × (s.lost m ≡ 0)

  pub start-Inv : Inv start
  start-Inv = record {
    of_stream = λ o p m e. absurd (ground arith);
    known = λ p m e. absurd (ground arith);
    own = λ p p' m e f. absurd (ground arith);
    owner_holds = λ i m h. absurd (omega arith);
    counted = λ m. refl;
    unmade = λ i m h. (refl, refl);
  }

  -- The map, with a mutex for one more stream.
  new_stream-Inv :
      (s : System A) (o p m : ℕ) (streams : Streams)
      → Inv s
      → get_stream_mutex_map p s.streams ≡ (m, streams)
      → Inv (record s { streams = streams; objects = update s.objects o (some (p, m)) })
  unfolding get_stream_mutex_map
  new_stream-Inv s o p m streams v e = record {
    of_stream = λ o' p' m' f. ground (arith, v.of_stream o' p' m', v.of_stream o' p m');
    known = λ p' m' f. ground (arith, v.known p' m', v.known p m');
    own = λ a b c f g. ground (arith, v.own a b c, v.known a c, v.known b c);
    owner_holds = λ i a h. ground (arith, v.owner_holds i a, v.unmade i a);
    counted = λ a. ground (arith, v.counted a, v.unmade 0 a);
    unmade = λ i a h. ground (arith, v.unmade i a);
  }

  locked-Inv :
      (s : System A) (i m : ℕ)
      → Inv s
      → m < s.streams.made
      → MayLock i (s.streams.mutexes m)
      → Inv (record s { streams = lock i m s.streams; held = set_held s.held i m (s.held i m + 1) })
  unfolding lock MayLock
  locked-Inv s i m v h may = record {
    of_stream = v.of_stream;
    known = v.known;
    own = v.own;
    owner_holds = λ j a k. ground (arith, v.owner_holds j a, v.counted a);
    counted = λ a. ground (arith, v.counted a, v.owner_holds i a);
    unmade = λ j a k. ground (arith, v.unmade j a);
  }

  unlocked-Inv :
      (s : System A) (i m n : ℕ)
      → Inv s
      → s.held i m ≡ suc n
      → Inv (record s { streams = unlock m s.streams; held = set_held s.held i m n })
  unfolding unlock
  unlocked-Inv s i m n v h = record {
    of_stream = v.of_stream;
    known = v.known;
    own = v.own;
    owner_holds = λ j a k. ground (arith, v.owner_holds j a);
    counted = λ a. ground (arith, v.counted a, v.owner_holds i a);
    unmade = λ j a k. ground (arith, v.unmade j a);
  }

  thrown-Inv :
      (s : System A) (i m : ℕ)
      → Inv s
      → m < s.streams.made
      → MayLock i (s.streams.mutexes m)
      → Inv (record s { streams = lock i m s.streams; lost = update s.lost m (s.lost m + 1) })
  unfolding lock MayLock
  thrown-Inv s i m v h may = record {
    of_stream = v.of_stream;
    known = v.known;
    own = v.own;
    owner_holds = λ j a k. ground (arith, v.owner_holds j a, v.counted a);
    counted = λ a. ground (arith, v.counted a, v.owner_holds i a);
    unmade = λ j a k. ground (arith, v.unmade j a);
  }

  relieved-Inv :
      (s : System A) (m n : ℕ)
      → Inv s
      → s.lost m ≡ suc n
      → Inv (record s { streams = unlock m s.streams; lost = update s.lost m n })
  unfolding unlock
  relieved-Inv s m n v h = record {
    of_stream = v.of_stream;
    known = v.known;
    own = v.own;
    owner_holds = λ j a k. ground (arith, v.owner_holds j a);
    counted = λ a. ground (arith, v.counted a);
    unmade = λ j a k. ground (arith, v.unmade j a);
  }

  pub Step-Inv : {s t : System A} → Step s t → Inv s → Inv t
  Step-Inv {s} (constructs o p {m} {streams} free e) v = new_stream-Inv s o p m streams v e
  Step-Inv {s} (locks i o p m e may) v = locked-Inv s i m v (v.known p m (v.of_stream o p m e)) may
  Step-Inv {s} (writes i o p m x e h) v = record {
    of_stream = v.of_stream;
    known = v.known;
    own = v.own;
    owner_holds = v.owner_holds;
    counted = v.counted;
    unmade = v.unmade;
  }
  Step-Inv {s} (unlocks i o p m n e h) v = unlocked-Inv s i m n v h
  Step-Inv {s} (throws i o p m e may) v = thrown-Inv s i m v (v.known p m (v.of_stream o p m e)) may
  Step-Inv {s} (unlocks_lost i o p m n e own h) v = relieved-Inv s m n v h

  pub Reach-Inv : {s t : System A} → Reach s t → Inv s → Inv t
  Reach-Inv here v = v
  Reach-Inv (later r st) v = Step-Inv st (Reach-Inv r v)
