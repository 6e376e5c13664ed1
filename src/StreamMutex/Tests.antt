-- ===== src/StreamMutex/Tests.antt =====
-- The theorems about include/stream_mutex.h at concrete states.
use google_concurrency_libra.Base.{ℕ, ◌≡◌, refl, [], ◌∷◌, arith, inl, some, none, update}
use google_concurrency_libra.StreamMutex.{get_stream_mutex_map, MayLock, lock}
use google_concurrency_libra.StreamMutex.System.{
  System, start, set_held, constructs, throws, Reach, Leaves, here, later,
}
use google_concurrency_libra.StreamMutex.Lost.{throw_keeps_lock}

-- Object 7 of stream 3, which thread 5 has locked.
abbrev locked : System ℕ
locked = record start {
  streams = record {
    stream_map = update (λ p. none) 3 (some 0);
    mutexes =
        update (update (λ m. record { owner = 0; depth = 0 }) 0 (record { owner = 0; depth = 0 })) 0
          (record { owner = 5; depth = 1 });
    made = 1;
  };
  objects = update (λ o. none) 7 (some (3, 0));
  held = set_held (λ i m. 0) 5 0 1;
}

-- It writes 1, and thread 6 makes one more object of the stream.
abbrev written : System ℕ
written = record locked {
  objects = update locked.objects 8 (some (3, 0));
  log = update locked.log 3 ((5, 1) ∷ []);
}

-- The first output of thread 5 throws.
abbrev thrown : System ℕ
thrown = record locked { held = λ i m. 0; lost = update (λ m. 0) 0 1 }

thrown-Reach : Reach start thrown
unfolding get_stream_mutex_map MayLock lock
thrown-Reach = later (later here (constructs 7 3 refl refl)) (throws 5 7 3 0 refl (inl refl))

throw_keeps_lock_example : (thrown.held 6 0 ≡ 0) × (MayLock 6 (thrown.streams.mutexes 0) → ⊥)
throw_keeps_lock_example =
    throw_keeps_lock 5 6 0 thrown-Reach (omega arith) refl Leaves.here (omega arith)
