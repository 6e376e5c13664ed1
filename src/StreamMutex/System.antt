-- ===== src/StreamMutex/System.antt =====
-- Threads that make objects of include/stream_mutex.h, and write through their guards.
use google_concurrency_libra.Base.{
  ℕ, ◌+◌, ◌<◌, ◌≤◌, ◌≡◌, List, [], ◌∷◌, ◌++◌, Option, some, none, suc, update,
}
use google_concurrency_libra.StreamMutex.{Streams, get_stream_mutex_map, MayLock, lock, unlock}

-- `objects` has the stream and the mutex of each object; `held`, for a thread and a mutex, the calls of
-- `lock` that it still has to undo, its guards among them; `lost`, for a mutex, the calls that nothing
-- undoes; `log`, for a stream, what each thread has written to it.
pub record System (A : Type 0) : Type 0 where
  pub streams : Streams
  pub objects : ℕ → Option (ℕ × ℕ)
  pub held : ℕ → ℕ → ℕ
  pub lost : ℕ → ℕ
  pub log : ℕ → List (ℕ × A)

abbrev pub set_held : (ℕ → ℕ → ℕ) → ℕ → ℕ → ℕ → ℕ → ℕ → ℕ
set_held held i m n = update held i (update (held i) m n)

module _ {A : Type 0} where
  abbrev pub start : System A
  start = record {
    streams = record {
      stream_map = λ p. none;
      mutexes = λ m. record { owner = 0; depth = 0 };
      made = 0;
    };
    objects = λ o. none;
    held = λ i m. 0;
    lost = λ m. 0;
    log = λ p. [];
  }

  -- The constructor of `stream_mutex`; a guard, `lock` or `<<` on an object; `<<` on a guard; the end of a
  -- guard, or `unlock`; a `<<` on an object whose output throws: it has locked, and there is no guard yet;
  -- and a call of `unlock` for that, by the thread that has the mutex. For another thread such a call has
  -- no defined behaviour.
  pub data Step (s : System A) : System A → Type 0 where
    constructs :
        (o p : ℕ) {m : ℕ} {streams : Streams}
        → s.objects o ≡ none
        → get_stream_mutex_map p s.streams ≡ (m, streams)
        → Step s (record s { streams = streams; objects = update s.objects o (some (p, m)) })
    locks :
        (i o p m : ℕ)
        → s.objects o ≡ some (p, m)
        → MayLock i (s.streams.mutexes m)
        → Step s
            (record s { streams = lock i m s.streams; held = set_held s.held i m (s.held i m + 1) })
    writes :
        (i o p m : ℕ) (x : A)
        → s.objects o ≡ some (p, m)
        → 0 < s.held i m
        → Step s (record s { log = update s.log p (s.log p ++ ((i, x) ∷ [])) })
    unlocks :
        (i o p m n : ℕ)
        → s.objects o ≡ some (p, m)
        → s.held i m ≡ suc n
        → Step s (record s { streams = unlock m s.streams; held = set_held s.held i m n })
    throws :
        (i o p m : ℕ)
        → s.objects o ≡ some (p, m)
        → MayLock i (s.streams.mutexes m)
        → Step s (record s { streams = lock i m s.streams; lost = update s.lost m (s.lost m + 1) })
    unlocks_lost :
        (i o p m n : ℕ)
        → s.objects o ≡ some (p, m)
        → (s.streams.mutexes m).owner ≡ i
        → s.lost m ≡ suc n
        → Step s (record s { streams = unlock m s.streams; lost = update s.lost m n })

  pub data Reach (s : System A) : System A → Type 0 where
    here : Reach s s
    later : {t u : System A} → Reach s t → Step t u → Reach s u

  -- Steps of which none is a call of `unlock` for a throw.
  pub data Leaves (m : ℕ) (s : System A) : System A → Type 0 where
    here : Leaves m s s
    later : {t u : System A} → Leaves m s t → Step t u → t.lost m ≤ u.lost m → Leaves m s u

  -- Steps in which a thread has the mutex all the time.
  pub data Keeps (i m : ℕ) (s : System A) : System A → Type 0 where
    here : Keeps i m s s
    later : {t u : System A} → Keeps i m s t → 0 < t.held i m → Step t u → Keeps i m s u
