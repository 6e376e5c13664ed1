-- ===== src/Counter/Strong/Twice.antt =====
-- A broker of a strong duplex counter of include/counter.h that goes while the prime is read.
use google_concurrency_libra.Counter.Duplex
