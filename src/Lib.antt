-- ===== src/Lib.antt =====
-- Models and theorems for the concurrency library: the bounded blocking queue, the lock-free queue,
-- the priority queue, the shared queue ends, the counters, the sources, the pipelines, the map-reduce, the
-- stream mutexes, the two latches, the cyclic barriers, the mutable thread, the thread pool and the serial
-- executor.
--
-- The parts and how they meet. The queue (include/buffer_queue.h) moves elements between threads;
-- its status codes come from include/queue_base.h, whose shared ends hold a queue through an
-- abstract interface and close it. The lock-free queue (include/lock_free_buffer_queue.h) does the
-- same without a mutex. The priority queue (include/concurrent_priority_queue.h) is a container of
-- its own, and a source (include/source.h) reads from any queue. The counters (include/counter.h)
-- are shared by threads through buffers or brokers. The latches and the two barriers let threads
-- wait for each other. The pool (include/simple_thread_pool.h) hands out threads of
-- include/mutable_thread.h, which it creates, joins and deletes, and of which it reads nothing but
-- the address. A pipeline (include/pipeline.h) is threads with a queue before each, and a map-reduce
-- (include/map_reduce.h) two rounds of threads that read queues, with a blocking queue made for the
-- second round. A stream mutex (include/stream_mutex.h) lets one thread at a time write to a stream.
-- No other part calls another one of these. All but the lock-free queue, the counts of the shared
-- ends, the pipelines and the map-reduce keep their state behind one mutex, apart from some accesses
-- that are named below, so a model is that state with one function for each critical section, and
-- below it, for all but the pool, the priority queue and the sources, a system of threads that take
-- their critical sections in any order. A history of calls stands for the threads of the priority
-- queue, whose calls hold the mutex throughout; a source belongs to one thread.
--
-- Outcome: the status codes of include/queue_base.h, and how a call ends: it returns, throws one of
--   the exceptions of the source, or does what the source leaves undefined.
-- Base: the shared names, signed integers (Base/Int), finite sets of addresses (Base/Sets), and the
--   contents of a circular array (Base/Slices).
-- BufferQueue: include/buffer_queue.h. The record has the fields of the class; `next`, `pop_from`,
--   `push_at`, `push_reindex`, `try_pop_common`, `try_push_common`, `try_pop`, `try_push`,
--   `nonblocking_pop`, `nonblocking_push`, `close`, `is_closed` and `is_empty` are the members of these
--   names. A call returns the queue, the notifications that it sends and its outcome. Whether the copy
--   or the move of an element throws is a parameter, `throws`. BufferQueue/Construct has the two
--   constructors, BufferQueue/Wait the waiting calls: what other threads do during a wait is a list of
--   arbitrary state changes, and a wait that the list does not end has not ended yet.
--   BufferQueue/Refine, Order, Filled, Blocking and Throwing have the properties of the calls;
--   BufferQueue/Monitor is the system of threads that sleep on the two condition variables.
-- LockFreeQueue: include/lock_free_buffer_queue.h. The slots are functions of the slot number, and each
--   function of LockFreeQueue/Moves is one access to an atomic member, or one assignment of an element.
--   `advance` is one such move of a thread that stands at a place of `nonblocking_push` or
--   `nonblocking_pop`; LockFreeQueue/System lets any number of threads move in any order. Whether an
--   assignment throws, and whether a weak exchange fails without cause, are parameters of a move. The
--   state also notes what was accepted and what was delivered for each position, which no function
--   reads. LockFreeQueue/Loops has the calls of a thread that is alone with the queue, and Cleared the
--   loop of `init` with its index of 32 bits; what a new array holds is an argument.
-- SharedEnds: `queue_counted` and `release` of include/queue_base.h. The two reference counts change by
--   separate steps, and SharedEnds/System has the ends that exist and those that are being released.
-- Counter: include/counter.h. A bumper is its value; Counter/Arrays has the arrays of bumpers and of
--   buffers, Counter/Duplex what the two duplex counters share, with `NDEBUG` as a parameter since the
--   source changes its sets inside `assert`. Counter/Weak and Counter/Strong are the systems of threads
--   that count, create and destroy brokers, and query or extract; a query visits the brokers in any
--   order. Weak brokers are loaded and stored by their owner in two steps, the others are atomic.
-- PriorityQueue: include/concurrent_priority_queue.h. The order that a comparator stands for is a
--   parameter, and the heap algorithms of the standard library are, for each comparator, a record
--   `HeapOps`, a parameter with the documented laws of the algorithms.
-- Source: include/source.h and include/iterator_queue.h. What a source calls of its queue is a parameter;
--   the queue over a range names the calls differently and so does not fill it.
-- Pipeline: include/pipeline.h. A worker thread is a record of its function and its queue, and a step of
--   Pipeline.Step is one call on a queue or one call of a function. Pipeline/Plan has the segments that a
--   plan is made of and the workers that it starts; Pipeline/Plans, Completes, Flow, Tidy, Work and
--   Progress say what a plan of functions computes, Pipeline/Closing what loops over queue ends lose.
--   Pipeline/Parallel is the parallel segment around a function, with the thread that collects.
-- MapReduce: include/map_reduce.h and include/map_reduce_impl.h, with what they use of
--   include/map_reduce_helpers.h. `mapper_helper` and `reducer_helper` share one loop, which is a system of
--   threads over a closed queue; MapReduce/Readers and Ended say what the threads hold, write and leave.
--   MapReduce/Shuffle has what `run` does between its two loops, Handover its queue of tasks, made of
--   BufferQueue; Sharding, Keys and Phases have the properties. What `run` reads through `end()` is an
--   argument.
-- StreamMutex: include/stream_mutex.h and src/stream_mutex.cc. StreamMutex/System has the threads that make
--   objects and lock, write and unlock through them; a recursive mutex is its owner and its depth.
-- Latch: include/latch.h and src/latch.cc. Latch/System has its threads: each place of the code where
--   a thread can stand is a counter, and a step moves one thread.
-- CountdownLatch: include/countdown_latch.h and src/countdown_latch.cc, in the same manner.
-- Barrier: include/barrier.h and src/barrier.cc, with `arrive` for `arrive_and_wait` up to its wait,
--   `pass` for what follows it under the mutex, and `depart` for the decrement of `num_to_leave_` that
--   follows outside the mutex, so that other threads can act in between. Barrier/System has the
--   threads of `arrive_and_wait` and `arrive_and_drop` and, apart from the variables of the barrier, the
--   size and the arrivals of each phase.
-- FlexBarrier: include/flex_barrier.h and src/flex_barrier.cc. The completion function belongs to the
--   user: its result is an argument of `arrive` and `drop_thread`, and is chosen anew at each step of
--   FlexBarrier/System, which has the threads of both calls and, apart from the variables of the
--   barrier, the size and the arrivals of each phase. `none` is one that throws.
-- ThreadPool: include/simple_thread_pool.h and src/simple_thread_pool.cc. A thread is its address;
--   the address that `new` gives is an argument, and a theorem that needs it says that no thread of
--   the pool has it. The sets are ascending lists, as `std::set` iterates over them.
-- MutableThread: include/mutable_thread.h and src/mutable_thread.cc. A function is a number, and
--   running it is a step that ends when it returns. `run`, `finish_run`, `execute`, `try_execute` and
--   `join` act partly outside the mutex, so MutableThread/System has a place for each point between
--   their accesses; accesses to one member are taken to happen one after the other. It has one client
--   that gives functions, and one that joins; the wait of the thread is a test that it may repeat at
--   any time.
-- SerialExecutor: include/serial_executor.h and src/serial_executor.cc, with `take_next` for the
--   critical section of `run` and `shut_down` for that of the destructor. SerialExecutor/System has the
--   callers, the executor's thread and the destructor.
--
-- Numbers. `size_t` values that index or count elements are natural numbers; the index arithmetic of
-- the queue stays below the size of its array, which the invariant shows. `ptrdiff_t`, the reference
-- counts of the shared ends and the value of a counter are signed integers without bound: their sums
-- are taken not to overflow. Counters of waiting threads have no bound either. The positions of the
-- lock-free queue are taken not to reach 2^64. The loops of the lock-free queue run on fuel, one round
-- for each unit; LockFreeQueue/Alone shows how much is enough, and when none is; every other loop runs over a list or is
-- a system of steps.
--
-- Condition variables may wake a thread without a notification, in every system of threads. Memory
-- orders are those of the mutex; atomic members are read and written in one order.
--
-- Not modelled: the duplex arrays of include/counter.h and the assignment of shared ends, which do
-- not compile; the forwarding members of the abstract queue interface, the start and end of the
-- execution of a pipeline, parallel segments of more than a function, the threads, latches and
-- printed counts of a map-reduce, the fixed array and the scoped guard, which have no model yet; the
-- programs under samples/, which are those of other projects; the archived emulation of the standard
-- library, the debug output and the tests, which hold no logic of the library; and the third-party
-- test framework. Of the classes above, the destructor of the queue only frees memory.
--
pub mod Base
pub mod Outcome
pub mod BufferQueue
pub mod Latch
pub mod Barrier
pub mod FlexBarrier
pub mod ThreadPool
pub mod MutableThread
pub mod SerialExecutor
pub mod CountdownLatch
pub mod LockFreeQueue
pub mod SharedEnds
pub mod Counter
pub mod PriorityQueue
pub mod Source
pub mod Pipeline
pub mod MapReduce
pub mod StreamMutex
