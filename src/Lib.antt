-- ===== src/Lib.antt =====
-- A verification of the concurrency course's programs: the locks, queues and maps in src/, and
-- the exercises that use them; paths are from the repository's root. The copy of Google Benchmark
-- under benchmark/ is another project's library and is not modelled; the programs' calls of it
-- are parameters or left out.
--
--   HierarchicalMutex: src/hierarchical_mutex.h and src/hierarchical_mutex.cpp. A `World` holds
--     each mutex with its owner and each thread's `this_thread_hierarchy_value`; `lock`,
--     `try_lock` and `unlock` follow the methods, with the `unsigned` field written as a
--     remainder modulo 2 ^ 32. `System` interleaves threads that lock in nested scopes,
--     `Invariant` and `Steps` keep the invariant, `Safety` and `Restore` draw the conclusions. An
--     abort (which also logs a line) ends the process.
--   SimpleQueue: src/SimpleThreadSafeQueue.h. The bodies of `push`, `wait_and_pop` and `try_pop`
--     are functions on the list of items; `Threads` gives the mutex and the condition variable
--     explicitly, with spurious wakeups, and each thread a program counter. The test of the
--     predicate and the going to sleep are one step, as are `front` and `pop_front`: all other
--     code that touches them holds `m_mutex`, which the wait gives back as it goes to sleep.
--   OptimizedQueue: src/OptimizedThreadSafeQueue.h. The linked list with its dummy node lies in
--     an explicit heap; reading through a null or dangling pointer, and a stack deeper than a
--     given bound, are faults. `Memory` has the commands, `Methods` and `Destructor` the methods,
--     `Chain` what a list stands for, `Push`, `Pop` and `Destruct` the theorems. Each method is
--     the code between its locks; `Threads` has `head_mutex` and `data_cond` explicit, with
--     spurious wakeups, and interleaves the calls, each body under `tail_mutex` as one step.
--     `Invariant`, `Steps` and `Reached` keep its invariant, `Safety`, `Progress` and
--     `LostWakeup` draw the conclusions. `Fine` has `tail_mutex` explicit, and `push` write by
--     write; its `Near`, `Pushing`, `Calls`, `Seen` and `Refines` take it to `Threads`, `Races`
--     has which thread is at which node, and `Writes` and `Progress` which can go on.
--     `try_pop(T&)`, `wait_and_pop(T&)` and `empty()` do not compile when they are used and are
--     left out; of the first two, `try_pop_head(T&)` and `wait_pop_head(T&)` are modelled.
--   ConcurrentMap: src/concurrent_map.h, with the programs src/4_concurrent_map.cpp (`Programs`)
--     and src/5_concurrent_map_2.cpp (`Bench`). `std::map` is the list of its pairs in the order
--     of the keys, over any strict total order; the mutex is a flag, and a call by the thread
--     that has it never returns. The text of the numbers that `rand` gives is a parameter, and so
--     is `stoi`. `Threads` runs any programs of any number of threads on one map, as the class
--     optimized_concurrent_map of src/5_concurrent_map_2.cpp does, which has the same text; its
--     handlers do not call the map. A body is two steps, of which the second writes what the
--     first has read, so that only the mutex keeps other threads out between them. `Calls` has
--     what the calls do to a function of the keys, `Linear` says what such threads see, `Turns`
--     that one of them can go on, and `Readers` has the threads of the benchmark.
--   QueueBench: src/8_thread_safe_queue.cpp. `Queue` is what the template `bench_body` reads of
--     its queue and of the threads that use it, `Step` a step of a round, in which two threads
--     loop over `push` and `wait_and_pop`. `Simple` and `Optimized` are the two instances;
--     `SimpleInvariant`, `SimpleMoves`, `SimpleEnds` and `SimpleBound` have the theorems on the
--     first.
--   ThreadPool: src/ThreadPool.h. A `Pool` holds the members, and a history of the tasks; `Work`
--     is a step of a worker in `worker_thread`, `Move` one of a client in `submit` or `wait_all`,
--     with the atomics, the mutex and the condition variable explicit. The atomics are taken as
--     sequentially consistent, one order for all threads; lines 27 and 66 of the code ask for
--     std::memory_order_relaxed only, under which a thread may see other variables late, and that
--     is not modelled. `Invariant`, `Clients` and `Held` keep the invariants, `Safety`,
--     `Completion` and `Ends` draw the conclusions; `Lifetime` adds the destructor and the order
--     in which the members go. The count of tasks wraps around modulo 2 ^ 32, and clients keep
--     fewer tasks than that in flight. A task that throws ends the process and is not modelled.
--   Philosophers: src/6_deadlock_detection.cpp. `Step` interleaves the locks and cancellations of
--     any number of philosophers, each at the seat of the own number; `Forks` and `Held` keep who
--     has which fork, `Deadlock` and `Progress` draw the conclusions. `Dinner` is the program as
--     a whole, on any number of philosophers of which `main` has three: the table as a list of
--     mutexes, each call of `Log`, each sleep with its time, the start of the threads, and the
--     destructors with their joins. `View` takes it to the table of `Step`, and `Lines` has what
--     each philosopher logs; `Attended`, `Refines`, `Ends`, `Rounds`, `Hangs` and `Progress` have
--     the theorems. The log has the calls in their order, as if each wrote its line at once; that
--     the text of two lines can mix is in `Programs`.
--   Sort: src/9_thread_pool.cpp. Both sorts over a container as a function of the index;
--     `std::nth_element` is a parameter, of which `IsNthElement` says what the standard does.
--     `Threads` has the calls of `multithreaded_sort` and the threads they start, in any
--     interleaving; `Permutes`, `Single`, `Multi`, `Races`, `Unique` and `Checked` have the
--     theorems. The benchmark's timing is left out.
--   JoinableThread: src/JoinableThread.h. A `World` has the thread of each `std::thread` object,
--     which objects are alive, which threads have been joined, and the thread that runs the next
--     operation; `Programs` runs any sequence of constructions, moves, assignments, joins and
--     destructions, and `Ownership` shows where each thread goes. That a joined thread ends is
--     assumed.
--   Reporter: src/x_start.cpp. `Names` has the cleaning of a benchmark's name, on lists of bytes,
--     and `Suite` the suite and its operations; `printed` keeps the suites that `PrintSuiteInfo`
--     has written. `Table` has the text that it writes, and `Main` the constructor, the
--     destructor and `main`; `Collected` has the same benchmarks in one list. `Cleaned`,
--     `Measures`, `Reports`, `Widths`, `TableLaws`, `Alike` and `Printed` have the theorems. The
--     row index is an `unsigned` in the code; a benchmark has fewer measures than would wrap it
--     around. `BigO`, `oNone`, `GetBigOString`, the fields of `Run`, the result of
--     `ReportUnrecognizedArguments` and the calls of `ReportRuns` are the benchmark library's and
--     are parameters, as is the text of a ratio of times; `front` and `back` of an empty
--     container give none.
--   Logger: src/Logger.h. `log` is a sequence of calls of `Log` with what the clock shows at
--     each, the logger's start time passed on as a state that the first call makes; the text of
--     an uptime is that of `snprintf`, with its conversions to `int` as remainders modulo 2 ^ 32.
--     `Digits` and `RoundTrip` have the theorems. The clock is steady, so an uptime is a natural
--     number.
--   Programs: `Uncaught` is src/1_thread.cpp, in which the constructor of the thread may fail;
--     `Discarded` is src/2_async.cpp, with the time and the tasks explicit; `Output` has
--     src/3_mutex.cpp and src/7_condition_variable.cpp, the loops of whose threads write to one
--     stream, a character at a time and in any order; `Writing`, `Shuffle` and `Torn` say what
--     comes of it.
--   Prelude: the names that the others share, functions as memories, texts as lists of bytes, and
--     sums over threads. Tests: runs at concrete inputs.
--
-- Fuel bounds the rounds of the loop in the queue's destructor (one more than its nodes
-- suffices), the depth of the recursion in `single_threaded_sort` (one more than the length of
-- the range suffices), the loops over a name (one more than its length suffices) and the
-- handler's calls of itself in src/4_concurrent_map.cpp (any number, since the first never
-- returns). Numbers of nodes and items are not bounded, as a count of allocated objects cannot
-- overflow. Exceptions out of a container's allocation or a mutex are not modelled.
--
-- Not modelled: what the programs log and how long they sleep, except in src/Logger.h,
-- src/2_async.cpp and src/6_deadlock_detection.cpp; the registration of the benchmarks; the parts
-- of src/OptimizedThreadSafeQueue.h that do not compile.
pub mod Prelude
pub mod HierarchicalMutex
pub mod SimpleQueue
pub mod OptimizedQueue
pub mod ConcurrentMap
pub mod ThreadPool
pub mod Philosophers
pub mod QueueBench
pub mod Logger
pub mod Programs
pub mod Sort
pub mod JoinableThread
pub mod Reporter
mod Tests
