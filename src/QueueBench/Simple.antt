-- ===== src/QueueBench/Simple.antt =====
-- The benchmark with `SimpleThreadSafeQueue<int>`.
use concurrencycourse.Prelude.{update}
use concurrencycourse.SimpleQueue.Threads
use concurrencycourse.SimpleQueue.Threads.{System, Pc, calling, pushes, waits_and_pops}
use concurrencycourse.QueueBench.{Queue}

-- `SimpleThreadSafeQueue<int>` and the two threads that use it
abbrev pub simple : {A : Type 0} → Queue A
simple {A} = record {
  State = System A;
  Place = Pc A;
  place = λ s. s.pc;
  at_place = λ s i p. record s { pc = update s.pc i p };
  Moves = Threads.Step 2;
  fresh = Threads.init;
  outside = Threads.outside;
  sleeping = Threads.sleeping;
  pushing = λ v. calling (pushes v);
  popping = calling waits_and_pops;
}
