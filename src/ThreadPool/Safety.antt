-- ===== src/ThreadPool/Safety.antt =====
-- What users of a `thread_pool` can rely on, in every state that its threads can reach.
use concurrencycourse.Prelude.{
  ℕ, ◌+◌, ◌≤◌, ◌<◌, ◌≡◌, refl, sym, ap, ◌∙◌, true, List, [], ◌∷◌, ◌++◌, append-nil, arith, length,
}
use concurrencycourse.Prelude.Threads.{total, total-le, total-pos, total-zero}
use concurrencycourse.ThreadPool.System.{
  Worker, System, Step, Reach, at_loop, notifying, outside, works, notifies, moves, stops, start,
  later, count_limit,
}
use concurrencycourse.ThreadPool.Invariant.{
  Inv, busy, runs, notifies_next, pending, waits, Work-Inv,
}
use concurrencycourse.ThreadPool.Clients.{Move-Inv, notify-Inv}

pub length-zero {ℓ} : {A : Type ℓ} (xs : List A) → length xs ≡ 0 → xs ≡ []
length-zero [] e = refl
length-zero (x ∷ xs) e = absurd (omega arith)

runs-le-busy : {A : Type 0} (w : Worker A) → runs w ≤ busy w
runs-le-busy w = ground arith

module _ {A : Type 0} {n k : ℕ} where
  Step-Inv :
      {s t : System A}
      → Step n k s t
      → Inv n k s.pool s.workers s.clients
      → Inv n k t.pool t.workers t.clients
  Step-Inv (works i lt mv) inv = Work-Inv inv i lt mv
  Step-Inv (notifies i lt e free) inv = notify-Inv inv i lt e free
  Step-Inv (moves j lt mv) inv = Move-Inv inv j lt mv
  Step-Inv stops inv = record {
    bounded = inv.bounded;
    counts = inv.counts;
    fifo = inv.fifo;
    ran = inv.ran;
    holder = inv.holder;
    missed_none = inv.missed_none;
  }

  pub Reach-Inv : {s : System A} → Reach n k s → Inv n k s.pool s.workers s.clients
  Reach-Inv start = record {
    bounded = omega arith;
    counts = omega (
      arith,
      total-zero pending k (λ _. outside) (λ _. refl),
      total-zero busy n (λ _. at_loop) (λ _. refl),
    );
    fifo = refl;
    ran = omega (arith, total-zero runs n (λ _. at_loop) (λ _. refl));
    holder = λ j h. cc;
    missed_none = λ j h q. cc;
  }
  Reach-Inv (later r st) = Step-Inv st (Reach-Inv r)

  -- In every reachable state the task count is the number of tasks that are submitted and have not
  -- been counted as done: those about to be pushed, those in the queue and those that a worker has. It
  -- has not wrapped around.
  pub task_count-sum :
      {s : System A}
      → Reach n k s
      → (s.pool.task_count
          ≡ total pending k s.clients + length s.pool.work_queue + total busy n s.workers)
        × (s.pool.task_count < count_limit)
  task_count-sum r = ((Reach-Inv r).counts, (Reach-Inv r).bounded)

  -- When the predicate of `wait_all` holds, in any reachable state, no work is left: no `submit` is
  -- between its count and its push, the queue is empty, no worker has a task, and the tasks were
  -- started in the order of their pushes, each once, and have all returned.
  pub wait_all_complete :
      {s : System A}
      → Reach n k s
      → s.pool.task_count ≡ 0
      → (total pending k s.clients ≡ 0)
        × (s.pool.work_queue ≡ [])
        × (total busy n s.workers ≡ 0)
        × (s.pool.started ≡ s.pool.pushed)
        × (length s.pool.completed ≡ length s.pool.pushed)
  wait_all_complete {s} r zero_left =
      let inv = Reach-Inv r in
      let none_queued : s.pool.work_queue ≡ [] =
        length-zero s.pool.work_queue (omega (arith, inv.counts)) in
      let all_started : s.pool.started ≡ s.pool.pushed =
        sym (inv.fifo ∙ ap (◌++◌ s.pool.started) none_queued ∙ append-nil s.pool.started) in
      (
        omega (arith, inv.counts),
        none_queued,
        omega (arith, inv.counts),
        all_started,
        omega (
          arith,
          inv.ran,
          total-le runs busy runs-le-busy n s.workers,
          inv.counts,
          ap length all_started,
        ),
      )

  -- `wait_all` misses no completion: in every reachable state in which a client sleeps in `wait_all`,
  -- or is about to, and no task is left, some worker is about to call `notify_all`.
  pub no_missed_completion :
      {s : System A} (j : ℕ)
      → Reach n k s
      → waits (s.clients j) ≡ true
      → s.pool.task_count ≡ 0
      → (i : ℕ) × (i < n) × (s.workers i ≡ notifying)
  no_missed_completion {s} j r asleep zero_left =
      let (i, lt, adds) =
        total-pos notifies_next n s.workers ((Reach-Inv r).missed_none j asleep zero_left) in
      (i, lt, ground arith)
