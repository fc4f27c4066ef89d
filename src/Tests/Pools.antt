-- ===== src/Tests/Pools.antt =====
-- A run of src/ThreadPool.h: one worker, a client that submits a task, and one that waits.
use concurrencycourse.Prelude.{ℕ, ◌<◌, ◌≡◌, refl, [], arith, length}
use concurrencycourse.Prelude.Threads.{total}
use concurrencycourse.SimpleQueue
use concurrencycourse.ThreadPool.System.{
  System, Reach, fetch_add, fetch_sub, notifying, outside, start, later, works, moves, go_on, pop,
  run, last, submit, push, wait_all, lock, incomplete, sleep,
}
use concurrencycourse.ThreadPool.Invariant.{busy, pending}
use concurrencycourse.ThreadPool.Safety.{wait_all_complete, no_missed_completion}
use concurrencycourse.ThreadPool.Ends.{Run, can_finish}
use concurrencycourse.ThreadPool.Lifetime.{
  Program, Lives, UsesDestroyed, whole, destructor-UsesDestroyed,
}

first : 0 < 1
first = omega arith

submitter : 0 < 2
submitter = omega arith

waiter : 1 < 2
waiter = omega arith

-- Task 7 is submitted, client 1 sleeps in `wait_all`, and the worker has the task.
abbrev working : (s : System ℕ) × Reach 1 2 s
unfolding SimpleQueue.try_pop SimpleQueue.push fetch_add
working = (
  _,
  later
      (later
        (later
          (later
            (later
              (later
                (later (later start (moves 0 submitter (submit 7 (omega arith))))
                  (moves 0 submitter push))
                (moves 1 waiter wait_all))
              (moves 1 waiter (lock refl)))
            (moves 1 waiter (incomplete (omega arith))))
          (moves 1 waiter sleep))
        (works 0 first (go_on refl)))
      (works 0 first (pop 0 refl)),
)

-- The task has returned, and the worker has counted it.
abbrev counted : (s : System ℕ) × Reach 1 2 s
unfolding working fetch_sub
counted = (_, later (later working.1 (works 0 first run)) (works 0 first (last refl)))

wait_all_complete_example :
    (total pending 2 counted.0.clients ≡ 0)
    × (counted.0.pool.work_queue ≡ [])
    × (total busy 1 counted.0.workers ≡ 0)
    × (counted.0.pool.started ≡ counted.0.pool.pushed)
    × (length counted.0.pool.completed ≡ length counted.0.pool.pushed)
unfolding counted
wait_all_complete_example = wait_all_complete counted.1 refl

no_missed_completion_example : (i : ℕ) × (i < 1) × (counted.0.workers i ≡ notifying)
unfolding counted
no_missed_completion_example = no_missed_completion 1 counted.1 refl refl

destructor-UsesDestroyed_example :
    (t : Program ℕ) × Lives 1 2 (whole working.0) t × UsesDestroyed t 0
unfolding working
destructor-UsesDestroyed_example = destructor-UsesDestroyed 0 {task = 7} first refl

can_finish_example :
    (t : System ℕ) × Run 1 2 working.0 t
    × (t.pool.task_count ≡ 0)
    × (length t.pool.completed ≡ length t.pool.pushed)
    × ((j : ℕ) → j < 2 → t.clients j ≡ outside)
unfolding working
can_finish_example = can_finish working.1 first refl
