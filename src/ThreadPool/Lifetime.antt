-- ===== src/ThreadPool/Lifetime.antt =====
-- The end of a `thread_pool`: the destructor sets `done`, and then the members are destroyed in the
-- reverse order of their declarations. The threads are joined when the fourth member goes.
use concurrencycourse.Prelude.{
  ℕ, ◌+◌, ◌≤◌, ◌<◌, ◌≡◌, refl, sym, subst, true, [], ◌∷◌, ◌++◌, arith, update,
}
use concurrencycourse.ThreadPool.System.{
  Pool, System, Step, running, finished, notifying, exited, works, stops, run, Work,
}

-- `destroyed` counts the members that are gone: m_tasksCompleteMutex, m_tasksComplete, m_taskCount,
-- threads, work_queue, done.
pub record Program (A : Type 0) : Type 0 where
  pub system : System A
  pub destroyed : ℕ

module _ {A : Type 0} where
  pub data Life (n k : ℕ) (s : Program A) : Program A → Type 0 where
    steps : {t : System A} → Step n k s.system t → Life n k s (record s { system = t })
    destroys :
        s.system.pool.done ≡ true
        → s.destroyed < 3
        → Life n k s (record s { destroyed = s.destroyed + 1 })
    joins :
        s.destroyed ≡ 3
        → ((i : ℕ) → i < n → s.system.workers i ≡ exited)
        → Life n k s (record s { destroyed = 4 })
    destroys_rest :
        4 ≤ s.destroyed → s.destroyed < 6 → Life n k s (record s { destroyed = s.destroyed + 1 })

  pub data Lives (n k : ℕ) (s : Program A) : Program A → Type 0 where
    here : Lives n k s s
    next : {t u : Program A} → Lives n k s t → Life n k t u → Lives n k s u

  -- The worker's next step uses a member that is gone.
  pub data UsesDestroyed (s : Program A) (i : ℕ) : Type 0 where
    counts : s.system.workers i ≡ finished → 3 ≤ s.destroyed → UsesDestroyed s i
    locks : s.system.workers i ≡ notifying → 1 ≤ s.destroyed → UsesDestroyed s i

  abbrev pub whole : System A → Program A
  whole s = record { system = s; destroyed = 0 }

  abbrev stopped : System A → System A
  stopped s = record s { pool = record (s.pool) { done = true } }

  -- Whenever the destructor begins while a worker has a task, whatever else the pool is doing, it can
  -- run ahead of that worker: the mutex, the condition variable and the count are destroyed before
  -- the threads are joined, and the worker then counts its task down in a count that is gone.
  pub destructor-UsesDestroyed :
      {n k : ℕ} {s : System A} (i : ℕ) {task : A}
      → i < n
      → s.workers i ≡ running task
      → (t : Program A) × Lives n k (whole s) t × UsesDestroyed t i
  destructor-UsesDestroyed {n} {k} {s} i {task} lt at_i = (
    record { system = after_run; destroyed = 3 },
    next
        (next
          (next (next (next here (steps stops)) (destroys refl (omega arith)))
            (destroys refl (omega arith)))
          (destroys refl (omega arith)))
        (steps (works i lt task_returns)),
    counts (ground arith) (omega arith),
  )
    where
      pool' : Pool A
      pool' = record (s.pool) { done = true; completed = s.pool.completed ++ task ∷ [] }

      after_run : System A
      after_run = record s { pool = pool'; workers = update s.workers i finished }

      task_returns : Work ((stopped s).pool) (s.workers i) pool' finished
      task_returns = subst (λ w. Work ((stopped s).pool) w pool' finished) (sym at_i) run
