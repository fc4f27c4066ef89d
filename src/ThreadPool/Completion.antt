-- ===== src/ThreadPool/Completion.antt =====
-- A pool with a worker can always finish its tasks: each state has a step towards that.
use concurrencycourse.Prelude.{
  ℕ, ◌+◌, ◌*◌, ◌<◌, ◌≡◌, refl, sym, ap, subst, ◌≢◌, ◌⊎◌, inl, inr, true, false, List, [], ◌∷◌,
  arith, dec_lt, ℕ_discrete, Option-cases, length, length-append, update, has,
}
use concurrencycourse.Prelude.Threads.{total, total-update, total-map, total-pos}
use concurrencycourse.SimpleQueue
use concurrencycourse.SimpleQueue.{try_pop}
use concurrencycourse.ThreadPool.System.{
  Worker, Client, Pool, Work, Move, System, Step, Reach, at_loop, polling, running, finished,
  notifying, exited, counted, checking, blocking, go_on, pop, run, last, not_last, push, incomplete,
  sleep, wake, works, notifies, moves,
}
use concurrencycourse.ThreadPool.Invariant.{holds, busy, pending}
use concurrencycourse.ThreadPool.Safety.{Reach-Inv}
use concurrencycourse.ThreadPool.Held.{Staffed, Reach-Staffed}

module _ {A : Type 0} where
  -- How far a thread is from having done its part.
  abbrev pub worker_weight : Worker A → ℕ
  worker_weight (running _) = 20
  worker_weight finished = 10
  worker_weight notifying = 2
  worker_weight at_loop = 1
  worker_weight _ = 0

  abbrev pub client_weight : Client A → ℕ
  client_weight (counted _) = 40
  client_weight checking = 2
  client_weight blocking = 1
  client_weight _ = 0

  abbrev pub weight : ℕ → ℕ → System A → ℕ
  weight n k s =
      total client_weight k s.clients
      + 30 * length s.pool.work_queue
      + total worker_weight n s.workers

  client_weight-wake : (c : Client A) → client_weight (wake c) ≡ client_weight c
  client_weight-wake c = ground arith

  queue_cases : (queue : List A) → (queue ≡ []) ⊎ ((x : A) × (rest : List A) × (queue ≡ x ∷ rest))
  queue_cases [] = inl refl
  queue_cases (x ∷ rest) = inr (x, rest, refl)

  taken : (x : A) (rest : List A) → try_pop x (x ∷ rest) ≡ (true, x, rest)
  unfolding try_pop
  taken x rest = refl

  -- A step that brings the pool nearer to having done all, and does not destroy it.
  pub record Nearer (n k : ℕ) (s : System A) : Type 0 where
    pub after : System A
    pub step : Step n k s after
    pub lighter : weight n k after < weight n k s
    pub lasts : after.pool.done ≡ s.pool.done

  module _ {n k : ℕ} {s : System A} where
    by_worker :
        (i : ℕ) {p : Pool A} {w w' : Worker A}
        → i < n
        → s.workers i ≡ w
        → Work s.pool w p w'
        → 30 * length p.work_queue + worker_weight w'
          < 30 * length s.pool.work_queue + worker_weight w
        → p.done ≡ s.pool.done
        → Nearer n k s
    by_worker i {p} {w} {w'} lt at mv less lasts = record {
      after = record s { pool = p; workers = update s.workers i w' };
      step = works i lt (subst (λ v. Work s.pool v p w') (sym at) mv);
      lighter =
          omega (arith, less, total-update worker_weight n s.workers i w' lt, ap worker_weight at);
      lasts = lasts;
    }

    by_client :
        (j : ℕ) {p : Pool A} {c c' : Client A}
        → j < k
        → s.clients j ≡ c
        → Move j s.pool c p c'
        → 30 * length p.work_queue + client_weight c'
          < 30 * length s.pool.work_queue + client_weight c
        → p.done ≡ s.pool.done
        → Nearer n k s
    by_client j {p} {c} {c'} lt at mv less lasts = record {
      after = record s { pool = p; clients = update s.clients j c' };
      step = moves j lt (subst (λ v. Move j s.pool v p c') (sym at) mv);
      lighter =
          omega (arith, less, total-update client_weight k s.clients j c' lt, ap client_weight at);
      lasts = lasts;
    }

    -- The last worker with a task needs the mutex, which its owner can give back.
    notifier :
        (i : ℕ)
        → Staffed k s
        → i < n
        → s.workers i ≡ notifying
        → s.pool.task_count ≢ 0
        → Nearer n k s
    notifier i staff lt at some_left = elim (Option-cases s.pool.owner) [
      | inl free ↦ record {
        after = record s {
          workers = update s.workers i at_loop;
          clients = λ j. wake (s.clients j);
        };
        step = notifies i lt at free;
        lighter = omega (
          arith,
          total-update worker_weight n s.workers i at_loop lt,
          ap worker_weight at,
          total-map client_weight k s.clients wake client_weight-wake,
        );
        lasts = refl;
      }
      | inr (j, taken) ↦
          let (lt', has) = staff.held j taken in owner_moves j lt' (s.clients j) refl has
    ]
      where
        owner_moves :
            (j : ℕ) → j < k → (c : Client A) → s.clients j ≡ c → holds c ≡ true → Nearer n k s
        owner_moves j lt' checking at' h =
            by_client j lt' at' (incomplete some_left) (omega arith) refl
        owner_moves j lt' blocking at' h = by_client j lt' at' sleep (omega arith) refl
        owner_moves j lt' c at' h = cc h

    finisher : (i : ℕ) → i < n → s.workers i ≡ finished → Nearer n k s
    finisher i lt at = elim (ℕ_discrete s.pool.task_count 1) [
      | yes one ↦ by_worker i lt at (last one) (omega arith) refl
      | no more ↦ by_worker i lt at (not_last more) (omega arith) refl
    ]

    -- A worker that has no task, where one is in the queue.
    free_worker :
        (i : ℕ) {task : A} {rest : List A}
        → Staffed k s
        → s.pool.done ≡ false
        → s.pool.task_count ≢ 0
        → s.pool.work_queue ≡ task ∷ rest
        → i < n
        → (w : Worker A) → s.workers i ≡ w
        → Nearer n k s
    free_worker i staff open_yet some_left queued lt at_loop at =
        by_worker i lt at (go_on open_yet) (omega arith) refl
    free_worker i {task} {rest} staff open_yet some_left queued lt polling at =
        by_worker i lt at (pop task (popped queued)) (omega (arith, ap length queued)) refl
      where
        popped :
            s.pool.work_queue ≡ task ∷ rest → try_pop task s.pool.work_queue ≡ (true, task, rest)
        popped e = rw e (taken task rest)
    free_worker i staff open_yet some_left queued lt (running task) at =
        by_worker i lt at run (omega arith) refl
    free_worker i staff open_yet some_left queued lt finished at = finisher i lt at
    free_worker i staff open_yet some_left queued lt notifying at = notifier i staff lt at some_left
    free_worker i staff open_yet some_left queued lt exited at = absurd (staff.alive open_yet i at)

    pusher : (j : ℕ) → j < k → (c : Client A) → s.clients j ≡ c → 0 < pending c → Nearer n k s
    unfolding SimpleQueue.push
    pusher j lt (counted task) at h =
        by_client j lt at push (omega (arith, length-append s.pool.work_queue (task ∷ []))) refl
    pusher j lt c at h = absurd (omega (arith, h))

    busy_worker : (i : ℕ) → i < n → (w : Worker A) → s.workers i ≡ w → 0 < busy w → Nearer n k s
    busy_worker i lt (running task) at h = by_worker i lt at run (omega arith) refl
    busy_worker i lt finished at h = finisher i lt at
    busy_worker i lt w at h = absurd (omega (arith, h))

    -- Where a task is left, some step brings the pool nearer to the end.
    pub nearer : Reach n k s → 0 < n → s.pool.done ≡ false → s.pool.task_count ≢ 0 → Nearer n k s
    nearer r pos open_yet some_left = elim (queue_cases s.pool.work_queue) [
      | inr (task, rest, queued) ↦
          free_worker 0 (Reach-Staffed r) open_yet some_left queued pos (s.workers 0) refl
      | inl empty ↦ elim (dec_lt 0 (total pending k s.clients)) [
        | yes adds ↦
            let (j, lt, h) = total-pos pending k s.clients adds in pusher j lt (s.clients j) refl h
        | no none_pending ↦
            let (i, lt, h) =
              total-pos busy n s.workers
                (omega (arith, (Reach-Inv r).counts, some_left, none_pending, ap length empty)) in
            busy_worker i lt (s.workers i) refl h
      ]
    ]
