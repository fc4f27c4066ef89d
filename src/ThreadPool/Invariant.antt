-- ===== src/ThreadPool/Invariant.antt =====
-- What holds in every state of the pool: the count is that of the tasks that are not finished, and no
-- client waits for a completion that has been missed.
use concurrencycourse.Prelude.{
  ℕ, ◌+◌, ◌≤◌, ◌<◌, ◌≡◌, refl, sym, ap, ◌∙◌, Bool, true, false, some, [], ◌∷◌, ◌++◌, append_assoc,
  arith, length, length-append, update,
}
use concurrencycourse.Prelude.Threads.{total, total-update, le-total}
use concurrencycourse.SimpleQueue.{try_pop-true, try_pop-false}
use concurrencycourse.ThreadPool.System.{
  Worker, Client, Pool, Work, count_limit, fetch_sub, running, finished, notifying, counted,
  checking, blocking, sleeping, go_on, pop, yield, run, last, not_last,
}

module _ {A : Type 0} where
  abbrev pub busy : Worker A → ℕ
  busy (running _) = 1
  busy finished = 1
  busy _ = 0

  abbrev pub runs : Worker A → ℕ
  runs (running _) = 1
  runs _ = 0

  abbrev pub notifies_next : Worker A → ℕ
  notifies_next notifying = 1
  notifies_next _ = 0

  abbrev pub pending : Client A → ℕ
  pending (counted _) = 1
  pending _ = 0

  -- A client that sleeps, or is about to.
  abbrev pub waits : Client A → Bool
  waits blocking = true
  waits sleeping = true
  waits _ = false

  abbrev pub holds : Client A → Bool
  holds checking = true
  holds blocking = true
  holds _ = false

  pub record Inv (n k : ℕ) (p : Pool A) (workers : ℕ → Worker A) (clients : ℕ → Client A)
      : Type 0 where
    pub bounded : p.task_count < count_limit
    pub counts : p.task_count ≡ total pending k clients + length p.work_queue + total busy n workers
    pub fifo : p.pushed ≡ p.started ++ p.work_queue
    pub ran : length p.started ≡ length p.completed + total runs n workers
    pub holder : (j : ℕ) → holds (clients j) ≡ true → p.owner ≡ some j
    pub missed_none :
        (j : ℕ) → waits (clients j) ≡ true → p.task_count ≡ 0 → 0 < total notifies_next n workers

  module _ {n k : ℕ} {p : Pool A} {workers : ℕ → Worker A} {clients : ℕ → Client A}
      (inv : Inv n k p workers clients) where
    open inv use {bounded, counts, fifo, ran, holder, missed_none}

    module _ (i : ℕ) where
      -- Worker `i` goes from `w` to `w'`. A match on `Work` needs the variable `w` for `workers i`.
      record Mover (w w' : Worker A) : Type 0 where
        here : workers i ≡ w
        busy_count : total busy n (update workers i w') + busy w ≡ total busy n workers + busy w'
        runs_count : total runs n (update workers i w') + runs w ≡ total runs n workers + runs w'
        notify_count :
            total notifies_next n (update workers i w') + notifies_next w
            ≡ total notifies_next n workers + notifies_next w'
        own : busy w ≤ total busy n workers

      mover : i < n → (w' : Worker A) → Mover (workers i) w'
      mover lt w' = record {
        here = refl;
        busy_count = total-update busy n workers i w' lt;
        runs_count = total-update runs n workers i w' lt;
        notify_count = total-update notifies_next n workers i w' lt;
        own = le-total busy n workers i lt;
      }

      Work-counts :
          {w w' : Worker A} {p' : Pool A}
          → Work p w p' w'
          → Mover w w'
          → (p'.task_count < count_limit)
            × (p'.task_count
                ≡ total pending k clients
                  + length p'.work_queue
                  + total busy n (update workers i w'))
      unfolding fetch_sub
      Work-counts (pop val e) f = ground (arith, bounded, counts, try_pop-true val p.work_queue e)
      Work-counts (yield val e) f =
          ground (arith, bounded, counts, try_pop-false val p.work_queue e)
      Work-counts mv f = ground (arith, bounded, counts)

      Work-fifo :
          {w w' : Worker A} {p' : Pool A} → Work p w p' w' → p'.pushed ≡ p'.started ++ p'.work_queue
      Work-fifo (pop val {task} {rest} e) =
          fifo
          ∙ ap (◌++◌ p.started) (try_pop-true val p.work_queue e)
          ∙ sym (append_assoc p.started (task ∷ []) rest)
      Work-fifo (yield val e) = ground (arith, fifo, try_pop-false val p.work_queue e)
      Work-fifo mv = fifo

      Work-ran :
          {w w' : Worker A} {p' : Pool A}
          → Work p w p' w'
          → Mover w w'
          → length p'.started ≡ length p'.completed + total runs n (update workers i w')
      Work-ran (pop val {task} e) f = omega (arith, ran, length-append p.started (task ∷ []))
      Work-ran (run {task}) f = omega (arith, ran, length-append p.completed (task ∷ []))
      Work-ran mv f = omega (arith, ran)

      Work-missed_none :
          {w w' : Worker A} {p' : Pool A}
          → Work p w p' w'
          → Mover w w'
          → (j : ℕ) → waits (clients j) ≡ true
          → p'.task_count ≡ 0
          → 0 < total notifies_next n (update workers i w')
      unfolding fetch_sub
      Work-missed_none (last e) f j h q = omega arith
      Work-missed_none (not_last e) f j h q = absurd (omega (arith, bounded, counts))
      Work-missed_none mv f j h q = omega (arith, missed_none j h q)

      Work-holder :
          {w w' : Worker A} {p' : Pool A}
          → Work p w p' w'
          → (j : ℕ) → holds (clients j) ≡ true
          → p'.owner ≡ some j
      Work-holder (go_on e) j h = holder j h
      Work-holder mv j h = holder j h

      pub Work-Inv :
          {w' : Worker A} {p' : Pool A}
          → i < n
          → Work p (workers i) p' w'
          → Inv n k p' (update workers i w') clients
      Work-Inv {w'} lt mv =
          let f = mover lt w' in
          let both = Work-counts mv f in
          record {
            bounded = both.0;
            counts = both.1;
            fifo = Work-fifo mv;
            ran = Work-ran mv f;
            holder = Work-holder mv;
            missed_none = Work-missed_none mv f;
          }
