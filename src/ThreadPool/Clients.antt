-- ===== src/ThreadPool/Clients.antt =====
-- The steps of clients, and `notify_all`, keep the invariant of the pool.
use concurrencycourse.Prelude.{
  ℕ, ◌+◌, ◌<◌, ◌≡◌, refl, true, none, some, [], ◌∷◌, ◌++◌, append_assoc, arith, ==_iff, length,
  length-append, update,
}
use concurrencycourse.Prelude.Threads.{total, total-map, total-update}
use concurrencycourse.SimpleQueue.{push}
use concurrencycourse.ThreadPool.System.{
  Worker, Client, Pool, Move, count_limit, fetch_add, at_loop, notifying, submit, push as pushes,
  wait_all, lock, relock, incomplete, wake,
}
use concurrencycourse.ThreadPool.Invariant.{Inv, busy, runs, notifies_next, pending, waits, holds}

module _ {A : Type 0} {n k : ℕ} {p : Pool A} {workers : ℕ → Worker A} {clients : ℕ → Client A}
    (inv : Inv n k p workers clients) where
  open inv use {bounded, counts, fifo, ran, holder, missed_none}

  module _ (j : ℕ) where
    Move-counts :
        {c c' : Client A} {p' : Pool A}
        → Move j p c p' c'
        → total pending k (update clients j c') + pending c ≡ total pending k clients + pending c'
        → (p'.task_count < count_limit)
          × (p'.task_count
              ≡ total pending k (update clients j c') + length p'.work_queue + total busy n workers)
    unfolding fetch_add push
    Move-counts (pushes {task}) f =
        ground (arith, bounded, counts, length-append p.work_queue (task ∷ []))
    Move-counts (submit task small) f = omega (arith, counts)
    Move-counts mv f = ground (arith, bounded, counts)

    Move-fifo :
        {c c' : Client A} {p' : Pool A} → Move j p c p' c' → p'.pushed ≡ p'.started ++ p'.work_queue
    unfolding push
    Move-fifo (pushes {task}) = rw fifo (append_assoc p.started p.work_queue (task ∷ []))
    Move-fifo mv = fifo

    Move-ran :
        {c c' : Client A} {p' : Pool A}
        → Move j p c p' c'
        → length p'.started ≡ length p'.completed + total runs n workers
    Move-ran wait_all = ran
    Move-ran mv = ran

    Move-holder :
        {c c' : Client A} {p' : Pool A}
        → Move j p c p' c'
        → clients j ≡ c
        → (i : ℕ) → holds (update clients j c' i) ≡ true
        → p'.owner ≡ some i
    Move-holder (lock free) e i h = ground (arith, free, holder i, ==_iff j i)
    Move-holder (relock free) e i h = ground (arith, free, holder i, ==_iff j i)
    Move-holder mv e i h = ground (arith, holder i, holder j)

    Move-missed_none :
        {c c' : Client A} {p' : Pool A}
        → Move j p c p' c'
        → clients j ≡ c
        → (i : ℕ) → waits (update clients j c' i) ≡ true
        → p'.task_count ≡ 0
        → 0 < total notifies_next n workers
    unfolding fetch_add
    Move-missed_none (submit task small) e i h q = absurd (omega arith)
    Move-missed_none (incomplete some_left) e i h q = absurd (some_left q)
    Move-missed_none mv e i h q = ground (arith, missed_none i, missed_none j)

    pub Move-Inv :
        {c' : Client A} {p' : Pool A}
        → j < k
        → Move j p (clients j) p' c'
        → Inv n k p' workers (update clients j c')
    Move-Inv {c'} lt mv =
        let both = Move-counts mv (total-update pending k clients j c' lt) in
        record {
          bounded = both.0;
          counts = both.1;
          fifo = Move-fifo mv;
          ran = Move-ran mv;
          holder = Move-holder mv refl;
          missed_none = Move-missed_none mv refl;
        }

  pending-wake : (c : Client A) → pending (wake c) ≡ pending c
  pending-wake c = ground arith

  -- `notify_all` needs the mutex, so it finds no client between its test and its sleep.
  pub notify-Inv :
      (i : ℕ)
      → i < n
      → workers i ≡ notifying
      → p.owner ≡ none
      → Inv n k p (update workers i at_loop) (λ j. wake (clients j))
  notify-Inv i lt e free = record {
    bounded = bounded;
    counts = ground (
      arith,
      counts,
      total-map pending k clients wake pending-wake,
      total-update busy n workers i at_loop lt,
      e,
    );
    fifo = fifo;
    ran = ground (arith, ran, total-update runs n workers i at_loop lt, e);
    holder = λ j h. ground (arith, free, holder j);
    missed_none = λ j h q. ground (arith, free, holder j);
  }
