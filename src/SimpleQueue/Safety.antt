-- ===== src/SimpleQueue/Safety.antt =====
-- What users of a `SimpleThreadSafeQueue` can rely on, in every state that threads can reach.
use concurrencycourse.Prelude.{
  ℕ, ◌≤◌, ◌<◌, ◌≡◌, refl, ◌≢◌, true, [], ◌++◌, arith, ==_iff, length, update,
}
use concurrencycourse.Prelude.Threads.{total, total-update, total-pos}
use concurrencycourse.SimpleQueue.Threads.{
  Pc, Shared, System, Step, Reach, notifying, sleeping, woken, leaving, moves, notifies,
  notifies_nobody, start, later,
}
use concurrencycourse.SimpleQueue.Invariant.{Inv, holds, awake, Move-Inv}

module _ {A : Type 0} {n : ℕ} where
  -- Waking a sleeper hands the notifier's claim over to it.
  notify-Inv :
      {m : Shared A} {pc : ℕ → Pc A}
      → Inv n m pc
      → (i j : ℕ) → i < n
      → j < n
      → pc i ≡ notifying
      → pc j ≡ sleeping
      → Inv n m (update (update pc i leaving) j woken)
  notify-Inv {m} {pc} inv i j lt lt' at_i at_j = record {
    holder = λ k h. ground (arith, at_i, at_j, inv.holder k, inv.holder i);
    held = λ k h. ground (arith, at_i, at_j, inv.held k, ==_iff j k);
    fifo = inv.fifo;
    served = λ k below h. ground (
      arith,
      at_i,
      at_j,
      inv.served k below,
      total-update awake n pc i leaving lt,
      total-update awake n (update pc i leaving) j woken lt',
    );
  }

  notify_nobody-Inv :
      {m : Shared A} {pc : ℕ → Pc A}
      → Inv n m pc
      → (i : ℕ) → i < n
      → pc i ≡ notifying
      → ((j : ℕ) → j < n → pc j ≢ sleeping)
      → Inv n m (update pc i leaving)
  notify_nobody-Inv {m} {pc} inv i lt at_i nobody = record {
    holder = λ k h. ground (arith, at_i, inv.holder k, inv.holder i);
    held = λ k h. ground (arith, at_i, inv.held k);
    fifo = inv.fifo;
    served = λ k below h. absurd (nobody k below (ground (arith, at_i)));
  }

  pub Step-Inv : {s t : System A} → Step n s t → Inv n s.shared s.pc → Inv n t.shared t.pc
  Step-Inv (moves i lt mv) inv = Move-Inv inv i lt mv
  Step-Inv (notifies i j lt lt' at_i at_j) inv = notify-Inv inv i j lt lt' at_i at_j
  Step-Inv (notifies_nobody i lt at_i nobody) inv = notify_nobody-Inv inv i lt at_i nobody

  pub Reach-Inv : {s : System A} → Reach n s → Inv n s.shared s.pc
  Reach-Inv start = record {
    holder = λ i h. cc;
    held = λ i h. cc;
    fifo = refl;
    served = λ j lt h. cc;
  }
  Reach-Inv (later r st) = Step-Inv st (Reach-Inv r)

  -- In every reachable state at most one thread is between taking the mutex and giving it back.
  mutual_exclusion :
      {s : System A} (i j : ℕ) → Reach n s → holds (s.pc i) ≡ true → holds (s.pc j) ≡ true → i ≡ j
  mutual_exclusion i j r in_i in_j =
      ground (arith, (Reach-Inv r).holder i in_i, (Reach-Inv r).holder j in_j)

  -- In every reachable state the items pushed so far, in the order of the pushes, are the items
  -- popped so far, in the order of the pops, followed by the items in the queue: by any threads and
  -- in any interleaving, each item is popped at most once, none is lost, and they leave in order.
  pub popped-pushed :
      {s : System A} → Reach n s → s.shared.pushed ≡ s.shared.popped ++ s.shared.queue
  popped-pushed r = (Reach-Inv r).fifo

  -- No wakeup is lost: in every reachable state in which a thread sleeps in `wait_and_pop` while the
  -- queue holds items, there are at least as many threads under way to the queue, or to waking one
  -- of those that sleep, as there are items; so there is one.
  pub no_lost_wakeup :
      {s : System A} (j : ℕ)
      → Reach n s
      → j < n
      → s.pc j ≡ sleeping
      → s.shared.queue ≢ []
      → (length s.shared.queue ≤ total awake n s.pc) × ((i : ℕ) × (i < n) × (awake (s.pc i) ≡ 1))
  no_lost_wakeup {s} j r lt asleep full =
      let enough = (Reach-Inv r).served j lt asleep in
      let (i, lt', adds) = total-pos awake n s.pc (ground (arith, enough)) in
      (enough, (i, lt', ground arith))
