-- ===== src/QueueBench/SimpleBound.antt =====
-- How many steps a round of the benchmark with `SimpleThreadSafeQueue<int>` takes.
use concurrencycourse.Prelude.{
  ℕ, ◌+◌, ◌-◌, ◌*◌, ◌≤◌, ◌≡◌, refl, ◌⊎◌, Bool, true, false, [], arith, update,
}
use concurrencycourse.Prelude.Threads.{total, total-update, total-zero}
use concurrencycourse.SimpleQueue.Threads
use concurrencycourse.SimpleQueue.Threads.{
  System, Shared, Pc, Move, moves, notifies, notifies_nobody, outside, calling, inside, notifying,
  sleeping, woken, rechecking, leaving, call, enter, push_back, pop_at_once, sleep, wake_up,
  reenter, pop_awake, sleep_again, try_success, try_failure, leave,
}
use concurrencycourse.QueueBench.{
  first_values, Bench, Step, produces, consumes, goes_on, begin, Reach, start, later, IsOver, Goes,
}
use concurrencycourse.QueueBench.SimpleEnds.{ends_or_moves}
use concurrencycourse.QueueBench.Simple.{simple}

module _ {A : Type 0} where
  -- How many steps are left to a call, a wakeup by `notify_one` charged to the notifier.
  abbrev steps_left : Pc A → ℕ
  steps_left outside = 0
  steps_left leaving = 1
  steps_left sleeping = 2
  steps_left rechecking = 3
  steps_left woken = 4
  steps_left notifying = 4
  steps_left (inside _) = 5
  steps_left (calling _) = 6

  abbrev is_wakeup : {i : ℕ} {m m' : Shared A} {p p' : Pc A} → Move i m p m' p' → Bool
  is_wakeup wake_up = true
  is_wakeup _ = false

  Move-steps_left :
      {i : ℕ} {m m' : Shared A} {p p' : Pc A} (mv : Move i m p m' p')
      → (p ≡ outside → p' ≡ outside)
      → (is_wakeup mv ≡ false → steps_left p' + 1 ≤ steps_left p)
        × (steps_left p' ≤ steps_left p + 2)
  Move-steps_left (call c) stays = cc (stays refl)
  Move-steps_left wake_up stays = (λ e. cc e, omega arith)
  Move-steps_left mv stays = (λ e. omega arith, omega arith)

module _ {A : Type 0} (range : ℕ) (rand : ℕ → A) where
  -- A wakeup that no `notify_one` has made.
  abbrev pub is_spurious : {s t : Bench (simple {A = A})} → Step simple range rand s t → Bool
  is_spurious (goes_on (moves i lt mv) stays) = is_wakeup mv
  is_spurious _ = false

  -- A run of so many steps and, besides, so many spurious wakeups.
  pub data Run : ℕ → ℕ → Bench (simple {A = A}) → Type 0 where
    starts : Run 0 0 (begin simple range rand)
    steps :
        {k w : ℕ} {s t : Bench simple}
        → Run k w s
        → (st : Step simple range rand s t) → is_spurious st ≡ false
        → Run (k + 1) w t
    wakes :
        {k w : ℕ} {s t : Bench simple}
        → Run k w s
        → (st : Step simple range rand s t) → is_spurious st ≡ true
        → Run k (w + 1) t

  abbrev work_left : Bench (simple {A = A}) → ℕ
  work_left s = 7 * (range - s.produced) + 7 * (range - s.consumed) + total steps_left 2 s.system.pc

  Step-work_left :
      {s t : Bench (simple {A = A})} (st : Step simple range rand s t)
      → (is_spurious st ≡ false → work_left t + 1 ≤ work_left s) × (work_left t ≤ work_left s + 2)
  Step-work_left {s} (produces lt out) =
      let change =
        total-update steps_left 2 s.system.pc 0 (calling (Threads.pushes (rand s.produced)))
          (omega arith) in
      (λ e. ground (arith, change, out, lt), ground (arith, change, out, lt))
  Step-work_left {s} (consumes lt out) =
      let change =
        total-update steps_left 2 s.system.pc 1 (calling Threads.waits_and_pops) (omega arith) in
      (λ e. ground (arith, change, out, lt), ground (arith, change, out, lt))
  Step-work_left {s} (goes_on (moves i {p} lt mv) stays) =
      let (less, more) = Move-steps_left mv (λ out. ground (arith, stays i out)) in
      let change = total-update steps_left 2 s.system.pc i p lt in
      (λ e. omega (arith, less e, change), omega (arith, more, change))
  Step-work_left {s} (goes_on (notifies i j lt lt' at at') stays) =
      let change = total-update steps_left 2 s.system.pc i leaving lt in
      let change' = total-update steps_left 2 (update s.system.pc i leaving) j woken lt' in
      (λ e. ground (arith, change, change', at, at'), ground (arith, change, change', at, at'))
  Step-work_left {s} (goes_on (notifies_nobody i lt at nobody) stays) =
      let change = total-update steps_left 2 s.system.pc i leaving lt in
      (λ e. ground (arith, change, at), ground (arith, change, at))

  Run-work_left :
      {k w : ℕ} {s : Bench (simple {A = A})} → Run k w s → k + work_left s ≤ 14 * range + 2 * w
  Run-work_left starts =
      omega (arith, total-zero {A = Pc A} steps_left 2 (λ _. outside) (λ i. refl))
  Run-work_left (steps run st e) = omega (arith, Run-work_left run, (Step-work_left st).0 e)
  Run-work_left (wakes run st e) = omega (arith, Run-work_left run, (Step-work_left st).1)

  Run-Reach : {k w : ℕ} {s : Bench (simple {A = A})} → Run k w s → Reach simple range rand s
  Run-Reach starts = start
  Run-Reach (steps run st e) = later (Run-Reach run) st
  Run-Reach (wakes run st e) = later (Run-Reach run) st

  -- A round of the benchmark with `SimpleThreadSafeQueue<int>`, for every range and whatever `rand`
  -- returns, takes at most 14 steps for each item and 2 for each spurious wakeup. Wherever it stands,
  -- either both loops are over, and then the consumer has popped the first `range` values of `rand`, in
  -- their order, and has left the queue empty, or one of the two threads is not asleep and can move. So
  -- it never deadlocks, and unless it wakes up spuriously for ever it ends in the right state.
  pub round_ends :
      {k w : ℕ} {s : Bench (simple {A = A})}
      → Run k w s
      → (k ≤ 14 * range + 2 * w)
        × ((IsOver simple range rand s
              × (s.system.shared.popped ≡ first_values rand range)
              × (s.system.shared.queue ≡ []))
            ⊎ Goes simple range rand s)
  round_ends run = (omega (arith, Run-work_left run), ends_or_moves range rand (Run-Reach run))
