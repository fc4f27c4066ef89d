-- ===== src/ThreadPool/Ends.antt =====
-- A pool with a worker can always finish its tasks and let all its clients return.
use concurrencycourse.Prelude.{
  ℕ, zero, suc, ◌≤◌, ◌<◌, ◌≡◌, refl, sym, ap, subst, ◌∙◌, ◌⊎◌, inl, inr, true, false, none, arith,
  dec_lt, ℕ_discrete, Option-cases, length, update, has,
}
use concurrencycourse.Prelude.Threads.{total, total-update, total-lt-map, total-pos, le-total}
use concurrencycourse.ThreadPool.System.{
  Client, Pool, Move, System, Step, Reach, at_loop, outside, counted, locking, checking, blocking,
  sleeping, woken, lock, relock, complete, sleep, wake, notifies, moves, later,
}
use concurrencycourse.ThreadPool.Invariant.{holds, pending}
use concurrencycourse.ThreadPool.Safety.{Reach-Inv, wait_all_complete, no_missed_completion}
use concurrencycourse.ThreadPool.Held.{Reach-Staffed}
use concurrencycourse.ThreadPool.Completion.{weight, nearer}

module _ {A : Type 0} where
  pub data Run (n k : ℕ) (s : System A) : System A → Type 0 where
    here : Run n k s s
    next : {t u : System A} → Run n k s t → Step n k t u → Run n k s u

  Run-begin : {n k : ℕ} {s t u : System A} → Step n k s t → Run n k t u → Run n k s u
  Run-begin st here = next here st
  Run-begin st (next r st') = next (Run-begin st r) st'

  pub Reach-Run : {n k : ℕ} {s t : System A} → Reach n k s → Run n k s t → Reach n k t
  Reach-Run r here = r
  Reach-Run r (next r' st) = later (Reach-Run r r') st

  Run-trans : {n k : ℕ} {s t u : System A} → Run n k s t → Run n k t u → Run n k s u
  Run-trans r here = r
  Run-trans r (next r' st) = next (Run-trans r r') st

  complete_within :
      (bound : ℕ) {n k : ℕ} {s : System A}
      → weight n k s < bound
      → Reach n k s
      → 0 < n
      → s.pool.done ≡ false
      → (t : System A) × Run n k s t × (t.pool.task_count ≡ 0) × (t.pool.done ≡ false)
  complete_within zero lt r pos open_yet = absurd (omega (arith, lt))
  complete_within (suc bound) {n} {k} {s} lt r pos open_yet =
      elim (ℕ_discrete s.pool.task_count 0) [
        | yes all_done ↦ (s, here, all_done, open_yet)
        | no some_left ↦
            let on = nearer r pos open_yet some_left in
            let (t, rest, all_done, open_still) =
              complete_within bound {s = on.after} (omega (arith, lt, on.lighter)) (later r on.step)
                pos (on.lasts ∙ open_yet) in
            (t, Run-begin on.step rest, all_done, open_still)
      ]

  -- How far a client is from its return, when no task is left.
  abbrev to_return : Client A → ℕ
  to_return blocking = 20
  to_return sleeping = 10
  to_return locking = 5
  to_return woken = 5
  to_return checking = 1
  to_return _ = 0

  to_return-wake : (c : Client A) → to_return (wake c) ≤ to_return c
  to_return-wake c = ground arith

  away_or_waits : (c : Client A) → pending c ≡ 0 → (c ≡ outside) ⊎ (0 < to_return c)
  away_or_waits outside h = inl refl
  away_or_waits (counted task) h = absurd (omega (arith, h))
  away_or_waits c h = inr (omega arith)

  -- A step that brings the clients nearer to their return.
  record Returning (n k : ℕ) (s : System A) : Type 0 where
    after : System A
    step : Step n k s after
    less : total to_return k after.clients < total to_return k s.clients
    none_left : after.pool.task_count ≡ 0

  module _ {n k : ℕ} {s : System A} (zero_left : s.pool.task_count ≡ 0) where
    by_client :
        (j : ℕ) {p : Pool A} {c c' : Client A}
        → j < k
        → s.clients j ≡ c
        → Move j s.pool c p c'
        → to_return c' < to_return c
        → p.task_count ≡ s.pool.task_count
        → Returning n k s
    by_client j {p} {c} {c'} lt at mv nearer_now same = record {
      after = record s { pool = p; clients = update s.clients j c' };
      step = moves j lt (subst (λ v. Move j s.pool v p c') (sym at) mv);
      less = omega (arith, nearer_now, total-update to_return k s.clients j c' lt, ap to_return at);
      none_left = same ∙ zero_left;
    }

    owner_moves :
        (j : ℕ) → j < k → (c : Client A) → s.clients j ≡ c → holds c ≡ true → Returning n k s
    owner_moves j lt checking at h = by_client j lt at (complete zero_left) (omega arith) refl
    owner_moves j lt blocking at h = by_client j lt at sleep (omega arith) refl
    owner_moves j lt c at h = cc h

    free_moves :
        (j : ℕ)
        → Reach n k s
        → s.pool.owner ≡ none
        → j < k
        → (c : Client A) → s.clients j ≡ c
        → 0 < to_return c
        → Returning n k s
    free_moves j r free lt locking at h = by_client j lt at (lock free) (omega arith) refl
    free_moves j r free lt woken at h = by_client j lt at (relock free) (omega arith) refl
    free_moves j r free lt sleeping at h =
        let (i, lt', at') = no_missed_completion j r (ground (arith, at)) zero_left in
        record {
          after = record s {
            workers = update s.workers i at_loop;
            clients = λ j'. wake (s.clients j');
          };
          step = notifies i lt' at' free;
          less = total-lt-map to_return wake to_return-wake k s.clients j lt (ground (arith, at));
          none_left = zero_left;
        }
    free_moves j r free lt checking at h = cc ((Reach-Inv r).holder j (ap holds at), free)
    free_moves j r free lt blocking at h = cc ((Reach-Inv r).holder j (ap holds at), free)
    free_moves j r free lt c at h = absurd (omega (arith, h))

    returning : Reach n k s → 0 < total to_return k s.clients → Returning n k s
    returning r some_wait = elim (Option-cases s.pool.owner) [
      | inr (j, taken) ↦
          let (lt, has) = (Reach-Staffed r).held j taken in owner_moves j lt (s.clients j) refl has
      | inl free ↦
          let (j, lt, h) = total-pos to_return k s.clients some_wait in
          free_moves j r free lt (s.clients j) refl h
    ]

  return_within :
      (bound : ℕ) {n k : ℕ} {s : System A}
      → total to_return k s.clients < bound
      → Reach n k s
      → s.pool.task_count ≡ 0
      → (t : System A) × Run n k s t × (t.pool.task_count ≡ 0) × (total to_return k t.clients ≡ 0)
  return_within zero lt r zero_left = absurd (omega (arith, lt))
  return_within (suc bound) {n} {k} {s} lt r zero_left =
      elim (dec_lt 0 (total to_return k s.clients)) [
        | no none_waits ↦ (s, here, zero_left, omega (arith, none_waits))
        | yes some_wait ↦
            let on = returning zero_left r some_wait in
            let (t, rest, zero_left', none_waits) =
              return_within bound {s = on.after} (omega (arith, lt, on.less)) (later r on.step)
                on.none_left in
            (t, Run-begin on.step rest, zero_left', none_waits)
      ]

  all_outside :
      {n k : ℕ} {s : System A}
      → Reach n k s
      → s.pool.task_count ≡ 0
      → total to_return k s.clients ≡ 0
      → (j : ℕ) → j < k
      → s.clients j ≡ outside
  all_outside {n} {k} {s} r zero_left none_waits j lt =
      elim (away_or_waits (s.clients j)
        (omega (arith, (wait_all_complete r zero_left).0, le-total pending k s.clients j lt))) [
          | inl away ↦ away
          | inr waits ↦
              absurd (omega (arith, waits, none_waits, le-total to_return k s.clients j lt))
        ]

  -- The pool cannot get stuck: from every reachable state in which it has a worker and its destructor
  -- has not begun, its threads can go on to a state in which all tasks that were pushed have returned,
  -- the task count is 0, and every call of `submit` and `wait_all` has returned.
  pub can_finish :
      {n k : ℕ} {s : System A}
      → Reach n k s
      → 0 < n
      → s.pool.done ≡ false
      → (t : System A) × Run n k s t
        × (t.pool.task_count ≡ 0)
        × (length t.pool.completed ≡ length t.pool.pushed)
        × ((j : ℕ) → j < k → t.clients j ≡ outside)
  can_finish {n} {k} {s} r pos open_yet =
      let (t, run_t, zero_left, _) =
        complete_within (suc (weight n k s)) (omega arith) r pos open_yet in
      let reach_t = Reach-Run r run_t in
      let (u, run_u, zero_left', none_waits) =
        return_within (suc (total to_return k t.clients)) (omega arith) reach_t zero_left in
      let reach_u = Reach-Run reach_t run_u in
      (
        u,
        Run-trans run_t run_u,
        zero_left',
        (wait_all_complete reach_u zero_left').4,
        all_outside reach_u zero_left' none_waits,
      )
