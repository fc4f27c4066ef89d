-- ===== src/QueueBench/SimpleMoves.antt =====
-- The steps that the threads of a round on `SimpleThreadSafeQueue<int>` can always make.
use concurrencycourse.Prelude.{
  ℕ, zero, suc, ◌<◌, ◌≡◌, refl, sym, subst, ◌∙◌, ◌≢◌, ◌⊎◌, inl, inr, true, false, none, List, [],
  ◌∷◌, arith, Option-cases,
}
use concurrencycourse.SimpleQueue.{wait_and_pop, try_pop}
use concurrencycourse.SimpleQueue.Threads
use concurrencycourse.SimpleQueue.Threads.{
  System, Shared, Call, Pc, Move, moves, notifies, notifies_nobody, outside, calling, inside,
  notifying, sleeping, woken, rechecking, leaving, pushes, waits_and_pops, tries_to_pop, call,
  enter, push_back, pop_at_once, sleep, wake_up, reenter, pop_awake, sleep_again, try_success,
  try_failure, leave,
}
use concurrencycourse.SimpleQueue.Invariant.{holds}
use concurrencycourse.QueueBench.{Bench, goes_on, Goes}
use concurrencycourse.QueueBench.Simple.{simple}
use concurrencycourse.QueueBench.SimpleInvariant.{Inv}

sleeps : {A : Type 0} (p : Pc A) → (p ≡ sleeping) ⊎ (p ≢ sleeping)
sleeps sleeping = inl refl
sleeps _ = inr (λ e. cc)

tried :
    {A : Type 0} (val : A) (queue : List A)
    → ((x : A) × (rest : List A) × (try_pop val queue ≡ (true, x, rest)))
      ⊎ ((x : A) × (rest : List A) × (try_pop val queue ≡ (false, x, rest)))
unfolding try_pop
tried val [] = inr (val, [], refl)
tried val (x ∷ rest) = inl (x, rest, refl)

module _ {A : Type 0} (pc : ℕ → Pc A) where
  nobody : pc 0 ≡ notifying → pc 1 ≢ sleeping → (j : ℕ) → j < 2 → pc j ≢ sleeping
  nobody at up zero lt asleep = ground (arith, at, asleep)
  nobody at up (suc zero) lt asleep = up asleep
  nobody at up (suc (suc j)) lt asleep = omega (arith, lt)

module _ {A : Type 0} (range : ℕ) (rand : ℕ → A) {s : Bench (simple {A = A})} where
  pub moves_on :
      (i : ℕ) {p p' : Pc A} {m' : Shared A}
      → i < 2
      → s.system.pc i ≡ p
      → Move i s.system.shared p m' p'
      → p ≢ outside
      → p ≢ sleeping
      → p' ≢ p
      → Goes simple range rand s
  moves_on i {p} {p'} {m'} lt at mv begun is_awake moved = record {
    thread = i;
    is_thread = lt;
    is_awake = λ asleep. is_awake (sym at ∙ asleep);
    after = _;
    step =
        goes_on (moves i lt (subst (λ q. Move i s.system.shared q m' p') (sym at) mv))
          (λ k out. ground (arith, out, at, begun));
    moved = λ e. moved (ground (arith, e, at));
  }

  notifier-Goes : Inv range rand s → s.system.pc 0 ≡ notifying → Goes simple range rand s
  notifier-Goes inv at = elim (sleeps (s.system.pc 1)) [
    | inl asleep ↦ record {
      thread = 0;
      is_thread = omega arith;
      is_awake = λ e. cc;
      after = _;
      step =
          goes_on (notifies 0 1 (omega arith) (omega arith) at asleep)
            (λ k out. ground (arith, out, at, asleep));
      moved = λ e. ground (arith, e, at);
    }
    | inr up ↦ record {
      thread = 0;
      is_thread = omega arith;
      is_awake = λ e. cc;
      after = _;
      step =
          goes_on (notifies_nobody 0 (omega arith) at (nobody s.system.pc at up))
            (λ k out. ground (arith, out, at));
      moved = λ e. ground (arith, e, at);
    }
  ]

  -- A thread that has the mutex goes on.
  pub holder-Goes :
      Inv range rand s
      → (i : ℕ) (p : Pc A) → i < 2
      → s.system.pc i ≡ p
      → holds p ≡ true
      → Goes simple range rand s
  holder-Goes inv i (inside (pushes v)) lt at h =
      moves_on i lt at push_back (λ e. cc) (λ e. cc) (λ e. cc)
  holder-Goes inv i (inside waits_and_pops) lt at h =
      elim (Option-cases (wait_and_pop s.system.shared.queue)) [
        | inl e ↦ moves_on i lt at (sleep e) (λ e. cc) (λ e. cc) (λ e. cc)
        | inr ((x, queue), e) ↦ moves_on i lt at (pop_at_once e) (λ e. cc) (λ e. cc) (λ e. cc)
      ]
  holder-Goes inv i (inside (tries_to_pop val)) lt at h = elim (tried val s.system.shared.queue) [
    | inl (x, queue, e) ↦ moves_on i lt at (try_success e) (λ e. cc) (λ e. cc) (λ e. cc)
    | inr (x, queue, e) ↦ moves_on i lt at (try_failure e) (λ e. cc) (λ e. cc) (λ e. cc)
  ]
  holder-Goes inv i rechecking lt at h = elim (Option-cases (wait_and_pop s.system.shared.queue)) [
    | inl e ↦ moves_on i lt at (sleep_again e) (λ e. cc) (λ e. cc) (λ e. cc)
    | inr ((x, queue), e) ↦ moves_on i lt at (pop_awake e) (λ e. cc) (λ e. cc) (λ e. cc)
  ]
  holder-Goes inv i leaving lt at h = moves_on i lt at leave (λ e. cc) (λ e. cc) (λ e. cc)
  holder-Goes inv zero notifying lt at h = notifier-Goes inv at
  holder-Goes inv (suc zero) notifying lt at h = ground (arith, at, inv.consumer)
  holder-Goes inv (suc (suc i)) notifying lt at h = absurd (omega (arith, lt))
  holder-Goes inv i _ lt at h = cc

  -- The mutex is free for the thread that waits for it, or its owner goes on.
  pub waiter-Goes :
      Inv range rand s
      → (i : ℕ) (p p' : Pc A) → i < 2
      → s.system.pc i ≡ p
      → (s.system.shared.owner ≡ none
          → Move i s.system.shared p (Threads.lock_by i s.system.shared) p')
      → p ≢ outside
      → p ≢ sleeping
      → p' ≢ p
      → Goes simple range rand s
  waiter-Goes inv i p p' lt at mv begun is_awake moved = elim (Option-cases s.system.shared.owner) [
    | inl free ↦ moves_on i lt at (mv free) begun is_awake moved
    | inr (j, taken) ↦
        let h = inv.queue.held j taken in
        holder-Goes inv j (s.system.pc j) (ground (arith, h, inv.others j)) refl h
  ]
