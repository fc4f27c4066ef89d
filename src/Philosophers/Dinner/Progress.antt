-- ===== src/Philosophers/Dinner/Progress.antt =====
-- In the whole program some thread can go on, now or when time has passed, unless it is the deadlock.
use native.Mathlib.Nat.{mod-lt}
use concurrencycourse.Prelude.{
  ℕ, zero, suc, ◌+◌, ◌%◌, ◌≤◌, ◌<◌, ◌≡◌, refl, sym, ap, subst, ◌∙◌, ◌≢◌, ◌⊎◌, inl, inr, Option,
  none, some, List, arith, dec_lt, Bool-cases,
}
use concurrencycourse.Philosophers.{
  get_seat, Pc, at_loop, hungry, has_first, eating, leaving, ended, Table,
}
use concurrencycourse.Philosophers
use concurrencycourse.Philosophers.Deadlock.{Deadlocked}
use concurrencycourse.Philosophers.Progress.{moves_or_stuck}
use concurrencycourse.Philosophers.Dinner.{
  Place, Main, Entry, Dinner, Turn, Act, Reach, begin, starts, sleeps, destroys, joins, over, idle,
  at_test, logs, naps, napping, locks1, locks2, unlocks2, unlocks1, returned, shortest, between,
  get_fork, goes_round, leaves, writes, falls_asleep, wakes, takes_first, takes_second, puts_second,
  puts_first, turns, begins, rests, rises, cancels, joined, ends,
}
use concurrencycourse.Philosophers.Dinner.View.{view, stage, owner_of, owner_of-get_fork}
use concurrencycourse.Philosophers.Dinner.Attended.{Reach-Attended}
use concurrencycourse.Philosophers.Dinner.Refines.{dinner-Refines, Reach-HasSeats}

abbrev pub at_time : Dinner → ℕ → Dinner
at_time s time = record s { now = s.now + time }

-- Some thread can make a step when some time has passed.
pub record CanGoOn (n : ℕ) (s : Dinner) : Type 0 where
  pub time : ℕ
  pub after : Dinner
  pub act : Act n (at_time s time) after

-- A place at which a thread needs another one, or has none.
data Waits : Place → Type 0 where
  not_begun : Waits idle
  wants_first : Waits locks1
  wants_second : Waits locks2
  has_returned : Waits returned

Waits-hungry : {p : Place} → Waits p → stage p ≡ hungry → p ≡ locks1
Waits-hungry not_begun e = cc e
Waits-hungry wants_first e = refl
Waits-hungry wants_second e = cc e
Waits-hungry has_returned e = cc e

Waits-has_first : {p : Place} → Waits p → stage p ≡ has_first → p ≡ locks2
Waits-has_first not_begun e = cc e
Waits-has_first wants_first e = cc e
Waits-has_first wants_second e = refl
Waits-has_first has_returned e = cc e

Waits-ended : {p : Place} → Waits p → stage p ≡ ended → p ≡ returned
Waits-ended not_begun e = cc e
Waits-ended wants_first e = cc e
Waits-ended wants_second e = cc e
Waits-ended has_returned e = refl

-- One who has begun and waits stands at a lock, or has returned.
Waits-stage :
    {p : Place}
    → Waits p
    → p ≢ idle
    → (stage p ≢ at_loop) × (stage p ≢ eating) × (stage p ≢ leaving)
Waits-stage not_begun ne = absurd (ne refl)
Waits-stage wants_first ne = (λ e. cc, λ e. cc, λ e. cc)
Waits-stage wants_second ne = (λ e. cc, λ e. cc, λ e. cc)
Waits-stage has_returned ne = (λ e. cc, λ e. cc, λ e. cc)

module _ {n : ℕ} {s : Dinner} where
  go_with :
      {i : ℕ} {p p' : Place} {forks : List (Option ℕ)} {log : List Entry} (time : ℕ)
      → i < n
      → s.place i ≡ p
      → Turn n i (at_time s time) p forks log p'
      → CanGoOn n s
  go_with {i} {p} {p'} {forks} {log} time lt at turn = record {
    time = time;
    after = _;
    act = turns i lt (subst (λ q. Turn n i (at_time s time) q forks log p') (sym at) turn);
  }

  can_or_Waits : (i : ℕ) → i < n → (p : Place) → s.place i ≡ p → CanGoOn n s ⊎ Waits p
  can_or_Waits i lt idle at = inr not_begun
  can_or_Waits i lt at_test at = elim (Bool-cases (s.cancelled i)) [
    | inl stop ↦ inl (go_with 0 lt at (leaves stop))
    | inr go ↦ inl (go_with 0 lt at (goes_round go))
  ]
  can_or_Waits i lt (logs line) at = inl (go_with 0 lt at writes)
  can_or_Waits i lt (naps nap) at =
      inl (go_with 0 lt at (falls_asleep (between (shortest nap) (omega arith) (ground arith))))
  can_or_Waits i lt (napping nap until) at = inl (go_with until lt at (wakes (omega arith)))
  can_or_Waits i lt locks1 at = inr wants_first
  can_or_Waits i lt locks2 at = inr wants_second
  can_or_Waits i lt unlocks2 at = inl (go_with 0 lt at puts_second)
  can_or_Waits i lt unlocks1 at = inl (go_with 0 lt at puts_first)
  can_or_Waits i lt returned at = inr has_returned

  all_wait : (m : ℕ) → m ≤ n → CanGoOn n s ⊎ ((i : ℕ) → i < m → Waits (s.place i))
  all_wait zero le = inr (λ i lt. absurd (omega (arith, lt)))
  all_wait (suc m) le = elim (all_wait m (omega (arith, le))) [
    | inl can ↦ inl can
    | inr all ↦ elim (can_or_Waits m (omega (arith, le)) (s.place m) refl) [
      | inl can ↦ inl can
      | inr wait ↦ inr (λ i lt. elim (dec_lt i m) [
        | yes lt' ↦ all i lt'
        | no ge ↦ subst (λ j. Waits (s.place j)) (omega (arith, ge, lt)) wait
      ])
    ]
  ]

  module _ (r : Reach n (begin n) s) where
    lock_free :
        (k : ℕ) → 0 < n → owner_of s.forks (k % n) ≡ none → get_fork s.forks (k % n) ≡ some none
    lock_free k pos free =
        owner_of-get_fork s.forks (k % n) (rw (Reach-HasSeats r) (mod-lt k pos)) ∙ ap some free

    -- Where all threads wait, a step of the table is one of the program.
    step_on :
        {t : Table} (j : ℕ)
        → ((i : ℕ) → i < n → Waits (s.place i))
        → ((i : ℕ) → i < n → s.place i ≢ idle)
        → Philosophers.Step n (view s) t
        → t.pc j ≢ stage (s.place j)
        → CanGoOn n s
    unfolding get_seat
    step_on j all begun (Philosophers.thinks i lt e go) moved =
        absurd ((Waits-stage (all i lt) (begun i lt)).0 e)
    step_on j all begun (Philosophers.ends i lt e go) moved =
        absurd ((Waits-stage (all i lt) (begun i lt)).0 e)
    step_on j all begun (Philosophers.takes_first i lt e free) moved =
        go_with 0 lt (Waits-hungry (all i lt) e)
          (takes_first (lock_free i (omega (arith, lt)) free))
    step_on j all begun (Philosophers.takes_second i lt e free) moved =
        go_with 0 lt (Waits-has_first (all i lt) e)
          (takes_second (lock_free (i + 1) (omega (arith, lt)) free))
    step_on j all begun (Philosophers.puts_second i lt e) moved =
        absurd ((Waits-stage (all i lt) (begun i lt)).1 e)
    step_on j all begun (Philosophers.puts_first i lt e) moved =
        absurd ((Waits-stage (all i lt) (begun i lt)).2 e)
    step_on j all begun (Philosophers.cancels i) moved = absurd (moved refl)

    -- `main` waits for a philosopher to return.
    join_on : (k : ℕ) → s.main ≡ joins k → CanGoOn n s ⊎ Deadlocked n (view s)
    join_on k at =
        let inv = Reach-Attended n r in
        let begun : (i : ℕ) → i < n → s.place i ≢ idle =
          λ i lt. inv.begun i (ground (arith, at, lt)) in
        elim (all_wait n (omega arith)) [
          | inl can ↦ inl can
          | inr all ↦ elim (moves_or_stuck (dinner-Refines r)) [
            | inl mv ↦ inl (step_on mv.philosopher all begun mv.step mv.moved)
            | inr (inr dead) ↦ inr dead
            | inr (inl ended_all) ↦
                let lt : k < n = ground (arith, at, inv.in_range) in
                inl (record {
                  time = 0;
                  after = _;
                  act = joined k at (Waits-ended (all k lt) (ended_all k lt));
                })
          ]
        ]

    main_on : (m : Main) → s.main ≡ m → (m ≡ over) ⊎ CanGoOn n s ⊎ Deadlocked n (view s)
    main_on (starts k) at = elim (dec_lt k n) [
      | yes lt ↦ inr (inl (record { time = 0; after = _; act = begins k lt at }))
      | no ge ↦
          let last : k ≡ n = ground (arith, at, ge, (Reach-Attended n r).in_range) in
          inr (inl (record { time = 0; after = _; act = rests (at ∙ ap starts last) }))
    ]
    main_on (sleeps until) at =
        inr (inl (record { time = until; after = _; act = rises until at (omega arith) }))
    main_on (destroys zero) at = inr (inl (record { time = 0; after = _; act = ends at }))
    main_on (destroys (suc k)) at = inr (inl (record { time = 0; after = _; act = cancels k at }))
    main_on (joins k) at = inr (join_on k at)
    main_on over at = inl refl

    -- In every reachable state of the program, with any number of philosophers: `main` has returned, or
    -- a thread can go on, at once or when its sleep is over, or it is the deadlock in which each
    -- philosopher has the first fork and waits for the second.
    pub dinner_goes_on : (s.main ≡ over) ⊎ CanGoOn n s ⊎ Deadlocked n (view s)
    dinner_goes_on = main_on s.main refl
