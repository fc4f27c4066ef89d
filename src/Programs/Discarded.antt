-- ===== src/Programs/Discarded.antt =====
-- src/2_async.cpp: the loops of `unoptimized` and `optimized`, which are the same. A future that
-- `std::async` returns and nobody keeps waits for its task as it is destroyed, before the next round.
use concurrencycourse.Prelude.{
  ℕ, ◌+◌, ◌*◌, ◌≤◌, ◌<◌, ◌≡◌, Bool, true, false, arith, dec_lt, ==_iff, update,
}
use concurrencycourse.Prelude.Threads.{total, total-update, total-zero}

abbrev pub number_of_threads : ℕ
number_of_threads = 4

-- How long `find_the_answer_to_ltuae` sleeps at least, in milliseconds.
abbrev pub delay : ℕ
delay = 50

abbrev pub answer : ℕ
answer = 42

pub data Task : Type 0 where
  unborn : Task
  asleep : (since : ℕ) → Task
  ready : (result : ℕ) → Task

-- The thread of the loop begins round `round`, or is in the destructor of this round's future. `now` is
-- the time.
pub record System : Type 0 where
  pub round : ℕ
  pub waiting : Bool
  pub tasks : ℕ → Task
  pub now : ℕ

pub data Step (s : System) : System → Type 0 where
  launches :
      s.round < number_of_threads
      → s.waiting ≡ false
      → Step s (record s { waiting = true; tasks = update s.tasks s.round (asleep s.now) })
  answers :
      (i since : ℕ)
      → s.tasks i ≡ asleep since
      → since + delay ≤ s.now
      → Step s (record s { tasks = update s.tasks i (ready answer) })
  destroys :
      (result : ℕ)
      → s.waiting ≡ true
      → s.tasks s.round ≡ ready result
      → Step s (record s { round = s.round + 1; waiting = false })
  ticks : Step s (record s { now = s.now + 1 })

abbrev pub begin : System
begin = record { round = 0; waiting = false; tasks = λ _. unborn; now = 0 }

pub data Reach : System → Type 0 where
  start : Reach begin
  later : {s t : System} → Reach s → Step s t → Reach t

abbrev pub sleepers : Task → ℕ
sleepers (asleep _) = 1
sleepers _ = 0

-- The rounds before this one took their time, and only this round's task can be asleep or answer.
record Inv (s : System) : Type 0 where
  in_range : s.round ≤ number_of_threads
  rounds : s.round * delay ≤ s.now
  alone : (i : ℕ) → sleepers (s.tasks i) ≡ 1 → (i ≡ s.round) × (s.waiting ≡ true)
  since_then : (since : ℕ) → s.tasks s.round ≡ asleep since → s.round * delay ≤ since
  answered :
      (result : ℕ)
      → s.waiting ≡ true
      → s.tasks s.round ≡ ready result
      → (s.round + 1) * delay ≤ s.now
  below : s.waiting ≡ true → s.round < number_of_threads

Step-Inv : {s t : System} → Step s t → Inv s → Inv t
Step-Inv {s} (launches lt free) inv = record {
  in_range = inv.in_range;
  rounds = inv.rounds;
  alone = λ i e. ground (arith, inv.alone i, free, ==_iff s.round i);
  since_then = λ since e. ground (arith, inv.rounds, e);
  answered = λ result e e'. ground (arith, e');
  below = λ e. lt;
}
Step-Inv {s} (answers i since e le) inv = record {
  in_range = inv.in_range;
  rounds = inv.rounds;
  alone = λ j e'. ground (arith, inv.alone j, e');
  since_then = λ since' e'. ground (arith, inv.since_then since', e');
  answered = λ result e' e''. ground (arith, inv.alone i, e, inv.since_then since, le);
  below = inv.below;
}
Step-Inv {s} (destroys result e e') inv = record {
  in_range = ground (arith, inv.below e);
  rounds = inv.answered result e e';
  alone = λ i e''. ground (arith, inv.alone i e'', e');
  since_then = λ since e''. ground (arith, inv.alone (s.round + 1), e'');
  answered = λ result' e'' e'''. cc e'';
  below = λ e''. cc e'';
}
Step-Inv ticks inv = record {
  in_range = inv.in_range;
  rounds = omega (arith, inv.rounds);
  alone = inv.alone;
  since_then = inv.since_then;
  answered = λ result e e'. omega (arith, inv.answered result e e');
  below = inv.below;
}

Reach-Inv : {s : System} → Reach s → Inv s
Reach-Inv start = record {
  in_range = omega arith;
  rounds = omega arith;
  alone = λ i e. cc e;
  since_then = λ since e. cc e;
  answered = λ result e e'. cc e;
  below = λ e. cc e;
}
Reach-Inv (later r st) = Step-Inv st (Reach-Inv r)

sleepers-le : (task : Task) → sleepers task ≤ 1
sleepers-le unborn = omega arith
sleepers-le (asleep since) = omega arith
sleepers-le (ready result) = omega arith

at_most_one :
    {s : System}
    → Inv s
    → Dec (s.round < number_of_threads)
    → total sleepers number_of_threads s.tasks ≤ 1
at_most_one {s} inv (yes lt) = omega (
  arith,
  total-update sleepers number_of_threads s.tasks s.round unborn lt,
  total-zero sleepers number_of_threads (update s.tasks s.round unborn)
      (λ i. ground (arith, inv.alone i, sleepers-le (s.tasks i), ==_iff s.round i)),
  sleepers-le (s.tasks s.round),
)
at_most_one {s} inv (no ge) = omega (
  arith,
  total-zero sleepers number_of_threads s.tasks
      (λ i. ground (arith, ge, inv.alone i, inv.below, sleepers-le (s.tasks i))),
)

-- In every reachable state at most one of the tasks is asleep: no two of them run at the same time. So
-- for every round that is over its whole delay has passed, and when the loop ends the delays of all.
pub tasks-in_turn :
    {s : System}
    → Reach s
    → (total sleepers number_of_threads s.tasks ≤ 1) × (s.round * delay ≤ s.now)
tasks-in_turn {s} r =
    let inv = Reach-Inv r in (at_most_one inv (dec_lt s.round number_of_threads), inv.rounds)
