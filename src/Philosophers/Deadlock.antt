-- ===== src/Philosophers/Deadlock.antt =====
-- The deadlock: each philosopher can take the first fork before any takes the second.
use native.Mathlib.Nat.{mod-eq_of_lt, mod-lt}
use concurrencycourse.Prelude.{
  ℕ, zero, suc, ◌+◌, ◌%◌, ◌≤◌, ◌<◌, ◌≡◌, refl, ap, ◌∙◌, false, none, some, arith,
}
use concurrencycourse.Philosophers.{
  get_seat, at_loop, has_first, Table, Step, thinks, ends, takes_first, takes_second, puts_second,
  puts_first, cancels, init, Reach, here, later,
}
use concurrencycourse.Philosophers.Forks.{next_seat}

-- Each of the `n` philosophers has the first fork of the seat and waits for the second.
pub record Deadlocked (n : ℕ) (s : Table) : Type 0 where
  pub all_wait : (i : ℕ) → i < n → s.pc i ≡ has_first
  pub all_taken : (i : ℕ) → i < n → s.forks (get_seat n i).fork1 ≡ some i

-- The first `m` philosophers have their first forks, the others have not begun.
record Partial (n m : ℕ) (s : Table) : Type 0 where
  begun : (i : ℕ) → i < m → s.pc i ≡ has_first
  taken : (i : ℕ) → i < m → s.forks i ≡ some i
  idle : (i : ℕ) → m ≤ i → s.pc i ≡ at_loop
  free : (i : ℕ) → m ≤ i → s.forks i ≡ none
  running : (i : ℕ) → s.cancelled i ≡ false

pub fork1-lt : (n i : ℕ) → i < n → (get_seat n i).fork1 ≡ i
unfolding get_seat
fork1-lt n i lt = mod-eq_of_lt lt

Reach-trans : {n : ℕ} {s t u : Table} → Reach n s t → Reach n t u → Reach n s u
Reach-trans r here = r
Reach-trans r (later r' st) = later (Reach-trans r r') st

-- The next philosopher begins and takes a fork.
take_next :
    {n m : ℕ} {s : Table} → m < n → Partial n m s → (t : Table) × Reach n s t × Partial n (suc m) t
take_next {n} {m} {s} lt part = (
  _,
  later (later here (thinks m lt (part.idle m (omega arith)) (part.running m)))
      (takes_first m lt (ground arith) (ground (arith, fork1-lt n m lt, part.free m))),
  record {
    begun = λ i h. ground (arith, part.begun i);
    taken = λ i h. ground (arith, fork1-lt n m lt, part.taken i);
    idle = λ i h. ground (arith, part.idle i);
    free = λ i h. ground (arith, fork1-lt n m lt, part.free i);
    running = part.running;
  },
)

-- The first `m` philosophers begin, one after another.
take_forks : (n m : ℕ) → m ≤ n → (s : Table) × Reach n init s × Partial n m s
take_forks n zero h = (
  init,
  here,
  record {
    begun = λ i h. absurd (omega arith);
    taken = λ i h. absurd (omega arith);
    idle = λ i h. refl;
    free = λ i h. refl;
    running = λ i. refl;
  },
)
take_forks n (suc m) h =
    let (s, r, part) = take_forks n m (omega arith) in
    let (t, r', part') = take_next h part in (t, Reach-trans r r', part')

-- At a table of any number of seats the philosophers can come to a deadlock: each has the first fork
-- of the seat, and waits for the second.
pub deadlock_reached : (n : ℕ) → (s : Table) × Reach n init s × Deadlocked n s
deadlock_reached n =
    let (s, r, part) = take_forks n n (omega arith) in
    (
      s,
      r,
      record {
        all_wait = λ i lt. part.begun i lt;
        all_taken = λ i lt. rw (fork1-lt n i lt) (part.taken i lt);
      },
    )

-- The second fork of each is the first fork of a neighbour.
second-taken :
    {n : ℕ} {s : Table}
    → Deadlocked n s
    → (i : ℕ) → i < n
    → s.forks (get_seat n i).fork2 ≡ some ((i + 1) % n)
second-taken {n} {s} dead i lt =
    rw (← next_seat n i) (dead.all_taken ((i + 1) % n) (mod-lt (i + 1) (omega arith)))

-- What a step changes in a deadlock: nothing but a flag.
record Frozen (n : ℕ) (s t : Table) : Type 0 where
  pcs : t.pc ≡ s.pc
  same_forks : t.forks ≡ s.forks

Step-Frozen : {n : ℕ} {s t : Table} → Deadlocked n s → Step n s t → Frozen n s t
Step-Frozen dead (cancels i) = record { pcs = refl; same_forks = refl }
Step-Frozen dead (takes_second i lt e free) = cc (second-taken dead i lt, free)
Step-Frozen dead (thinks i lt e go) = cc (dead.all_wait i lt, e)
Step-Frozen dead (ends i lt e go) = cc (dead.all_wait i lt, e)
Step-Frozen dead (takes_first i lt e free) = cc (dead.all_wait i lt, e)
Step-Frozen dead (puts_second i lt e) = cc (dead.all_wait i lt, e)
Step-Frozen dead (puts_first i lt e) = cc (dead.all_wait i lt, e)

Frozen-Deadlocked : {n : ℕ} {s t : Table} → Deadlocked n s → Frozen n s t → Deadlocked n t
Frozen-Deadlocked {n} dead same = record {
  all_wait = λ i lt. ap (λ f. f i) same.pcs ∙ dead.all_wait i lt;
  all_taken = λ i lt. ap (λ f. f (get_seat n i).fork1) same.same_forks ∙ dead.all_taken i lt;
}

-- A deadlock lasts: whatever is done after it, by any number of steps and cancellations, every
-- philosopher stays before the lock of the second fork, and every fork where it is. So the destructors
-- in `main`, which join the threads, never return.
pub deadlock_forever :
    {n : ℕ} {s t : Table}
    → Deadlocked n s
    → Reach n s t
    → (t.pc ≡ s.pc) × (t.forks ≡ s.forks) × Deadlocked n t
deadlock_forever dead here = (refl, refl, dead)
deadlock_forever {s} dead (later r st) =
    let (p, f, dead') = deadlock_forever {s = s} dead r in
    let same = Step-Frozen dead' st in
    (same.pcs ∙ p, same.same_forks ∙ f, Frozen-Deadlocked dead' same)
