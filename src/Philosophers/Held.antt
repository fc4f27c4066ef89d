-- ===== src/Philosophers/Held.antt =====
-- Who has a fork that is taken, among the philosophers of src/6_deadlock_detection.cpp.
use concurrencycourse.Prelude.{ℕ, ◌<◌, ◌≡◌, ◌⊎◌, true, some, arith, ==_iff}
use concurrencycourse.Philosophers.{
  get_seat, eating, Table, Step, thinks, ends, takes_first, takes_second, puts_second, puts_first,
  cancels, init, Reach, here, later,
}
use concurrencycourse.Philosophers.Forks
use concurrencycourse.Philosophers.Forks.{holds_first}

-- Philosopher `i` has fork `k`.
abbrev pub Has : ℕ → Table → ℕ → ℕ → Type 0
Has n s k i =
    (i < n)
    × (((k ≡ (get_seat n i).fork1) × (holds_first (s.pc i) ≡ true))
        ⊎ ((k ≡ (get_seat n i).fork2) × (s.pc i ≡ eating)))

abbrev IsHeld : ℕ → Table → Type 0
IsHeld n s = (k i : ℕ) → s.forks k ≡ some i → Has n s k i

Step-IsHeld : {n : ℕ} {s t : Table} → Step n s t → Forks.Inv n s → IsHeld n s → IsHeld n t
Step-IsHeld (thinks i lt e go) inv held k j h = ground (arith, e, held k j)
Step-IsHeld (ends i lt e go) inv held k j h = ground (arith, e, held k j)
Step-IsHeld {n} (takes_first i lt e free) inv held k j h =
    ground (arith, e, lt, held k j, ==_iff (get_seat n i).fork1 k)
Step-IsHeld {n} (takes_second i lt e free) inv held k j h =
    ground (arith, e, lt, held k j, ==_iff (get_seat n i).fork2 k)
Step-IsHeld {n} (puts_second i lt e) inv held k j h =
    ground (arith, e, held k j, ==_iff (get_seat n i).fork2 k)
Step-IsHeld {n} (puts_first i lt e) inv held k j h =
    ground (arith, e, held k j, ==_iff (get_seat n i).fork1 k)
Step-IsHeld (cancels i) inv held k j h = held k j h

pub Reach-IsHeld : {n : ℕ} {s : Table} → Reach n init s → IsHeld n s
Reach-IsHeld here k i h = cc h
Reach-IsHeld (later r st) k i h = Step-IsHeld st (Forks.Reach-Inv r) (Reach-IsHeld r) k i h
