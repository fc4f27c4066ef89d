-- ===== src/Philosophers/Forks.antt =====
-- Who has which fork, in every reachable state.
use native.Mathlib.Nat.{mod-eq_of_lt}
use concurrencycourse.Prelude.{
  ℕ, ◌+◌, ◌%◌, ◌<◌, ◌≡◌, ap, ◌≢◌, Bool, true, false, some, arith, dec_lt, ==_iff,
}
use concurrencycourse.Philosophers.{
  get_seat, Pc, has_first, eating, leaving, Table, Step, thinks, ends, takes_first, takes_second,
  puts_second, puts_first, cancels, init, Reach, here, later,
}

abbrev pub holds_first : Pc → Bool
holds_first has_first = true
holds_first eating = true
holds_first leaving = true
holds_first _ = false

-- Each philosopher has the forks that the place in the loop says.
pub record Inv (n : ℕ) (s : Table) : Type 0 where
  pub first : (i : ℕ) → holds_first (s.pc i) ≡ true → s.forks (get_seat n i).fork1 ≡ some i
  pub second : (i : ℕ) → s.pc i ≡ eating → s.forks (get_seat n i).fork2 ≡ some i
  pub apart : (i : ℕ) → s.pc i ≡ eating → (get_seat n i).fork1 ≢ (get_seat n i).fork2

Step-Inv : {n : ℕ} {s t : Table} → Step n s t → Inv n s → Inv n t
Step-Inv {n} (thinks i lt e _) inv = record {
  first = λ j h. ground (arith, e, inv.first j);
  second = λ j h. ground (arith, e, inv.second j);
  apart = λ j h q. ground (arith, e, q, inv.apart j);
}
Step-Inv {n} (ends i lt e _) inv = record {
  first = λ j h. ground (arith, e, inv.first j);
  second = λ j h. ground (arith, e, inv.second j);
  apart = λ j h q. ground (arith, e, q, inv.apart j);
}
Step-Inv {n} (takes_first i lt e free) inv = record {
  first = λ j h. ground (arith, e, free, inv.first j, ==_iff i j);
  second = λ j h. ground (arith, e, free, inv.second j);
  apart = λ j h q. ground (arith, e, q, inv.apart j);
}
Step-Inv {n} (takes_second i lt e free) inv = record {
  first = λ j h. ground (arith, e, free, inv.first j, inv.first i);
  second = λ j h. ground (arith, e, free, inv.second j, ==_iff i j);
  apart = λ j h q. ground (arith, e, free, q, inv.first i, inv.first j, inv.apart j, ==_iff i j);
}
Step-Inv {n} (puts_second i lt e) inv = record {
  first = λ j h. ground (arith, e, inv.first j, inv.second i, inv.apart i, ==_iff i j);
  second = λ j h. ground (arith, e, inv.second j, inv.second i);
  apart = λ j h q. ground (arith, e, q, inv.apart j);
}
Step-Inv {n} (puts_first i lt e) inv = record {
  first = λ j h. ground (arith, e, inv.first j, inv.first i);
  second = λ j h. ground (arith, e, inv.second j, inv.first i);
  apart = λ j h q. ground (arith, e, q, inv.apart j);
}
Step-Inv {n} (cancels i) inv = record { first = inv.first; second = inv.second; apart = inv.apart }

pub Reach-Inv : {n : ℕ} {s : Table} → Reach n init s → Inv n s
Reach-Inv here = record { first = λ i h. cc; second = λ i h. cc; apart = λ i h. cc }
Reach-Inv (later r st) = Step-Inv st (Reach-Inv r)

-- A seat's second fork is the first fork of the next seat.
pub next_seat : (n i : ℕ) → (get_seat n ((i + 1) % n)).fork1 ≡ (get_seat n i).fork2
unfolding get_seat
next_seat n i = grind arith

next_ne : (n i : ℕ) → 1 < n → i < n → i ≢ (i + 1) % n
next_ne n i many lt e = elim (dec_lt (i + 1) n) [
  | yes inside ↦ absurd (omega (arith, mod-eq_of_lt inside))
  | no at_end ↦ let full : i + 1 ≡ n = omega arith in absurd (grind (arith, full))
]

-- At a table of two seats or more, two philosophers of neighbouring seats never eat at the same time.
pub neighbours_exclude :
    {n : ℕ} {s : Table} (i : ℕ)
    → Reach n init s
    → 1 < n
    → i < n
    → s.pc i ≡ eating
    → s.pc ((i + 1) % n) ≢ eating
neighbours_exclude {n} {s} i r many lt eats eats' =
    let inv = Reach-Inv r in
    let mine = inv.second i eats in
    let next_one = inv.first ((i + 1) % n) (ground (arith, eats')) in
    let same : i ≡ (i + 1) % n = ground (arith, mine, next_one, ap s.forks (next_seat n i)) in
    next_ne n i many lt same
