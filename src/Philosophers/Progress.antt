-- ===== src/Philosophers/Progress.antt =====
-- Which philosophers of src/6_deadlock_detection.cpp can move, in every reachable state.
use native.Mathlib.Nat.{mod-eq_of_lt}
use concurrencycourse.Prelude.{
  ℕ, zero, suc, ◌+◌, ◌-◌, ◌≤◌, ◌<◌, ◌≡◌, refl, sym, ap, ◌∙◌, ◌≢◌, ◌⊎◌, inl, inr, arith, dec_lt,
  Bool-cases, Option-cases,
}
use concurrencycourse.Philosophers.{
  get_seat, Pc, at_loop, hungry, has_first, eating, leaving, ended, Table, Step, thinks, ends,
  takes_first, takes_second, puts_second, puts_first, init, Reach,
}
use concurrencycourse.Philosophers.Forks
use concurrencycourse.Philosophers.Forks.{holds_first, next_seat}
use concurrencycourse.Philosophers.Held.{Has, Reach-IsHeld}
use concurrencycourse.Philosophers.Deadlock.{Deadlocked}

-- A philosopher moves.
pub record Moves (n : ℕ) (s : Table) : Type 0 where
  pub philosopher : ℕ
  pub is_one : philosopher < n
  pub after : Table
  pub step : Step n s after
  pub moved : after.pc philosopher ≢ s.pc philosopher

fork1_lem : (n i : ℕ) → i < n → (get_seat n i).fork1 ≡ i
unfolding get_seat
fork1_lem n i lt = mod-eq_of_lt lt

fork2-inside : (n i : ℕ) → i + 1 < n → (get_seat n i).fork2 ≡ i + 1
unfolding get_seat
fork2-inside n i lt = mod-eq_of_lt lt

fork2-last : (n i : ℕ) → i + 1 ≡ n → (get_seat n i).fork2 ≡ 0
unfolding get_seat
fork2-last n i e = grind (arith, e)

module _ {n : ℕ} {s : Table} (r : Reach n init s) where
  -- One who has both forks, or only the first again, gives one back.
  gives_back : (i : ℕ) → i < n → (s.pc i ≡ eating) ⊎ (s.pc i ≡ leaving) → Moves n s
  gives_back i lt (inl e) = record {
    philosopher = i;
    is_one = lt;
    after = _;
    step = puts_second i lt e;
    moved = λ q. ground (arith, q, e);
  }
  gives_back i lt (inr e) = record {
    philosopher = i;
    is_one = lt;
    after = _;
    step = puts_first i lt e;
    moved = λ q. ground (arith, q, e);
  }

  -- The first fork is free, or a neighbour eats with it.
  hungry-Moves : (i : ℕ) → i < n → s.pc i ≡ hungry → Moves n s
  hungry-Moves i lt e = elim (Option-cases (s.forks (get_seat n i).fork1)) [
    | inl free ↦ record {
      philosopher = i;
      is_one = lt;
      after = _;
      step = takes_first i lt e free;
      moved = λ q. ground (arith, q, e);
    }
    | inr (j, taken) ↦ blocked j (Reach-IsHeld r (get_seat n i).fork1 j taken)
  ]
    where
      blocked : (j : ℕ) → Has n s (get_seat n i).fork1 j → Moves n s
      blocked j (lt', inl (same, holds)) =
          let is : i ≡ j = omega (arith, same, fork1_lem n i lt, fork1_lem n j lt') in
          absurd (ground (arith, is, holds, e))
      blocked j (lt', inr (same, eats)) = gives_back j lt' (inl eats)

  -- The second fork is free, or its owner moves, or its owner has it as the first fork and waits.
  waiting :
      (i : ℕ) → i < n → s.pc i ≡ has_first → Moves n s ⊎ (s.pc (get_seat n i).fork2 ≡ has_first)
  waiting i lt e = elim (Option-cases (s.forks (get_seat n i).fork2)) [
    | inl free ↦ inl (record {
      philosopher = i;
      is_one = lt;
      after = _;
      step = takes_second i lt e free;
      moved = λ q. ground (arith, q, e);
    })
    | inr (j, taken) ↦ blocked j (s.pc j) refl (Reach-IsHeld r (get_seat n i).fork2 j taken)
  ]
    where
      blocked :
          (j : ℕ) (p : Pc)
          → s.pc j ≡ p
          → Has n s (get_seat n i).fork2 j
          → Moves n s ⊎ (s.pc (get_seat n i).fork2 ≡ has_first)
      blocked j has_first at (lt', inl (same, holds)) =
          inr (ap s.pc (same ∙ fork1_lem n j lt') ∙ at)
      blocked j eating at (lt', h) = inl (gives_back j lt' (inl at))
      blocked j leaving at (lt', h) = inl (gives_back j lt' (inr at))
      blocked j p at (lt', inl (same, holds)) = absurd (ground (arith, at, holds))
      blocked j p at (lt', inr (same, eats)) = inl (gives_back j lt' (inl eats))

  -- Any philosopher has ended, waits for the second fork, or there is a move.
  stands :
      (i : ℕ) → i < n → (p : Pc) → s.pc i ≡ p → Moves n s ⊎ (s.pc i ≡ ended) ⊎ (s.pc i ≡ has_first)
  stands i lt at_loop at = elim (Bool-cases (s.cancelled i)) [
    | inl stop ↦ inl (record {
      philosopher = i;
      is_one = lt;
      after = _;
      step = ends i lt at stop;
      moved = λ q. ground (arith, q, at);
    })
    | inr go ↦ inl (record {
      philosopher = i;
      is_one = lt;
      after = _;
      step = thinks i lt at go;
      moved = λ q. ground (arith, q, at);
    })
  ]
  stands i lt hungry at = inl (hungry-Moves i lt at)
  stands i lt has_first at = inr (inr at)
  stands i lt eating at = inl (gives_back i lt (inl at))
  stands i lt leaving at = inl (gives_back i lt (inr at))
  stands i lt ended at = inr (inl at)

  -- If one waits, those behind wait up to the end of the table, or there is a move.
  waiting_on : (i d : ℕ) → i + d < n → s.pc i ≡ has_first → Moves n s ⊎ (s.pc (i + d) ≡ has_first)
  waiting_on i zero lt at = inr (ap s.pc (omega arith) ∙ at)
  waiting_on i (suc d) lt at = elim (waiting_on i d (omega (arith, lt)) at) [
    | inl mv ↦ inl mv
    | inr at' ↦ elim (waiting (i + d) (omega (arith, lt)) at') [
      | inl mv ↦ inl mv
      | inr at'' ↦ inr (ap s.pc (omega (arith, fork2-inside n (i + d) (omega (arith, lt)))) ∙ at'')
    ]
  ]

  -- If one waits, the first one waits, or there is a move.
  waiting_round :
      (i last : ℕ) → i < n → last + 1 ≡ n → s.pc i ≡ has_first → Moves n s ⊎ (s.pc 0 ≡ has_first)
  waiting_round i last lt e at = elim (waiting_on i (last - i) (omega (arith, lt, e)) at) [
    | inl mv ↦ inl mv
    | inr at' ↦ elim (waiting last (omega (arith, e)) (ap s.pc (omega (arith, lt, e)) ∙ at')) [
      | inl mv ↦ inl mv
      | inr at'' ↦ inr (ap s.pc (sym (fork2-last n last e)) ∙ at'')
    ]
  ]

  -- Of the first `m`, all wait if the first one does, or there is a move.
  all_waiting :
      (m : ℕ) → m ≤ n → s.pc 0 ≡ has_first → Moves n s ⊎ ((i : ℕ) → i < m → s.pc i ≡ has_first)
  all_waiting zero le at = inr (λ i lt. absurd (omega (arith, lt)))
  all_waiting (suc m) le at = elim (all_waiting m (omega (arith, le)) at) [
    | inl mv ↦ inl mv
    | inr all ↦ elim (waiting_on 0 m (omega (arith, le)) at) [
      | inl mv ↦ inl mv
      | inr at' ↦ inr (λ i lt. elim (dec_lt i m) [
        | yes lt' ↦ all i lt'
        | no ge ↦ ap s.pc (omega (arith, ge, lt)) ∙ at'
      ])
    ]
  ]

  -- Of the first `m`, all have ended, or one waits, or there is a move.
  all_ended :
      (m : ℕ)
      → m ≤ n
      → Moves n s ⊎ ((i : ℕ) × (i < n) × (s.pc i ≡ has_first)) ⊎ ((i : ℕ) → i < m → s.pc i ≡ ended)
  all_ended zero le = inr (inr (λ i lt. absurd (omega (arith, lt))))
  all_ended (suc m) le = elim (all_ended m (omega (arith, le))) [
    | inl mv ↦ inl mv
    | inr (inl one) ↦ inr (inl one)
    | inr (inr all) ↦ elim (stands m (omega (arith, le)) (s.pc m) refl) [
      | inl mv ↦ inl mv
      | inr (inr at) ↦ inr (inl (m, omega (arith, le), at))
      | inr (inl at) ↦ inr (
          inr (λ i lt. elim (dec_lt i m) [
            | yes lt' ↦ all i lt'
            | no ge ↦ ap s.pc (omega (arith, ge, lt)) ∙ at
          ]))
    ]
  ]

  deadlock : (i : ℕ) → i < n → s.pc i ≡ has_first → Moves n s ⊎ Deadlocked n s
  deadlock i lt at = elim (waiting_round i (n - 1) lt (omega (arith, lt)) at) [
    | inl mv ↦ inl mv
    | inr at' ↦ elim (all_waiting n (omega arith) at') [
      | inl mv ↦ inl mv
      | inr all ↦ inr (record {
        all_wait = all;
        all_taken = λ j lt'. (Forks.Reach-Inv r).first j (ap holds_first (all j lt'));
      })
    ]
  ]

  -- In every reachable state, with any number of seats: a philosopher can move, or all have ended, or
  -- it is the deadlock in which each has the first fork and waits for the second.
  pub moves_or_stuck : Moves n s ⊎ ((i : ℕ) → i < n → s.pc i ≡ ended) ⊎ Deadlocked n s
  moves_or_stuck = elim (all_ended n (omega arith)) [
    | inl mv ↦ inl mv
    | inr (inr all) ↦ inr (inl all)
    | inr (inl (i, lt, at)) ↦ elim (deadlock i lt at) [
      | inl mv ↦ inl mv
      | inr dead ↦ inr (inr dead)
    ]
  ]
