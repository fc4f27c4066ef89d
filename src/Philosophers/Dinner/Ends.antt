-- ===== src/Philosophers/Dinner/Ends.antt =====
-- The end of `main`: what is left of the dinner when the table is destroyed.
use concurrencycourse.Prelude.{ℕ, ◌<◌, ◌≡◌, ap, ◌∙◌, ◌⊎◌, inl, inr, none, some, arith, Option-cases}
use concurrencycourse.Philosophers.{ended, Table}
use concurrencycourse.Philosophers.Held.{Has, Reach-IsHeld}
use concurrencycourse.Philosophers.Dinner.{Dinner, Reach, begin, over, destroys, returned, get_fork}
use concurrencycourse.Philosophers.Dinner.View.{owner_of, view, stage, owner_of-get_fork}
use concurrencycourse.Philosophers.Dinner.Attended.{Reach-Attended}
use concurrencycourse.Philosophers.Dinner.Refines.{dinner-Refines, Reach-HasSeats}

-- Nobody who has ended has a fork.
none_held : (n : ℕ) (t : Table) (k i : ℕ) → ((j : ℕ) → j < n → t.pc j ≡ ended) → ¬ Has n t k i
none_held n t k i all (lt, inl (at, h)) = ground (arith, all i lt, h)
none_held n t k i all (lt, inr (at, h)) = ground (arith, all i lt, h)

module _ {n : ℕ} {s : Dinner} (r : Reach n (begin n) s) where
  all_free : ((i : ℕ) → i < n → s.place i ≡ returned) → (k : ℕ) → owner_of s.forks k ≡ none
  all_free all k = elim (Option-cases (owner_of s.forks k)) [
    | inl free ↦ free
    | inr (i, taken) ↦ absurd (
        none_held n (view s) k i (λ j lt. ap stage (all j lt))
          (Reach-IsHeld (dinner-Refines r) k i taken))
  ]

  -- When `main` destroys the table, and when it has returned, every philosopher's thread has returned,
  -- so none uses the table any more, and every mutex of the table is unlocked, as its destructor wants.
  pub main_over-clean :
      (s.main ≡ destroys 0) ⊎ (s.main ≡ over)
      → ((i : ℕ) → i < n → s.place i ≡ returned)
        × ((k : ℕ) → k < n → get_fork s.forks k ≡ some none)
  main_over-clean at =
      let inv = Reach-Attended n r in
      let all : (i : ℕ) → i < n → s.place i ≡ returned =
        λ i lt. inv.gone i (elim at [ inl e ↦ ground (arith, e) | inr e ↦ ground (arith, e) ]) lt in
      (
        all,
        λ k lt.
            owner_of-get_fork s.forks k (omega (arith, lt, Reach-HasSeats r))
            ∙ ap some (all_free all k),
      )
