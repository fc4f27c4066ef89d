-- ===== src/Philosophers/Dinner/View.antt =====
-- The dinner as the table of forks, cancellations and stages of its philosophers.
use concurrencycourse.Prelude.{
  ℕ, zero, suc, ◌<◌, ◌≡◌, refl, ap, fun_ext, ◌≢◌, Option, none, some, List, [], ◌∷◌, ◌++◌, arith,
  ==_iff, length, set, length-append, get_or, update, update_ext,
}
use concurrencycourse.Philosophers.{Pc, at_loop, hungry, has_first, eating, leaving, ended, Table}
use concurrencycourse.Philosophers.Dinner.{
  Place, Dinner, make_table, get_fork, thinks, goes_to_eat, requests1, requests2, eats, thought,
  pause, meal, idle, at_test, logs, naps, napping, locks1, locks2, unlocks2, unlocks1, returned,
}

-- A thread that has not been started counts as one at its loop.
abbrev pub stage : Place → Pc
stage idle = at_loop
stage at_test = at_loop
stage (logs thinks) = hungry
stage (logs goes_to_eat) = hungry
stage (logs requests1) = hungry
stage (logs requests2) = has_first
stage (logs eats) = eating
stage (naps thought) = hungry
stage (naps pause) = has_first
stage (naps meal) = eating
stage (napping thought _) = hungry
stage (napping pause _) = has_first
stage (napping meal _) = eating
stage locks1 = hungry
stage locks2 = has_first
stage unlocks2 = eating
stage unlocks1 = leaving
stage returned = ended

abbrev pub owner_of : List (Option ℕ) → ℕ → Option ℕ
owner_of forks k = get_or forks k none

abbrev pub view : Dinner → Table
view s = record { forks = owner_of s.forks; cancelled = s.cancelled; pc = λ i. stage (s.place i) }

owner_of-set_at :
    (forks : List (Option ℕ)) (k : ℕ) (o : Option ℕ)
    → k < length forks
    → owner_of (set forks k o) k ≡ o
owner_of-set_at [] k o lt = absurd (omega (arith, lt))
owner_of-set_at (f ∷ forks) zero o lt = refl
owner_of-set_at (f ∷ forks) (suc k) o lt = owner_of-set_at forks k o (omega (arith, lt))

owner_of-set_ne :
    (forks : List (Option ℕ)) (k : ℕ) (o : Option ℕ) (j : ℕ)
    → j ≢ k
    → owner_of (set forks k o) j ≡ owner_of forks j
owner_of-set_ne [] k o j ne = refl
owner_of-set_ne (f ∷ forks) zero o zero ne = absurd (ne refl)
owner_of-set_ne (f ∷ forks) zero o (suc j) ne = refl
owner_of-set_ne (f ∷ forks) (suc k) o zero ne = refl
owner_of-set_ne (f ∷ forks) (suc k) o (suc j) ne = owner_of-set_ne forks k o j (λ e. ne (ap suc e))

pub owner_of-set :
    (forks : List (Option ℕ)) (k : ℕ) (o : Option ℕ)
    → k < length forks
    → owner_of (set forks k o) ≡ update (owner_of forks) k o
owner_of-set forks k o lt =
    update_ext (owner_of forks) (owner_of (set forks k o)) k o (owner_of-set_at forks k o lt)
      (owner_of-set_ne forks k o)

pub get_fork-owner_of :
    (forks : List (Option ℕ)) (k : ℕ) {o : Option ℕ}
    → get_fork forks k ≡ some o
    → (k < length forks) × (owner_of forks k ≡ o)
get_fork-owner_of [] k e = cc e
get_fork-owner_of (f ∷ forks) zero e = (omega arith, cc e)
get_fork-owner_of (f ∷ forks) (suc k) e =
    let (lt, at) = get_fork-owner_of forks k e in (omega (arith, lt), at)

pub owner_of-get_fork :
    (forks : List (Option ℕ)) (k : ℕ)
    → k < length forks
    → get_fork forks k ≡ some (owner_of forks k)
owner_of-get_fork [] k lt = absurd (omega (arith, lt))
owner_of-get_fork (f ∷ forks) zero lt = refl
owner_of-get_fork (f ∷ forks) (suc k) lt = owner_of-get_fork forks k (omega (arith, lt))

pub stage-update :
    (place : ℕ → Place) (i : ℕ) (p : Place)
    → (λ (j : ℕ). stage (update place i p j)) ≡ update (λ j. stage (place j)) i (stage p)
stage-update place i p = fun_ext (λ j. ground (arith, ==_iff i j))

pub length-make_table : (n : ℕ) → length (make_table n) ≡ n
unfolding make_table
length-make_table zero = refl
length-make_table (suc n) =
    omega (arith, length-append (make_table n) (none ∷ []), length-make_table n)

owner_of-free :
    (forks : List (Option ℕ)) (k : ℕ)
    → owner_of forks k ≡ none
    → owner_of (forks ++ none ∷ []) k ≡ none
owner_of-free [] zero e = refl
owner_of-free [] (suc k) e = refl
owner_of-free (f ∷ forks) zero e = e
owner_of-free (f ∷ forks) (suc k) e = owner_of-free forks k e

pub make_table-free : (n k : ℕ) → owner_of (make_table n) k ≡ none
unfolding make_table
make_table-free zero k = refl
make_table-free (suc n) k = owner_of-free (make_table n) k (make_table-free n k)
