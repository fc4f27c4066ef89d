-- ===== src/Philosophers/Dinner/Lines.antt =====
-- The lines that a philosopher logs, and which of a round have been written.
use concurrencycourse.Prelude.{
  ℕ, zero, suc, ◌+◌, ◌*◌, ◌≤◌, ◌≡◌, refl, ◌≢◌, List, [], ◌∷◌, ◌++◌, arith, ◌==◌, if◌then◌else◌,
  ==_iff, take,
}
use concurrencycourse.Philosophers.Dinner.{
  Line, Place, Entry, thinks, goes_to_eat, requests1, requests2, eats, thought, pause, meal, logs,
  naps, napping, locks1, locks2, unlocks2, unlocks1, after_line,
}

-- The lines of one philosopher.
abbrev pub lines : ℕ → List Entry → List Line
lines i [] = []
lines i (e ∷ log) = if e.writer == i then e.line ∷ lines i log else lines i log

abbrev pub round : List Line
round = thinks ∷ goes_to_eat ∷ requests1 ∷ requests2 ∷ eats ∷ []

abbrev pub rounds : ℕ → List Line
rounds zero = []
rounds (suc k) = rounds k ++ round

-- How many lines of the round a philosopher has written.
abbrev pub written : Place → ℕ
written (logs thinks) = 0
written (logs goes_to_eat) = 1
written (logs requests1) = 2
written (logs requests2) = 3
written (logs eats) = 4
written (naps thought) = 1
written (naps pause) = 3
written (naps meal) = 5
written (napping thought _) = 1
written (napping pause _) = 3
written (napping meal _) = 5
written locks1 = 3
written locks2 = 4
written unlocks2 = 5
written unlocks1 = 5
written _ = 0

-- How long the round has taken at least.
abbrev pub spent : Place → ℕ
spent (logs thinks) = 0
spent (logs goes_to_eat) = 50
spent (logs requests1) = 50
spent (logs requests2) = 100
spent (logs eats) = 100
spent (naps thought) = 0
spent (naps pause) = 50
spent (naps meal) = 100
spent (napping thought _) = 0
spent (napping pause _) = 50
spent (napping meal _) = 100
spent locks1 = 50
spent locks2 = 100
spent unlocks2 = 150
spent unlocks1 = 150
spent _ = 0

abbrev pub Sleeps : ℕ → Place → Type 0
Sleeps k (napping nap until) = 150 * k + spent (naps nap) + 50 ≤ until
Sleeps k _ = Unit

-- In round `k`.
pub record InRound (i k : ℕ) (log : List Entry) (p : Place) (now : ℕ) : Type 0 where
  pub wrote : lines i log ≡ rounds k ++ take (written p) round
  pub took : 150 * k + spent p ≤ now
  pub sleeps : Sleeps k p

pub lines-own :
    (i : ℕ) (log : List Entry) (line : Line)
    → lines i (log ++ record { writer = i; line = line } ∷ []) ≡ lines i log ++ line ∷ []
lines-own i [] line = ground (arith, ==_iff i i)
lines-own i (e ∷ log) line = ground (arith, lines-own i log line)

pub lines-other :
    (i j : ℕ) (log : List Entry) (line : Line)
    → j ≢ i
    → lines j (log ++ record { writer = i; line = line } ∷ []) ≡ lines j log
lines-other i j [] line ne = ground (arith, ==_iff i j)
lines-other i j (e ∷ log) line ne = ground (arith, lines-other i j log line ne)

pub line-take :
    (line : Line)
    → take (written (logs line)) round ++ line ∷ [] ≡ take (written (after_line line)) round
line-take thinks = refl
line-take goes_to_eat = refl
line-take requests1 = refl
line-take requests2 = refl
line-take eats = refl
