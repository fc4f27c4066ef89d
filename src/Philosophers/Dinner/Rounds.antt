-- ===== src/Philosophers/Dinner/Rounds.antt =====
-- What each philosopher logs, and how long the rounds take.
use concurrencycourse.Prelude.{
  ℕ, suc, ◌+◌, ◌*◌, ◌≤◌, ◌≡◌, refl, sym, ap, ◌∙◌, ◌≢◌, Option, List, [], ◌∷◌, ◌++◌, append_assoc,
  append-nil, arith, take, update_elim,
}
use concurrencycourse.Philosophers.Dinner.{
  Place, starts, Entry, Dinner, Turn, Act, Reach, begin, thinks, eats, pause, idle, at_test, logs,
  naps, napping, unlocks1, returned, after_nap, between, goes_round, leaves, writes, falls_asleep,
  wakes, takes_first, takes_second, puts_second, puts_first, turns, begins, rests, rises, cancels,
  not_joinable, joined, ends, acts, passes, here, later,
}
use concurrencycourse.Philosophers.Dinner.Attended.{Reach-Attended}
use concurrencycourse.Philosophers.Dinner.Lines.{
  lines, round, rounds, written, spent, Sleeps, InRound, lines-own, lines-other, line-take,
}

-- A philosopher goes on in the same round, and writes nothing.
next_place :
    {i k now : ℕ} {log : List Entry} {p : Place} (p' : Place)
    → InRound i k log p now
    → written p' ≡ written p
    → 150 * k + spent p' ≤ now
    → Sleeps k p'
    → (k' : ℕ) × InRound i k' log p' now
next_place {k} p' inv same took sleeps =
    (k, record { wrote = rw same inv.wrote; took = took; sleeps = sleeps })

Turn-round :
    {n i k : ℕ} {s : Dinner} {p p' : Place} {forks : List (Option ℕ)} {log : List Entry}
    → Turn n i s p forks log p'
    → InRound i k s.log p s.now
    → (k' : ℕ) × InRound i k' log p' s.now
Turn-round {i} {k} {s} (writes {line}) inv = (
  k,
  record {
    wrote =
        lines-own i s.log line
        ∙ ap (λ xs. xs ++ line ∷ []) inv.wrote
        ∙ append_assoc (rounds k) (take (written (logs line)) round) (line ∷ [])
        ∙ ap (◌++◌ (rounds k)) (line-take line);
    took = ground (arith, inv.took);
    sleeps = ground arith;
  },
)
Turn-round (goes_round go) inv = next_place (logs thinks) inv refl inv.took tt
Turn-round (leaves stop) inv = next_place returned inv refl inv.took tt
Turn-round {s} (falls_asleep {nap} (between time l u)) inv =
    next_place (napping nap (s.now + time)) inv (ground arith) (ground (arith, inv.took))
      (ground (arith, inv.took, l))
Turn-round (wakes {nap} le) inv =
    next_place (after_nap nap) inv (ground arith) (ground (arith, inv.took, inv.sleeps))
      (ground arith)
Turn-round (takes_first free) inv = next_place (naps pause) inv refl inv.took tt
Turn-round (takes_second free) inv = next_place (logs eats) inv refl inv.took tt
Turn-round puts_second inv = next_place unlocks1 inv refl inv.took tt
Turn-round {k} puts_first inv = (
  suc k,
  record {
    wrote = inv.wrote ∙ sym (append-nil (rounds k ++ round));
    took = omega (arith, inv.took);
    sleeps = tt;
  },
)

Turn-elsewhere :
    {n i : ℕ} {s : Dinner} {p p' : Place} {forks : List (Option ℕ)} {log : List Entry} (j : ℕ)
    → Turn n i s p forks log p'
    → j ≢ i
    → lines j log ≡ lines j s.log
Turn-elsewhere {i} {s} j (writes {line}) ne = lines-other i j s.log line ne
Turn-elsewhere j (goes_round go) ne = refl
Turn-elsewhere j (leaves stop) ne = refl
Turn-elsewhere j (falls_asleep time) ne = refl
Turn-elsewhere j (wakes le) ne = refl
Turn-elsewhere j (takes_first free) ne = refl
Turn-elsewhere j (takes_second free) ne = refl
Turn-elsewhere j puts_second ne = refl
Turn-elsewhere j puts_first ne = refl

abbrev Rounds : Dinner → Type 0
Rounds s = (i : ℕ) → (k : ℕ) × InRound i k s.log (s.place i) s.now

later_on :
    {i k : ℕ} {log : List Entry} {p : Place} {now : ℕ} (time : ℕ)
    → InRound i k log p now
    → InRound i k log p (now + time)
later_on time inv = record {
  wrote = inv.wrote;
  took = omega (arith, inv.took);
  sleeps = inv.sleeps;
}

module _ {n : ℕ} where
  Act-Rounds :
      {s t : Dinner}
      → Act n s t
      → ((i : ℕ) → s.main ≡ starts i → s.place i ≡ idle)
      → Rounds s
      → Rounds t
  Act-Rounds {s} (turns i {forks} {log} {p} lt turn) fresh inv =
      update_elim (λ j q. (k : ℕ) × InRound j k log q s.now) s.place i p (Turn-round turn (inv i).1)
        (λ j ne.
          let (k, in_k) = inv j in
          (
            k,
            record {
              wrote = Turn-elsewhere j turn ne ∙ in_k.wrote;
              took = in_k.took;
              sleeps = in_k.sleeps;
            },
          ))
  Act-Rounds {s} (begins k lt at) fresh inv =
      update_elim (λ j q. (k : ℕ) × InRound j k s.log q s.now) s.place k at_test
        (next_place at_test (inv k).1 (ground (arith, fresh k at))
          (ground (arith, fresh k at, (inv k).1.took)) tt)
        (λ j ne. inv j)
  Act-Rounds (rests at) fresh inv = inv
  Act-Rounds (rises until at le) fresh inv = inv
  Act-Rounds (cancels k at) fresh inv = inv
  Act-Rounds (not_joinable k at none_there) fresh inv = inv
  Act-Rounds (joined k at gone_there) fresh inv = inv
  Act-Rounds (ends at) fresh inv = inv

  Reach-Rounds : {s : Dinner} → Reach n (begin n) s → Rounds s
  Reach-Rounds here i = (0, record { wrote = refl; took = omega arith; sleeps = tt })
  Reach-Rounds (later r (acts act)) i =
      let inv = Reach-Attended n r in
      Act-Rounds act (λ j at. inv.fresh j (ground (arith, at))) (Reach-Rounds r) i
  Reach-Rounds (later r (passes time)) i = let (k, inv) = Reach-Rounds r i in (k, later_on time inv)

  -- At any time each philosopher has logged a number of whole rounds, that is that the philosopher
  -- thinks, goes to eat, requests the one fork and then the other, and eats, and of the round under way
  -- the lines before the place where the thread stands. Since the program began at least 150 ms have
  -- passed for each whole round, and 50 ms more for each sleep of the round under way that is over.
  pub rounds_in_order :
      {s : Dinner} (i : ℕ)
      → Reach n (begin n) s
      → (k : ℕ) × (lines i s.log ≡ rounds k ++ take (written (s.place i)) round)
        × (150 * k + spent (s.place i) ≤ s.now)
  rounds_in_order i r = let (k, inv) = Reach-Rounds r i in (k, inv.wrote, inv.took)
