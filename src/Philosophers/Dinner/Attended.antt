-- ===== src/Philosophers/Dinner/Attended.antt =====
-- Which philosophers of the dinner have been started, and which have been joined.
use concurrencycourse.Prelude.{
  ℕ, suc, ◌≤◌, ◌<◌, ◌≡◌, refl, ap, ◌∙◌, ◌≢◌, Option, List, arith, ℕ_discrete, ==_iff,
}
use concurrencycourse.Philosophers.Dinner.{
  Main, Place, Entry, Dinner, Turn, Act, Reach, begin, starts, destroys, joins, over, idle,
  returned, goes_round, leaves, writes, falls_asleep, wakes, takes_first, takes_second, puts_second,
  puts_first, turns, begins, rests, rises, cancels, not_joinable, joined, ends, acts, passes, here,
  later,
}

module _ (n : ℕ) where
  -- Those from here on have not been started.
  abbrev pub started : Main → ℕ
  started (starts k) = k
  started _ = n

  -- Those from here on have been joined.
  abbrev pub left : Main → ℕ
  left (destroys k) = k
  left (joins k) = suc k
  left over = 0
  left _ = n

  pub record Attended (s : Dinner) : Type 0 where
    pub fresh : (i : ℕ) → started s.main ≤ i → s.place i ≡ idle
    pub begun : (i : ℕ) → i < started s.main → s.place i ≢ idle
    pub gone : (i : ℕ) → left s.main ≤ i → i < n → s.place i ≡ returned
    pub in_range : (started s.main ≤ n) × (left s.main ≤ n)

  Turn-moves :
      {i : ℕ} {s : Dinner} {p p' : Place} {forks : List (Option ℕ)} {log : List Entry}
      → Turn n i s p forks log p'
      → (p ≢ idle) × (p ≢ returned) × (p' ≢ idle)
  Turn-moves (goes_round go) = (λ e. cc, λ e. cc, λ e. cc)
  Turn-moves (leaves stop) = (λ e. cc, λ e. cc, λ e. cc)
  Turn-moves (writes {line}) = (λ e. cc, λ e. cc, ground arith)
  Turn-moves (falls_asleep time) = (λ e. cc, λ e. cc, λ e. cc)
  Turn-moves (wakes {nap} le) = (λ e. cc, λ e. cc, ground arith)
  Turn-moves (takes_first free) = (λ e. cc, λ e. cc, λ e. cc)
  Turn-moves (takes_second free) = (λ e. cc, λ e. cc, λ e. cc)
  Turn-moves puts_second = (λ e. cc, λ e. cc, λ e. cc)
  Turn-moves puts_first = (λ e. cc, λ e. cc, λ e. cc)

  Act-Attended : {s t : Dinner} → Act n s t → Attended s → Attended t
  Act-Attended {s} (turns i {p} lt turn) inv =
      let moved = Turn-moves turn in
      record {
        fresh = λ j le. ground (arith, moved, inv.fresh j, inv.fresh i, ==_iff i j);
        begun = λ j lt' e. ground (arith, moved, lt', e, inv.begun j, ==_iff i j);
        gone = λ j le lt'. ground (arith, moved, inv.gone j, inv.gone i, ==_iff i j);
        in_range = inv.in_range;
      }
  Act-Attended (begins k lt at) inv = record {
    fresh = λ j le. ground (arith, at, inv.fresh j);
    begun = λ j lt' e. ground (arith, at, lt', e, inv.begun j, ==_iff k j);
    gone = λ j le lt'. absurd (omega (arith, le, lt'));
    in_range = omega (arith, lt);
  }
  Act-Attended (rests at) inv = record {
    fresh = λ j le. ground (arith, at, inv.fresh j);
    begun = λ j lt' e. ground (arith, at, lt', e, inv.begun j);
    gone = λ j le lt'. absurd (omega (arith, le, lt'));
    in_range = omega arith;
  }
  Act-Attended (rises until at le) inv = record {
    fresh = λ j le'. ground (arith, at, inv.fresh j);
    begun = λ j lt' e. ground (arith, at, lt', e, inv.begun j);
    gone = λ j le' lt'. absurd (omega (arith, le', lt'));
    in_range = omega arith;
  }
  Act-Attended (cancels k at) inv = record {
    fresh = λ j le'. ground (arith, at, inv.fresh j);
    begun = λ j lt' e. ground (arith, at, lt', e, inv.begun j);
    gone = λ j le' lt'. ground (arith, at, inv.gone j);
    in_range = ground (arith, at, inv.in_range);
  }
  Act-Attended (not_joinable k at none_there) inv = record {
    fresh = λ j le'. ground (arith, at, inv.fresh j);
    begun = λ j lt' e. ground (arith, at, lt', e, inv.begun j);
    gone = λ j le' lt'. ground (arith, at, none_there, inv.gone j, inv.begun k, inv.in_range);
    in_range = ground (arith, at, inv.in_range);
  }
  Act-Attended {s} (joined k at gone_there) inv = record {
    fresh = λ j le'. ground (arith, at, inv.fresh j);
    begun = λ j lt' e. ground (arith, at, lt', e, inv.begun j);
    gone = λ j le' lt'. elim (ℕ_discrete j k) [
      | yes same ↦ ap s.place same ∙ gone_there
      | no differ ↦ ground (arith, at, differ, inv.gone j)
    ];
    in_range = ground (arith, at, inv.in_range);
  }
  Act-Attended (ends at) inv = record {
    fresh = λ j le'. ground (arith, at, inv.fresh j);
    begun = λ j lt' e. ground (arith, at, lt', e, inv.begun j);
    gone = λ j le' lt'. ground (arith, at, inv.gone j);
    in_range = ground (arith, at, inv.in_range);
  }

  pub Reach-Attended : {s : Dinner} → Reach n (begin n) s → Attended s
  Reach-Attended here = record {
    fresh = λ i le. refl;
    begun = λ i lt e. omega (arith, lt);
    gone = λ i le lt. absurd (omega (arith, le, lt));
    in_range = omega arith;
  }
  Reach-Attended (later r (acts act)) = Act-Attended act (Reach-Attended r)
  Reach-Attended (later r (passes time)) =
      let inv = Reach-Attended r in
      record { fresh = inv.fresh; begun = inv.begun; gone = inv.gone; in_range = inv.in_range }
