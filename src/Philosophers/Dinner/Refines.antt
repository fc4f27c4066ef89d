-- ===== src/Philosophers/Dinner/Refines.antt =====
-- Every run of the dinner is one of the table of src/6_deadlock_detection.cpp.
use native.Mathlib.Nat.{mod-lt}
use concurrencycourse.Prelude.{
  ℕ, ◌+◌, ◌<◌, ◌≡◌, refl, sym, ap, subst, ◌∙◌, fun_ext, ◌⊎◌, inl, inr, false, Option, none, some,
  List, arith, ==_iff, length, set, update, length-set,
}
use concurrencycourse.Philosophers.{
  get_seat, Pc, at_loop, hungry, has_first, eating, leaving, ended, Table, init,
}
use concurrencycourse.Philosophers
use concurrencycourse.Philosophers.Dinner.{
  Place, Entry, Dinner, Turn, Act, Step, Reach, begin, thinks, eats, pause, at_test, logs, naps,
  napping, unlocks1, returned, after_line, after_nap, goes_round, leaves, writes, falls_asleep,
  wakes, takes_first, takes_second, puts_second, puts_first, turns, begins, rests, rises, cancels,
  not_joinable, joined, ends, acts, passes, here, later, Reach-trans,
}
use concurrencycourse.Philosophers.Dinner.Attended.{Attended, Reach-Attended}
use concurrencycourse.Philosophers.Dinner.View.{
  stage, owner_of, view, owner_of-set, get_fork-owner_of, stage-update, length-make_table,
  make_table-free,
}

-- At most one step.
abbrev pub Leads : ℕ → Table → Table → Type 0
Leads n s t = (t ≡ s) ⊎ Philosophers.Step n s t

same-stage :
    (place : ℕ → Place) (i : ℕ) (p : Place)
    → stage p ≡ stage (place i)
    → ◌≡◌ {A = ℕ → Pc} (λ j. stage (update place i p j)) (λ j. stage (place j))
same-stage place i p e = fun_ext (λ j. ground (arith, e, ==_iff i j))

module _ (n i : ℕ) (s : Dinner) where
  abbrev after : (ℕ → Option ℕ) → Place → Table
  after forks p = record {
    forks = forks;
    cancelled = s.cancelled;
    pc = λ j. stage (update s.place i p j);
  }

  stays : (p : Place) → stage p ≡ stage (s.place i) → Leads n (view s) (after (owner_of s.forks) p)
  stays p e = inl (
      ap (λ (pc : ℕ → Pc). record { forks = owner_of s.forks; cancelled = s.cancelled; pc = pc })
        (same-stage s.place i p e))

  moves :
      (forks : ℕ → Option ℕ) (p : Place)
      → Philosophers.Step n (view s) (record {
        forks = forks;
        cancelled = s.cancelled;
        pc = update (λ j. stage (s.place j)) i (stage p);
      })
      → Leads n (view s) (after forks p)
  moves forks p st = inr (
      subst
        (λ (pc : ℕ → Pc).
          Philosophers.Step n (view s) (record { forks = forks; cancelled = s.cancelled; pc = pc }))
        (sym (stage-update s.place i p)) st)

  moves_fork :
      (k : ℕ) (o : Option ℕ) (p : Place)
      → k < length s.forks
      → Philosophers.Step n (view s) (record {
        forks = update (owner_of s.forks) k o;
        cancelled = s.cancelled;
        pc = update (λ j. stage (s.place j)) i (stage p);
      })
      → Leads n (view s) (after (owner_of (set s.forks k o)) p)
  moves_fork k o p lt st =
      subst (λ (forks : ℕ → Option ℕ). Leads n (view s) (after forks p))
        (sym (owner_of-set s.forks k o lt)) (moves (update (owner_of s.forks) k o) p st)

  module _ (lt : i < n) (seats : length s.forks ≡ n) where
    fork1-in : (get_seat n i).fork1 < length s.forks
    unfolding get_seat
    fork1-in = rw seats (mod-lt i (omega (arith, lt)))

    fork2-in : (get_seat n i).fork2 < length s.forks
    unfolding get_seat
    fork2-in = rw seats (mod-lt (i + 1) (omega (arith, lt)))

    Turn-Leads :
        {p p' : Place} {forks : List (Option ℕ)} {log : List Entry}
        → Turn n i s p forks log p'
        → s.place i ≡ p
        → Leads n (view s) (after (owner_of forks) p')
    Turn-Leads (goes_round go) at =
        moves _ (logs thinks) (Philosophers.thinks i lt (ap stage at) go)
    Turn-Leads (leaves stop) at = moves _ returned (Philosophers.ends i lt (ap stage at) stop)
    Turn-Leads (writes {line}) at = stays (after_line line) (ground (arith, at))
    Turn-Leads (falls_asleep {nap} {time} slept) at =
        stays (napping nap (s.now + time)) (ground (arith, at))
    Turn-Leads (wakes {nap} {until} le) at = stays (after_nap nap) (ground (arith, at))
    Turn-Leads (takes_first free) at =
        moves_fork _ (some i) (naps pause) fork1-in
          (Philosophers.takes_first i lt (ap stage at) (get_fork-owner_of s.forks _ free).1)
    Turn-Leads (takes_second free) at =
        moves_fork _ (some i) (logs eats) fork2-in
          (Philosophers.takes_second i lt (ap stage at) (get_fork-owner_of s.forks _ free).1)
    Turn-Leads puts_second at =
        moves_fork _ none unlocks1 fork2-in (Philosophers.puts_second i lt (ap stage at))
    Turn-Leads puts_first at =
        moves_fork _ none at_test fork1-in (Philosophers.puts_first i lt (ap stage at))

view-begin : (n : ℕ) → view (begin n) ≡ init
view-begin n =
    ap
      (λ (forks : ℕ → Option ℕ). record {
        forks = forks;
        cancelled = λ (i : ℕ). false;
        pc = λ (i : ℕ). at_loop;
      })
      (fun_ext (make_table-free n))

module _ {n : ℕ} where
  Turn-HasSeats :
      {i : ℕ} {s : Dinner} {p p' : Place} {forks : List (Option ℕ)} {log : List Entry}
      → Turn n i s p forks log p'
      → length s.forks ≡ n
      → length forks ≡ n
  Turn-HasSeats {i} {s} (takes_first free) e = length-set s.forks (get_seat n i).fork1 (some i) ∙ e
  Turn-HasSeats {i} {s} (takes_second free) e = length-set s.forks (get_seat n i).fork2 (some i) ∙ e
  Turn-HasSeats {i} {s} puts_second e = length-set s.forks (get_seat n i).fork2 none ∙ e
  Turn-HasSeats {i} {s} puts_first e = length-set s.forks (get_seat n i).fork1 none ∙ e
  Turn-HasSeats _ e = e

  Step-HasSeats : {s t : Dinner} → Step n s t → length s.forks ≡ n → length t.forks ≡ n
  Step-HasSeats (acts (turns i lt turn)) e = Turn-HasSeats turn e
  Step-HasSeats (acts (begins k lt at)) e = e
  Step-HasSeats (acts (rests at)) e = e
  Step-HasSeats (acts (rises w at le)) e = e
  Step-HasSeats (acts (cancels k at)) e = e
  Step-HasSeats (acts (not_joinable k at i)) e = e
  Step-HasSeats (acts (joined k at i)) e = e
  Step-HasSeats (acts (ends at)) e = e
  Step-HasSeats (passes time) e = e

  pub Reach-HasSeats : {s : Dinner} → Reach n (begin n) s → length s.forks ≡ n
  Reach-HasSeats here = length-make_table n
  Reach-HasSeats (later r st) = Step-HasSeats st (Reach-HasSeats r)

  Act-Leads :
      {s t : Dinner} → Act n s t → Attended n s → length s.forks ≡ n → Leads n (view s) (view t)
  Act-Leads {s} (turns i lt turn) inv seats = Turn-Leads n i s lt seats turn refl
  Act-Leads {s} (begins k lt at) inv seats =
      stays n k s at_test (ap stage (sym (inv.fresh k (ground (arith, at)))))
  Act-Leads (rests at) inv seats = inl refl
  Act-Leads (rises until at le) inv seats = inl refl
  Act-Leads (cancels k at) inv seats = inr (Philosophers.cancels k)
  Act-Leads (not_joinable k at none_there) inv seats = inl refl
  Act-Leads (joined k at gone_there) inv seats = inl refl
  Act-Leads (ends at) inv seats = inl refl

  Reach-leads : {s t u : Table} → Philosophers.Reach n s t → Leads n t u → Philosophers.Reach n s u
  Reach-leads {s} r (inl same) = subst (Philosophers.Reach n s) (sym same) r
  Reach-leads r (inr st) = Philosophers.later r st

  -- From a state that can be reached.
  pub goes_on-Refines :
      {s t : Dinner} → Reach n (begin n) s → Reach n s t → Philosophers.Reach n (view s) (view t)
  goes_on-Refines before here = Philosophers.here
  goes_on-Refines before (later r (acts act)) =
      let so_far = Reach-trans before r in
      Reach-leads (goes_on-Refines before r)
        (Act-Leads act (Reach-Attended n so_far) (Reach-HasSeats so_far))
  goes_on-Refines before (later r (passes time)) = goes_on-Refines before r

  -- The program keeps to the table of the philosophers: with any number of them, however its threads
  -- interleave and however long they sleep, the owners of the forks, the cancellations and the stages
  -- of the philosophers are at any time a state that the philosophers of the table can reach.
  pub dinner-Refines : {s : Dinner} → Reach n (begin n) s → Philosophers.Reach n init (view s)
  dinner-Refines {s} r =
      subst (λ (t : Table). Philosophers.Reach n t (view s)) (view-begin n) (goes_on-Refines here r)
