-- ===== src/Tests/Dinners.antt =====
-- The program of src/6_deadlock_detection.cpp with its three philosophers.
use concurrencycourse.Prelude.{
  ℕ, ◌+◌, ◌*◌, ◌≤◌, ◌<◌, ◌≡◌, refl, ◌≢◌, ◌⊎◌, inl, none, some, ◌++◌, arith, length, take,
}
use concurrencycourse.Philosophers.{init, get_seat}
use concurrencycourse.Logger.{digits}
use concurrencycourse.Prelude.Texts.{codes}
use concurrencycourse.Philosophers
use concurrencycourse.Philosophers.Deadlock.{Deadlocked}
use concurrencycourse.Philosophers.Dinner.{
  Dinner, Reach, begin, names, message, requests2, text_of, request_text, between, goes_round,
  writes, falls_asleep, wakes, turns, begins, rests, rises, cancels, joined, leaves, acts, passes,
  here, later, over, returned, get_fork,
}
use concurrencycourse.Philosophers.Dinner.View.{view}
use concurrencycourse.Philosophers.Dinner.Refines.{dinner-Refines}
use concurrencycourse.Philosophers.Dinner.Ends.{main_over-clean}
use concurrencycourse.Philosophers.Dinner.Lines.{lines, rounds, round, written, spent}
use concurrencycourse.Philosophers.Dinner.Rounds.{rounds_in_order}
use concurrencycourse.Philosophers.Dinner.Hangs.{can_hang}
use concurrencycourse.Philosophers.Dinner.Progress.{CanGoOn, dinner_goes_on}

abbrev seat_count : ℕ
seat_count = length names

-- Kant has thought for 70 ms, and is going to eat.
abbrev one_round : (s : Dinner) × Reach seat_count (begin seat_count) s
one_round = (
  _,
  later
      (later
        (later
          (later
            (later
              (later (later here (acts (begins 0 (omega arith) refl)))
                (acts (turns 0 (omega arith) (goes_round refl))))
              (acts (turns 0 (omega arith) writes)))
            (acts (turns 0 (omega arith) (falls_asleep (between 60 (omega arith) (omega arith))))))
          (passes 70))
        (acts (turns 0 (omega arith) (wakes (omega arith)))))
      (acts (turns 0 (omega arith) writes)),
)

dinner-Refines_example : Philosophers.Reach seat_count init (view one_round.0)
dinner-Refines_example = dinner-Refines one_round.1

rounds_in_order_example :
    (k : ℕ) × (lines 0 one_round.0.log ≡ rounds k ++ take (written (one_round.0.place 0)) round)
    × (150 * k + spent (one_round.0.place 0) ≤ one_round.0.now)
rounds_in_order_example = rounds_in_order 0 one_round.1

dinner_goes_on_example :
    (one_round.0.main ≡ over)
    ⊎ CanGoOn seat_count one_round.0
    ⊎ Deadlocked seat_count (view one_round.0)
dinner_goes_on_example = dinner_goes_on one_round.1

can_hang_example :
    (s : Dinner) × Reach seat_count (begin seat_count) s
    × Deadlocked seat_count (view s)
    × ((t : Dinner) → Reach seat_count s t → t.main ≢ over)
can_hang_example = can_hang seat_count (omega arith)

minute_over : 60000 ≤ 0 + 60000
minute_over = omega arith

-- `main` starts all, sleeps for its minute, and then destroys the philosophers, the last one first; all
-- threads return before they have thought.
abbrev risen : (s : Dinner) × Reach seat_count (begin seat_count) s
risen =
    let first = later here (acts (begins 0 (omega arith) refl)) in
    let second = later first (acts (begins 1 (omega arith) refl)) in
    let third = later second (acts (begins 2 (omega arith) refl)) in
    (
      _,
      later (later (later third (acts (rests refl))) (passes 60000))
          (acts (rises 60000 refl minute_over)),
    )

abbrev cleaned_up : (s : Dinner) × Reach seat_count (begin seat_count) s
cleaned_up =
    let leaves_last =
      later (later risen.1 (acts (cancels 2 refl))) (acts (turns 2 (omega arith) (leaves refl))) in
    let joins_last = later leaves_last (acts (joined 2 refl refl)) in
    let leaves_next =
      later (later joins_last (acts (cancels 1 refl)))
        (acts (turns 1 (omega arith) (leaves refl))) in
    let joins_next = later leaves_next (acts (joined 1 refl refl)) in
    let leaves_first =
      later (later joins_next (acts (cancels 0 refl)))
        (acts (turns 0 (omega arith) (leaves refl))) in
    (_, later leaves_first (acts (joined 0 refl refl)))

main_over-clean_example :
    ((i : ℕ) → i < seat_count → cleaned_up.0.place i ≡ returned)
    × ((k : ℕ) → k < seat_count → get_fork cleaned_up.0.forks k ≡ some none)
main_over-clean_example = main_over-clean cleaned_up.1 (inl refl)

requests2_text : message names (record { writer = 2; line = requests2 }) ≡ codes "requested fork #0"
unfolding text_of request_text get_seat digits
requests2_text = refl
