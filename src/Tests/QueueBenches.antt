-- ===== src/Tests/QueueBenches.antt =====
-- Runs of the benchmark of the two queues.
use concurrencycourse.Prelude.{ℕ, ◌+◌, ◌*◌, ◌≤◌, ◌<◌, ◌≡◌, refl, ◌⊎◌, [], ◌∷◌, arith}
use concurrencycourse.SimpleQueue
use concurrencycourse.SimpleQueue.Threads.{
  moves, notifies, enter, push_back, sleep, reenter, pop_awake, leave,
}
use concurrencycourse.QueueBench.{
  first_values, Bench, Reach, produces, consumes, goes_on, IsOver, Goes,
}
use concurrencycourse.QueueBench.Simple.{simple}
use concurrencycourse.QueueBench.SimpleBound.{Run, starts, steps, round_ends}
use concurrencycourse.QueueBench.Optimized.{optimized, Hangs, hangs}

abbrev rand : ℕ → ℕ
rand i = i + 7

first : 0 < 2
first = omega arith

second : 1 < 2
second = omega arith

-- The consumer falls asleep, the producer pushes 7 and wakes it, and the consumer takes 7.
abbrev whole_round : (s : Bench simple) × Run 1 rand 11 0 s
unfolding SimpleQueue.wait_and_pop SimpleQueue.push
whole_round = (
  _,
  steps
      (steps
        (steps
          (steps
            (steps
              (steps
                (steps
                  (steps
                    (steps
                      (steps (steps starts (consumes (omega arith) refl) refl)
                        (goes_on (moves 1 second (enter refl)) (λ i out. ground (arith, out))) refl)
                      (goes_on (moves 1 second (sleep refl)) (λ i out. ground (arith, out))) refl)
                    (produces (omega arith) refl) refl)
                  (goes_on (moves 0 first (enter refl)) (λ i out. ground (arith, out))) refl)
                (goes_on (moves 0 first push_back) (λ i out. ground (arith, out))) refl)
              (goes_on (notifies 0 1 first second refl refl) (λ i out. ground (arith, out))) refl)
            (goes_on (moves 0 first leave) (λ i out. ground (arith, out))) refl)
          (goes_on (moves 1 second (reenter refl)) (λ i out. ground (arith, out))) refl)
        (goes_on (moves 1 second (pop_awake refl)) (λ i out. ground (arith, out))) refl)
      (goes_on (moves 1 second leave) (λ i out. ground (arith, out))) refl,
)

all_popped : whole_round.0.system.shared.popped ≡ 7 ∷ []
unfolding whole_round
all_popped = refl

round_ends_example :
    (11 ≤ 14 * 1 + 2 * 0)
    × ((IsOver simple 1 rand whole_round.0
          × (whole_round.0.system.shared.popped ≡ first_values rand 1)
          × (whole_round.0.system.shared.queue ≡ []))
        ⊎ Goes simple 1 rand whole_round.0)
unfolding whole_round
round_ends_example = round_ends 1 rand whole_round.1

hangs_example : (s : Bench (optimized 0)) × Reach (optimized 0) 8 rand s × Hangs 0 8 rand s
hangs_example = hangs 0 8 rand (omega arith)
