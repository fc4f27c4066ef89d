-- ===== src/Tests/FineLists.antt =====
-- Three threads of src/OptimizedThreadSafeQueue.h: one within a `push`, another about to take an item.
use concurrencycourse.Prelude.{ℕ, ◌<◌, ◌≡◌, refl, ◌⊎◌, arith}
use concurrencycourse.OptimizedQueue.Memory.{load}
use concurrencycourse.OptimizedQueue.Methods.{construct, at_tail}
use concurrencycourse.OptimizedQueue.Threads.{
  outside, sleeping, waits, calls_push, calls_take, locks, compares,
}
use concurrencycourse.OptimizedQueue.Fine.{
  Fine, FineReach, stands, begin, after, others, makes, locks_tail, sets_data, sets_next, sets_tail,
  new_node, set_data, set_next,
}
use concurrencycourse.OptimizedQueue.Fine.Seen.{Seen}
use concurrencycourse.OptimizedQueue.Fine.Refines.{fine-Refines}
use concurrencycourse.OptimizedQueue.Fine.Races.{Touches, no_race}
use concurrencycourse.OptimizedQueue.Fine.Writes.{FineGoes}
use concurrencycourse.OptimizedQueue.Fine.Progress.{fine_calls_go_on}

first : 0 < 3
first = omega arith

second : 1 < 3
second = omega arith

third : 2 < 3
third = omega arith

-- Thread 0 has pushed 7.
abbrev one_pushed : (s : Fine ℕ) × FineReach 3 0 s
unfolding construct new_node set_data set_next load
one_pushed = (
  _,
  after
      (after
        (after
          (after
            (after (after begin (others (calls_push 0 7 first refl) tt))
              (makes 0 7 1 first refl refl refl))
            (locks_tail 0 7 1 first refl refl))
          (sets_data 0 7 1 first refl refl))
        (sets_next 0 7 1 first refl refl))
      (sets_tail 0 7 1 first refl),
)

-- Thread 1 is about to take it, and thread 2 to write to the node at the tail.
abbrev both_under_way : (s : Fine ℕ) × FineReach 3 0 s
unfolding one_pushed construct new_node set_data set_next load at_tail
both_under_way = (
  _,
  after
      (after
        (after
          (after
            (after (after one_pushed.1 (others (calls_take 1 waits second refl) tt))
              (others (locks 1 waits second refl refl) tt))
            (others (compares 1 waits second refl refl) refl))
          (others (calls_push 2 8 third refl) tt))
        (makes 2 8 2 third refl refl refl))
      (locks_tail 2 8 2 third refl refl),
)

fine-Refines_example : Seen 3 0 both_under_way.0
fine-Refines_example = fine-Refines both_under_way.1

no_race_example : ¬ Touches both_under_way.0 (both_under_way.0.place 1) 1
unfolding both_under_way one_pushed construct new_node set_data set_next load at_tail
no_race_example = no_race 1 2 1 both_under_way.1 (omega arith) refl

fine_calls_go_on_example :
    (both_under_way.0.place 2 ≡ stands outside)
    ⊎ (both_under_way.0.place 2 ≡ stands sleeping)
    ⊎ FineGoes 3 both_under_way.0
unfolding both_under_way one_pushed construct new_node set_data set_next load at_tail
fine_calls_go_on_example = fine_calls_go_on 3 2 both_under_way.1 refl third
