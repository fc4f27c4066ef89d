-- ===== src/Tests/Small.antt =====
-- Lines of the log, and runs of the small programs.
use concurrencycourse.Prelude.{
  ◌*◌, ◌≤◌, ◌≡◌, refl, ◌↔◌, ◌⊎◌, false, none, [], ◌∷◌, ◌++◌, map, arith,
}
use concurrencycourse.Prelude.Threads.{total}
use concurrencycourse.Prelude.Texts.{Text, codes}
use concurrencycourse.Logger.{
  Call, digits, to_int, print_int, print_int_zeros, uptime_text, format_uptime, get_uptime,
  log_impl, log,
}
use concurrencycourse.Logger.RoundTrip.{read_line, entry, log-reads_back}
use concurrencycourse.Programs.Uncaught.{
  Process, here, later, Step, terminated, has_printed, throws, destroys, made-terminates,
}
use concurrencycourse.Programs.Discarded.{
  sleepers, number_of_threads, delay, Reach, start, launches, ticks, System, tasks-in_turn,
}
use concurrencycourse.Programs.Discarded
use concurrencycourse.Programs.Shuffle.{Shuffle, from_first, from_second, done}
use concurrencycourse.Programs.Output.{lorem_ipsum, Writes3, Writes7}
use concurrencycourse.Programs.Writing.{repeated}
use concurrencycourse.Programs.Torn.{main-outputs}

abbrev hello : Call
hello = record { get_at = 100; format_at = 107; message = codes "hello" }

abbrev bye : Call
bye = record { get_at = 200; format_at = 123557; message = codes "bye" }

the_lines :
    (log 2 (hello ∷ bye ∷ []) none).0 ≡ codes "[0.003s] hello\n" ∷ codes "[61.728s] bye\n" ∷ []
unfolding log log_impl format_uptime uptime_text print_int to_int get_uptime digits print_int_zeros
the_lines = refl

log-reads_back_example :
    map read_line (log 2 (hello ∷ bye ∷ []) none).0 ≡ map (entry 2 100) (hello ∷ bye ∷ [])
log-reads_back_example = log-reads_back 2 hello (bye ∷ []) (omega arith, (omega arith, tt))

made-terminates_example :
    (2 ≤ 2)
    × (has_printed terminated ≡ false)
    × ((terminated ≡ terminated) ⊎ ((t : Process) × Step terminated t))
made-terminates_example = made-terminates (later (later here throws) destroys)

abbrev one_asleep : (s : System) × Reach s
one_asleep = (_, Discarded.later (Discarded.later start (launches (omega arith) refl)) ticks)

tasks-in_turn_example :
    (total sleepers number_of_threads one_asleep.0.tasks ≤ 1)
    × (one_asleep.0.round * delay ≤ one_asleep.0.now)
tasks-in_turn_example = tasks-in_turn one_asleep.1

-- The first lines of the two threads of exercise 7 can be mixed in the middle of a word.
abbrev mixed : Text
mixed = codes "pipong\nng\n" ++ repeated 9 (codes "ping\n") ++ repeated 9 (codes "pong\n")

main-outputs_example :
    (Writes3 mixed ↔ Shuffle (lorem_ipsum ++ codes "\n") (lorem_ipsum ++ codes "\n") mixed)
    × (Writes7 mixed ↔ Shuffle (repeated 10 (codes "ping\n")) (repeated 10 (codes "pong\n")) mixed)
main-outputs_example = main-outputs mixed

only_second : (ys : Text) → Shuffle [] ys ys
only_second [] = done
only_second (y ∷ ys) = from_second (only_second ys)

in_turn : (xs ys : Text) → Shuffle xs ys (xs ++ ys)
in_turn [] ys = only_second ys
in_turn (x ∷ xs) ys = from_first (in_turn xs ys)

mixed-Shuffle : Shuffle (repeated 10 (codes "ping\n")) (repeated 10 (codes "pong\n")) mixed
mixed-Shuffle = from_first (
    from_first (
      from_second (
        from_second (
          from_second (
            from_second (
              from_second (
                from_first (
                  from_first (
                    from_first
                      (in_turn (repeated 9 (codes "ping\n")) (repeated 9 (codes "pong\n"))))))))))))

mixed-Writes7 : Writes7 mixed
mixed-Writes7 = (main-outputs mixed).1.1 mixed-Shuffle
