-- ===== src/Tests/Printing.antt =====
-- Tables and runs of the reporter of src/x_start.cpp. Of the two complexities, 0 stands for `oNone`;
-- the text of a ratio is left empty.
use concurrencycourse.Prelude.{
  ℕ, ◌≡◌, refl, Bool, false, Option, none, some, List, [], ◌∷◌, map, ◌==◌, length,
}
use concurrencycourse.Reporter.Names.{
  Text, codes, skip_word, measure_name, strip_back, strip_front, join_slashes,
}
use concurrencycourse.Reporter.Suite.{
  Bench, Report, report_runs, add_reports, add_report, add_time_measure, check_for_bench_changes,
}
use concurrencycourse.Reporter.Table.{
  left, right, longest_measure, longest_bench, names, fewest_measures, cell, cells, row, rows,
  suite_info,
}
use concurrencycourse.Reporter.TableLaws.{suite_info-some}
use concurrencycourse.Reporter.Main.{main, run_specified_benchmarks}
use concurrencycourse.Reporter.Collected.{collected}
use concurrencycourse.Reporter.Printed.{shown, with_code, main-collected}

abbrev is_none : ℕ → Bool
is_none complexity = complexity == 0

abbrev ratio : ℕ → ℕ → Text
ratio t t' = codes "1.00"

abbrev big_o_string : ℕ → Text
big_o_string complexity = codes "N"

abbrev naive : Bench ℕ
naive = record {
  name = codes "naive";
  measures =
      (record { name = codes "naive/8"; time = 7; complexity = 0 })
      ∷ (record { name = codes "BigO"; time = 0; complexity = 1 })
      ∷ [];
}

abbrev quick : Bench ℕ
quick = record {
  name = codes "quick";
  measures = (record { name = codes "quick/8"; time = 3; complexity = 0 }) ∷ [];
}

the_table :
    suite_info is_none ratio big_o_string (naive ∷ quick ∷ [])
    ≡ some (codes "*** Results:\nmeasure      naive   quick\nnaive/8       1.00    1.00\n***\n\n")
unfolding suite_info rows fewest_measures row cells left longest_measure names right longest_bench
    cell
the_table = refl

suite_info-some_example :
    (out : Text) × (suite_info is_none ratio big_o_string (naive ∷ quick ∷ []) ≡ some out)
suite_info-some_example = suite_info-some is_none ratio big_o_string (naive ∷ quick ∷ [])

abbrev run : Text → Report ℕ
run name = record {
  benchmark_name = name;
  report_big_o = false;
  report_rms = false;
  complexity = 0;
  real_time = 5;
}

-- Two suites of two benchmarks each.
abbrev runs : List (List (Report ℕ))
runs =
    (run (codes "naive/8") ∷ [])
    ∷ (run (codes "quick/8") ∷ [])
    ∷ (run (codes "naive_map/8") ∷ [])
    ∷ (run (codes "fast_map/8") ∷ [])
    ∷ []

main-collected_example : shown 0 (main 0 false runs) ≡ with_code 0 (collected 0 runs [])
main-collected_example = main-collected 0 runs

abbrev suite_sizes : Option (ℕ × List (List (Bench ℕ))) → List ℕ
suite_sizes none = []
suite_sizes (some (_, printed)) = map length printed

two_tables : suite_sizes (main 0 false runs) ≡ 2 ∷ 2 ∷ []
unfolding main run_specified_benchmarks report_runs add_reports add_report add_time_measure
    measure_name strip_back skip_word strip_front join_slashes check_for_bench_changes
two_tables = refl
