-- ===== src/Reporter/Main.antt =====
-- The life of the reporter of src/x_start.cpp: its constructor and destructor, and `main`.
use concurrencycourse.Prelude.{ℕ, Bool, true, false, Option, none, some, List, [], ◌∷◌}
use concurrencycourse.Reporter.Suite.{
  Bench, Report, Reporter, print_suite_info, start_new_suite, and_then, report_runs,
}

module _ {BigO : Type 0} (o_none : BigO) where
  -- `SuiteComparingConsoleReporter()`, and its destructor
  abbrev pub new_reporter : Reporter BigO
  new_reporter = start_new_suite o_none (record { suite = []; printed = [] })

  abbrev pub delete_reporter : Reporter BigO → Reporter BigO
  delete_reporter = print_suite_info o_none

  -- `RunSpecifiedBenchmarks` of the library calls `ReportRuns` once for each benchmark that it ran.
  unfoldable pub run_specified_benchmarks :
      List (List (Report BigO)) → Reporter BigO → Option (Reporter BigO)
  run_specified_benchmarks [] r = some r
  run_specified_benchmarks (reports ∷ runs) r =
      and_then o_none (report_runs o_none reports r) (run_specified_benchmarks runs)

  -- The exit code and the suites whose tables were printed. The first argument is the result of
  -- `ReportUnrecognizedArguments`.
  abbrev pub ended : Option (Reporter BigO) → Option (ℕ × List (List (Bench BigO)))
  ended none = none
  ended (some r) = some (0, (delete_reporter r).printed)

  unfoldable pub main : Bool → List (List (Report BigO)) → Option (ℕ × List (List (Bench BigO)))
  main true runs = some (1, [])
  main false runs = ended (run_specified_benchmarks runs new_reporter)
