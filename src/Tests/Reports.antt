-- ===== src/Tests/Reports.antt =====
-- Reports to the reporter of src/x_start.cpp. Of the two complexities, 0 stands for `oNone`.
use concurrencycourse.Prelude.{ℕ, ◌≡◌, refl, false, some, List, [], ◌∷◌}
use concurrencycourse.Reporter.Names.{Text, codes, skip_word}
use concurrencycourse.Reporter.Suite.{Bench, Report, Reporter, check_for_bench_changes, report_runs}
use concurrencycourse.Reporter.Measures.{ending}
use concurrencycourse.Reporter.Reports.{Added, report_runs_lem}

abbrev benchmark : Text
benchmark = codes "simple/8/iterations:25"

abbrev fast : Report ℕ
fast = record {
  benchmark_name = benchmark;
  report_big_o = false;
  report_rms = false;
  complexity = 0;
  real_time = 5;
}

abbrev slow : Report ℕ
slow = record fast { real_time = 9 }

abbrev at_first : Reporter ℕ
at_first = record { suite = []; printed = [] }

report_runs_lem_example :
    (before : List (Bench ℕ)) × (last : Bench ℕ) × (r' : Reporter ℕ) × ((check_for_bench_changes 0
        benchmark at_first).suite
      ≡ ending 0 before last)
    × (report_runs 0 (fast ∷ slow ∷ []) at_first ≡ some r')
    × Added 0 fast (fast ∷ slow ∷ []) before last (check_for_bench_changes 0 benchmark at_first) r'
unfolding skip_word
report_runs_lem_example = report_runs_lem 0 fast (slow ∷ []) at_first (refl, (refl, tt))
