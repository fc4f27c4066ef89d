-- ===== src/Reporter/Suite.antt =====
-- The suite of src/x_start.cpp: the benchmarks since the last "naive" one, each with its measures.
use concurrencycourse.Prelude.{
  ℕ, Bool, true, false, not, ◌&&◌, Option, none, some, List, [], ◌∷◌, ◌++◌, if◌then◌else◌,
}
use concurrencycourse.Reporter.Names.{Text, slash, find, codes, measure_name, contains, substr}

-- `BigO` is the benchmark library's, with its `oNone`.
module _ (BigO : Type 0) where
  -- `measure_t`
  pub record Measure : Type 0 where
    pub name : Text
    pub time : ℕ
    pub complexity : BigO

  -- `bench_t`
  pub record Bench : Type 0 where
    pub name : Text
    pub measures : List Measure

  -- What is read of the library's `Run`; the time is that of `GetAdjustedRealTime`, as an `int`.
  pub record Report : Type 0 where
    pub benchmark_name : Text
    pub report_big_o : Bool
    pub report_rms : Bool
    pub complexity : BigO
    pub real_time : ℕ

  -- `suite_`, and the suites that `PrintSuiteInfo` has printed.
  pub record Reporter : Type 0 where
    pub suite : List Bench
    pub printed : List (List Bench)

module _ {BigO : Type 0} (o_none : BigO) where
  abbrev pub bench_name : Text → Text
  bench_name benchmark_name = substr benchmark_name (find (slash ∷ []) benchmark_name)

  abbrev pub add_new_benchmark_to_suite : Text → List (Bench BigO) → List (Bench BigO)
  add_new_benchmark_to_suite benchmark_name suite =
      suite ++ (record { name = bench_name benchmark_name; measures = [] }) ∷ []

  -- `suite_.back().measures.push_back`; none is an empty suite, where it is undefined.
  abbrev pub push_measure : Measure BigO → List (Bench BigO) → Option (List (Bench BigO))
  push_measure m [] = none
  push_measure m (b ∷ []) = some (record b { measures = b.measures ++ m ∷ [] } ∷ [])
  push_measure m (b ∷ c ∷ suite) = prepend b (push_measure m (c ∷ suite))
    where
      prepend : Bench BigO → Option (List (Bench BigO)) → Option (List (Bench BigO))
      prepend b none = none
      prepend b (some suite) = some (b ∷ suite)

  abbrev pub last_name : List (Bench BigO) → Option Text
  last_name [] = none
  last_name (b ∷ []) = some b.name
  last_name (_ ∷ c ∷ suite) = last_name (c ∷ suite)

  -- `PrintSuiteInfo`, and `StartNewSuite`
  abbrev pub print_suite_info : Reporter BigO → Reporter BigO
  print_suite_info r = elim r.suite [
    | [] ↦ r
    | _ ∷ _ ↦ record r { printed = r.printed ++ r.suite ∷ [] }
  ]

  abbrev pub start_new_suite : Reporter BigO → Reporter BigO
  start_new_suite r = record r { suite = [] }

  -- Whether the name is of another benchmark than the last one, if there is a last one.
  abbrev pub differs : Text → Option Text → Bool
  differs benchmark_name none = true
  differs benchmark_name (some name) = not (contains name benchmark_name)

  abbrev pub bench_changed : Text → List (Bench BigO) → Bool
  bench_changed benchmark_name suite = differs benchmark_name (last_name suite)

  abbrev pub renewed : Text → Reporter BigO → Reporter BigO
  renewed benchmark_name r =
      if contains (codes "naive") benchmark_name then start_new_suite (print_suite_info r) else r

  abbrev pub after_check : Bool → Text → Reporter BigO → Reporter BigO
  after_check false benchmark_name r = r
  after_check true benchmark_name r =
      let r' = renewed benchmark_name r in
      record r' { suite = add_new_benchmark_to_suite benchmark_name r'.suite }

  unfoldable pub check_for_bench_changes : Text → Reporter BigO → Reporter BigO
  check_for_bench_changes benchmark_name r =
      after_check (bench_changed benchmark_name r.suite) benchmark_name r

  abbrev pub set_suite : Reporter BigO → Option (List (Bench BigO)) → Option (Reporter BigO)
  set_suite r none = none
  set_suite r (some suite) = some (record r { suite = suite })

  abbrev pub add_measure : Measure BigO → Reporter BigO → Option (Reporter BigO)
  add_measure m r = set_suite r (push_measure m r.suite)

  abbrev pub add_named : ℕ → Reporter BigO → Option Text → Option (Reporter BigO)
  add_named t r none = none
  add_named t r (some name) = add_measure (record { name = name; time = t; complexity = o_none }) r

  unfoldable pub add_time_measure : Text → ℕ → Reporter BigO → Option (Reporter BigO)
  add_time_measure benchmark_name t r = add_named t r (measure_name benchmark_name)

  unfoldable pub add_big_o_measure : BigO → Reporter BigO → Option (Reporter BigO)
  add_big_o_measure big_o =
      add_measure (record { name = codes "BigO"; time = 0; complexity = big_o })

  -- The body of the loop in `ReportRuns`.
  unfoldable pub add_report : Report BigO → Report BigO → Reporter BigO → Option (Reporter BigO)
  add_report first_report report r =
      if not report.report_big_o && not report.report_rms
      then add_time_measure report.benchmark_name first_report.real_time r
      else if report.report_big_o
      then add_big_o_measure report.complexity r
      else some r

  abbrev pub and_then :
      Option (Reporter BigO) → (Reporter BigO → Option (Reporter BigO)) → Option (Reporter BigO)
  and_then none next = none
  and_then (some r) next = next r

  unfoldable pub add_reports :
      Report BigO → List (Report BigO) → Reporter BigO → Option (Reporter BigO)
  add_reports first_report [] r = some r
  add_reports first_report (report ∷ reports) r =
      and_then (add_report first_report report r) (add_reports first_report reports)

  -- `ReportRuns`; the front of an empty vector is undefined.
  unfoldable pub report_runs : List (Report BigO) → Reporter BigO → Option (Reporter BigO)
  report_runs [] r = none
  report_runs (first_report ∷ reports) r =
      add_reports first_report (first_report ∷ reports)
        (check_for_bench_changes first_report.benchmark_name r)
