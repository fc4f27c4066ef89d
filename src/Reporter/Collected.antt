-- ===== src/Reporter/Collected.antt =====
-- The benchmarks of src/x_start.cpp that reports make up, without suites.
use concurrencycourse.Prelude.{
  ◌≡◌, sym, ap, ◌∙◌, Option, none, some, List, [], ◌∷◌, ◌++◌, append_assoc, append-nil,
  if◌then◌else◌,
}
use concurrencycourse.Reporter.Names.{Text}
use concurrencycourse.Reporter.Suite.{
  Bench, Report, Reporter, add_new_benchmark_to_suite, bench_changed, add_reports,
}

-- The benchmarks of several suites in one list.
abbrev pub benches_of : {A : Type 0} → List (List A) → List A
benches_of [] = []
benches_of (suite ∷ suites) = suite ++ benches_of suites

pub benches_of-append :
    {A : Type 0} (suites : List (List A)) (suite : List A)
    → benches_of (suites ++ suite ∷ []) ≡ benches_of suites ++ suite
benches_of-append [] suite = append-nil suite
benches_of-append (s ∷ suites) suite =
    ap (λ l. s ++ l) (benches_of-append suites suite)
    ∙ sym (append_assoc s (benches_of suites) suite)

module _ {BigO : Type 0} (o_none : BigO) where
  -- The benchmarks with their measures, if the reports go into one list that is never cleared.
  abbrev pub with_bench : Text → List (Bench BigO) → List (Bench BigO)
  with_bench name benches =
      if bench_changed o_none name benches
      then add_new_benchmark_to_suite o_none name benches
      else benches

  abbrev pub measured :
      Report BigO → List (Report BigO) → List (Bench BigO) → Option (Reporter BigO)
  measured first_report reports benches =
      add_reports o_none first_report (first_report ∷ reports)
        (record { suite = with_bench first_report.benchmark_name benches; printed = [] })

  abbrev pub with_suite :
      Option (Reporter BigO)
      → (List (Bench BigO) → Option (List (Bench BigO)))
      → Option (List (Bench BigO))
  with_suite none next = none
  with_suite (some r) next = next r.suite

  unfoldable pub collected :
      List (List (Report BigO)) → List (Bench BigO) → Option (List (Bench BigO))
  collected [] benches = some benches
  collected ([] ∷ runs) benches = none
  collected ((first_report ∷ reports) ∷ runs) benches =
      with_suite (measured first_report reports benches) (collected runs)
