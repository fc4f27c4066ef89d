-- ===== src/Reporter/Alike.antt =====
-- The same reports added to a suite of src/x_start.cpp and to a longer one.
use concurrencycourse.Prelude.{
  ℕ, ◌≡◌, refl, Bool, true, false, not, ◌&&◌, Option, none, some, List, [], ◌∷◌, ◌++◌,
  if◌then◌else◌,
}
use concurrencycourse.Reporter.Names.{Text, measure_name}
use concurrencycourse.Reporter.Suite.{
  Measure, Bench, Report, Reporter, add_measure, add_named, add_time_measure, add_big_o_measure,
  add_report, and_then, add_reports,
}
use concurrencycourse.Reporter.Measures.{ending, with_measures, add_measure-ending}

module _ {BigO : Type 0} (o_none : BigO) where
  -- The same calls on a suite and on a longer one fail both, or change the same benchmark.
  pub data Alike (before : List (Bench BigO)) (printed : List (List (Bench BigO)))
      : Option (Reporter BigO) → Option (Reporter BigO) → Type 0 where
    neither : Alike before printed none none
    both :
        {r r' : Reporter BigO} (suite : List (Bench BigO)) (b : Bench BigO)
        → r.suite ≡ ending o_none suite b
        → r.printed ≡ printed
        → r'.suite ≡ ending o_none (before ++ suite) b
        → Alike before printed (some r) (some r')

  module _ (before : List (Bench BigO)) (printed : List (List (Bench BigO))) where
    if-Alike :
        (c : Bool) {x x' y y' : Option (Reporter BigO)}
        → Alike before printed x x'
        → Alike before printed y y'
        → Alike before printed (if c then x else y) (if c then x' else y')
    if-Alike true alike alike' = alike
    if-Alike false alike alike' = alike'

    and_then-Alike :
        {x x' : Option (Reporter BigO)} {k k' : Reporter BigO → Option (Reporter BigO)}
        → Alike before printed x x'
        → ((r r' : Reporter BigO) (suite : List (Bench BigO)) (b : Bench BigO)
            → r.suite ≡ ending o_none suite b
            → r.printed ≡ printed
            → r'.suite ≡ ending o_none (before ++ suite) b
            → Alike before printed (k r) (k' r'))
        → Alike before printed (and_then o_none x k) (and_then o_none x' k')
    and_then-Alike neither next = neither
    and_then-Alike (both {r} {r'} suite b e p e') next = next r r' suite b e p e'

    module _ (r r' : Reporter BigO) (suite : List (Bench BigO)) (b : Bench BigO)
        (e : r.suite ≡ ending o_none suite b) (p : r.printed ≡ printed)
        (e' : r'.suite ≡ ending o_none (before ++ suite) b) where
      add_measure-Alike :
          (m : Measure BigO)
          → Alike before printed (add_measure o_none m r) (add_measure o_none m r')
      add_measure-Alike m =
          rw
            (
              add_measure-ending o_none m r suite b e,
              add_measure-ending o_none m r' (before ++ suite) b e',
            )
            (both suite (with_measures o_none b (m ∷ [])) refl p refl)

      add_named-Alike :
          (t : ℕ) (name : Option Text)
          → Alike before printed (add_named o_none t r name) (add_named o_none t r' name)
      add_named-Alike t none = neither
      add_named-Alike t (some name) = add_measure-Alike _

      add_report-Alike :
          (first_report report : Report BigO)
          → Alike before printed
              (add_report o_none first_report report r)
              (add_report o_none first_report report r')
      unfolding add_report add_time_measure add_big_o_measure
      add_report-Alike first_report report =
          if-Alike (not report.report_big_o && not report.report_rms)
            (add_named-Alike first_report.real_time (measure_name report.benchmark_name))
            (if-Alike report.report_big_o (add_measure-Alike _) (both suite b e p e'))

    pub add_reports-Alike :
        (first_report : Report BigO) (reports : List (Report BigO)) (r r' : Reporter BigO)
        (suite : List (Bench BigO)) (b : Bench BigO)
        → r.suite ≡ ending o_none suite b
        → r.printed ≡ printed
        → r'.suite ≡ ending o_none (before ++ suite) b
        → Alike before printed
            (add_reports o_none first_report reports r)
            (add_reports o_none first_report reports r')
    unfolding add_reports
    add_reports-Alike first_report [] r r' suite b e p e' = both suite b e p e'
    add_reports-Alike first_report (report ∷ reports) r r' suite b e p e' =
        and_then-Alike (add_report-Alike r r' suite b e p e' first_report report)
          (add_reports-Alike first_report reports)
