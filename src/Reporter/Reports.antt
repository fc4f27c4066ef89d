-- ===== src/Reporter/Reports.antt =====
-- What `ReportRuns` adds to the suite.
use concurrencycourse.Prelude.{
  ℕ, ◌≡◌, refl, sym, ap, ◌∙◌, inl, inr, true, false, some, List, [], ◌∷◌, ◌++◌, append_assoc,
  append-nil, Bool-cases, All,
}
use concurrencycourse.Reporter.Names.{Text, codes, measure_name, skip_words}
use concurrencycourse.Reporter.Cleaned.{all_slashes, measure_name_lem}
use concurrencycourse.Reporter.Suite.{
  Measure, Bench, Report, Reporter, check_for_bench_changes, add_measure, add_named,
  add_time_measure, add_big_o_measure, add_report, add_reports, report_runs,
}
use concurrencycourse.Reporter.Measures.{ending, with_measures, add_measure-ending, last-in_name}

module _ {BigO : Type 0} (o_none : BigO) where
  -- The measures of the reports: one of a complexity has that complexity and no time, one of the root
  -- mean square alone gives none, and any other has the time of the first report and the name that is
  -- left of the report's own.
  pub data Measured (first_report : Report BigO)
      : List (Report BigO) → List (Measure BigO) → Type 0 where
    nothing : Measured first_report [] []
    of_complexity :
        {report : Report BigO} {reports : List (Report BigO)} {measures : List (Measure BigO)}
        → report.report_big_o ≡ true
        → Measured first_report reports measures
        → Measured first_report
            (report ∷ reports)
            ((record { name = codes "BigO"; time = 0; complexity = report.complexity }) ∷ measures)
    of_deviation :
        {report : Report BigO} {reports : List (Report BigO)} {measures : List (Measure BigO)}
        → report.report_big_o ≡ false
        → report.report_rms ≡ true
        → Measured first_report reports measures
        → Measured first_report (report ∷ reports) measures
    of_time :
        {report : Report BigO} {reports : List (Report BigO)} {measures : List (Measure BigO)}
        {name : Text}
        → report.report_big_o ≡ false
        → report.report_rms ≡ false
        → measure_name report.benchmark_name ≡ some name
        → Measured first_report reports measures
        → Measured first_report (report ∷ reports) (
            (record { name = name; time = first_report.real_time; complexity = o_none }) ∷ measures)

  -- To the last benchmark the measures of these reports were added, and nothing else was changed.
  pub record Added (first_report : Report BigO) (reports : List (Report BigO))
      (before : List (Bench BigO)) (last : Bench BigO) (r r' : Reporter BigO) : Type 0 where
    pub measures : List (Measure BigO)
    pub suite : r'.suite ≡ ending o_none before (with_measures o_none last measures)
    pub same_printed : r'.printed ≡ r.printed
    pub measured : Measured first_report reports measures

  Measured-append :
      {first_report : Report BigO} {reports reports' : List (Report BigO)}
      {measures measures' : List (Measure BigO)}
      → Measured first_report reports measures
      → Measured first_report reports' measures'
      → Measured first_report (reports ++ reports') (measures ++ measures')
  Measured-append nothing h' = h'
  Measured-append (of_complexity big h) h' = of_complexity big (Measured-append h h')
  Measured-append (of_deviation big rms h) h' = of_deviation big rms (Measured-append h h')
  Measured-append (of_time big rms e h) h' = of_time big rms e (Measured-append h h')

  add_time-cleaned :
      (t : ℕ) (r : Reporter BigO) (benchmark_name : Text) {name : Text}
      → measure_name benchmark_name ≡ some name
      → add_time_measure o_none benchmark_name t r
        ≡ add_measure o_none (record { name = name; time = t; complexity = o_none }) r
  unfolding add_time_measure
  add_time-cleaned t r benchmark_name e = ap (add_named o_none t r) e

  module _ (first_report : Report BigO) (before : List (Bench BigO)) where
    add_one :
        (report : Report BigO) (last : Bench BigO) (m : Measure BigO) (r : Reporter BigO)
        → Measured first_report (report ∷ []) (m ∷ [])
        → r.suite ≡ ending o_none before last
        → (r' : Reporter BigO) × (add_measure o_none m r ≡ some r')
          × Added first_report (report ∷ []) before last r r'
    add_one report last m r measured e = (
      record r { suite = ending o_none before (with_measures o_none last (m ∷ [])) },
      add_measure-ending o_none m r before last e,
      record { measures = m ∷ []; suite = refl; same_printed = refl; measured = measured },
    )

    add_none :
        (reports : List (Report BigO)) (last : Bench BigO) (r : Reporter BigO)
        → Measured first_report reports []
        → r.suite ≡ ending o_none before last
        → Added first_report reports before last r r
    add_none reports last r measured e = record {
      measures = [];
      suite =
          e
          ∙ ap (λ ms. ending o_none before (record last { measures = ms }))
              (sym (append-nil last.measures));
      same_printed = refl;
      measured = measured;
    }

    Added-trans :
        {reports reports' : List (Report BigO)} {last : Bench BigO} {r r' r'' : Reporter BigO}
        (a : Added first_report reports before last r r')
        → Added first_report reports' before (with_measures o_none last a.measures) r' r''
        → Added first_report (reports ++ reports') before last r r''
    Added-trans {last} a b = record {
      measures = a.measures ++ b.measures;
      suite =
          b.suite
          ∙ ap (λ ms. ending o_none before (record last { measures = ms }))
              (append_assoc last.measures a.measures b.measures);
      same_printed = b.same_printed ∙ a.same_printed;
      measured = Measured-append a.measured b.measured;
    }

    add_report-Added :
        (report : Report BigO) (last : Bench BigO) (r : Reporter BigO)
        → all_slashes (skip_words report.benchmark_name) ≡ false
        → r.suite ≡ ending o_none before last
        → (r' : Reporter BigO) × (add_report o_none first_report report r ≡ some r')
          × Added first_report (report ∷ []) before last r r'
    unfolding add_report add_big_o_measure
    add_report-Added report last r q e = elim (Bool-cases report.report_big_o) [
      | inl big ↦
          let (r', ran, added) = add_one report last _ r (of_complexity big nothing) e in
          (r', rw big ran, added)
      | inr no_big ↦ elim (Bool-cases report.report_rms) [
        | inl rms ↦ (
          r,
          rw (no_big, rms) refl,
          add_none (report ∷ []) last r (of_deviation no_big rms nothing) e,
        )
        | inr no_rms ↦
            let (name, cleaned, _, _) = measure_name_lem report.benchmark_name q in
            let (r', ran, added) =
              add_one report last _ r (of_time no_big no_rms cleaned nothing) e in
            let named = add_time-cleaned first_report.real_time r report.benchmark_name cleaned in
            (r', rw (no_big, no_rms) (named ∙ ran), added)
      ]
    ]

    add_reports-Added :
        (reports : List (Report BigO)) (last : Bench BigO) (r : Reporter BigO)
        → All (λ report. all_slashes (skip_words report.benchmark_name) ≡ false) reports
        → r.suite ≡ ending o_none before last
        → (r' : Reporter BigO) × (add_reports o_none first_report reports r ≡ some r')
          × Added first_report reports before last r r'
    unfolding add_reports
    add_reports-Added [] last r q e = (r, refl, add_none [] last r nothing e)
    add_reports-Added (report ∷ reports) last r q e =
        let (r', ran, a) = add_report-Added report last r q.0 e in
        let (r'', ran', b) =
          add_reports-Added reports (with_measures o_none last a.measures) r' q.1 a.suite in
        (r'', rw ran ran', Added-trans a b)

  -- If something is left of each name when the words and slashes are cut out, `ReportRuns` is defined on
  -- every list of reports but the empty one: after its check for a new benchmark it adds to the last
  -- benchmark, and to no other, the measures of the reports in their order: of a report of a complexity
  -- one named BigO with that complexity and the time 0; of one of the root mean square alone none; of any
  -- other one with what `measure_name` leaves of its name, no complexity, and the time of the first report.
  pub report_runs_lem :
      (first_report : Report BigO) (reports : List (Report BigO)) (r : Reporter BigO)
      → All
          (λ report. all_slashes (skip_words report.benchmark_name) ≡ false)
          (first_report ∷ reports)
      → (before : List (Bench BigO)) × (last : Bench BigO) × (r' : Reporter BigO)
        × ((check_for_bench_changes o_none first_report.benchmark_name r).suite
            ≡ ending o_none before last)
        × (report_runs o_none (first_report ∷ reports) r ≡ some r')
        × Added first_report
            (first_report ∷ reports)
            before
            last
            (check_for_bench_changes o_none first_report.benchmark_name r)
            r'
  unfolding report_runs
  report_runs_lem first_report reports r q =
      let name = first_report.benchmark_name in
      let (before, last, ends, _) = last-in_name o_none name r in
      let (r', ran, added) =
        add_reports-Added first_report before (first_report ∷ reports) last
          (check_for_bench_changes o_none name r) q ends in
      (before, last, r', ends, ran, added)
