-- ===== src/Reporter/Printed.antt =====
-- The suites that `main` of src/x_start.cpp prints, and the benchmarks in one list.
use concurrencycourse.Prelude.{
  ℕ, ◌≡◌, refl, sym, ap, ◌∙◌, inl, inr, true, false, Option, none, some, List, [], ◌∷◌, ◌++◌,
  append_assoc, append-nil, Bool-cases,
}
use concurrencycourse.Reporter.Names.{Text, codes, contains}
use concurrencycourse.Reporter.Suite.{
  Bench, Report, Reporter, bench_name, last_name, print_suite_info, bench_changed, differs, renewed,
  check_for_bench_changes, and_then, report_runs,
}
use concurrencycourse.Reporter.Measures.{ending}
use concurrencycourse.Reporter.Main.{run_specified_benchmarks, new_reporter, ended, main}
use concurrencycourse.Reporter.Collected.{
  benches_of, benches_of-append, with_bench, with_suite, collected,
}
use concurrencycourse.Reporter.Alike.{Alike, neither, both, add_reports-Alike}

module _ {BigO : Type 0} (o_none : BigO) where
  last-ending :
      (suite : List (Bench BigO)) (b : Bench BigO)
      → last_name o_none (ending o_none suite b) ≡ some b.name
  last-ending [] b = refl
  last-ending (a ∷ []) b = refl
  last-ending (a ∷ c ∷ suite) b = last-ending (c ∷ suite) b

  -- All benchmarks of a reporter, those of the printed suites first.
  abbrev all_of : Reporter BigO → List (Bench BigO)
  all_of r = benches_of r.printed ++ r.suite

  -- The suite is empty only at first.
  data IsUsed (r : Reporter BigO) : Type 0 where
    unused : r.suite ≡ [] → r.printed ≡ [] → IsUsed r
    used : (suite : List (Bench BigO)) (b : Bench BigO) → r.suite ≡ ending o_none suite b → IsUsed r

  last_name-all_of :
      (r : Reporter BigO) → IsUsed r → last_name o_none (all_of r) ≡ last_name o_none r.suite
  last_name-all_of r (unused e p) = rw (e, p) refl
  last_name-all_of r (used suite b e) =
      ap (last_name o_none) (
        ap (λ l. benches_of r.printed ++ l) e
        ∙ sym (append_assoc (benches_of r.printed) suite (b ∷ [])))
      ∙ last-ending (benches_of r.printed ++ suite) b
      ∙ sym (ap (last_name o_none) e ∙ last-ending suite b)

  printed-all_of :
      (suite : List (Bench BigO)) (printed : List (List (Bench BigO)))
      → benches_of (print_suite_info o_none (record { suite = suite; printed = printed })).printed
        ≡ benches_of printed ++ suite
  printed-all_of [] printed = sym (append-nil (benches_of printed))
  printed-all_of (b ∷ suite) printed = benches_of-append printed (b ∷ suite)

  renewed-all_of : (name : Text) (r : Reporter BigO) → all_of (renewed o_none name r) ≡ all_of r
  renewed-all_of name r = elim (Bool-cases (contains (codes "naive") name)) [
    | inl e ↦ rw e (
        append-nil (benches_of (print_suite_info o_none r).printed)
        ∙ printed-all_of r.suite r.printed)
    | inr e ↦ rw e refl
  ]

  -- After the check for a change the suite ends with the benchmark that the reports are of.
  record Checked (name : Text) (r : Reporter BigO) (benches : List (Bench BigO)) : Type 0 where
    suite : List (Bench BigO)
    bench : Bench BigO
    ends : (check_for_bench_changes o_none name r).suite ≡ ending o_none suite bench
    whole :
        with_bench o_none name benches
        ≡ ending o_none (benches_of (check_for_bench_changes o_none name r).printed ++ suite) bench

  same-Checked :
      (name : Text) (r : Reporter BigO) (benches : List (Bench BigO))
      → IsUsed r
      → benches ≡ all_of r
      → bench_changed o_none name r.suite ≡ false
      → bench_changed o_none name benches ≡ false
      → Checked name r benches
  unfolding check_for_bench_changes
  same-Checked name r benches (unused e p) is same same' =
      let changed : bench_changed o_none name r.suite ≡ true = ap (bench_changed o_none name) e in
      cc (sym changed ∙ same)
  same-Checked name r benches (used suite b e) is same same' = record {
    suite = suite;
    bench = b;
    ends = rw same e;
    whole =
        rw (same', same)
          (is
            ∙ ap (λ l. benches_of r.printed ++ l) e
            ∙ sym (append_assoc (benches_of r.printed) suite (b ∷ [])));
  }

  check-Checked :
      (name : Text) (r : Reporter BigO) (benches : List (Bench BigO))
      → IsUsed r
      → benches ≡ all_of r
      → Checked name r benches
  unfolding check_for_bench_changes
  check-Checked name r benches is e =
      let alike : bench_changed o_none name benches ≡ bench_changed o_none name r.suite =
        ap (differs o_none name) (ap (last_name o_none) e ∙ last_name-all_of r is) in
      elim (Bool-cases (bench_changed o_none name r.suite)) [
        | inl changed ↦ record {
          suite = (renewed o_none name r).suite;
          bench = record { name = bench_name o_none name; measures = [] };
          ends = rw changed refl;
          whole =
              rw (alike ∙ changed, changed)
                (ap (λ l. l ++ (record { name = bench_name o_none name; measures = [] }) ∷ [])
                  (e ∙ sym (renewed-all_of name r)));
        }
        | inr same ↦ same-Checked name r benches is e same (alike ∙ same)
      ]

  -- The benchmarks of a reporter, if there is one.
  abbrev listed : Option (Reporter BigO) → Option (List (Bench BigO))
  listed none = none
  listed (some r) = some (all_of r)

  and_then-listed :
      {printed : List (List (Bench BigO))} {x x' : Option (Reporter BigO)}
      (k : Reporter BigO → Option (Reporter BigO))
      (k' : List (Bench BigO) → Option (List (Bench BigO)))
      → Alike o_none (benches_of printed) printed x x'
      → ((r : Reporter BigO) (benches : List (Bench BigO))
          → IsUsed r
          → benches ≡ all_of r
          → listed (k r) ≡ k' benches)
      → listed (and_then o_none x k) ≡ with_suite o_none x' k'
  and_then-listed k k' neither next = refl
  and_then-listed {printed} k k' (both {r} {r'} suite b e p e') next =
      next r r'.suite (used suite b e) (
        e'
        ∙ append_assoc (benches_of printed) suite (b ∷ [])
        ∙ ap (λ l. benches_of printed ++ l) (sym e)
        ∙ ap (λ l. benches_of l ++ r.suite) (sym p))

  runs-listed :
      (runs : List (List (Report BigO))) (r : Reporter BigO) (benches : List (Bench BigO))
      → IsUsed r
      → benches ≡ all_of r
      → listed (run_specified_benchmarks o_none runs r) ≡ collected o_none runs benches
  unfolding run_specified_benchmarks collected report_runs
  runs-listed [] r benches is e = ap some (sym e)
  runs-listed ([] ∷ runs) r benches is e = refl
  runs-listed ((first_report ∷ reports) ∷ runs) r benches is e =
      let name = first_report.benchmark_name in
      let c = check-Checked name r benches is e in
      let r' = check_for_bench_changes o_none name r in
      and_then-listed (run_specified_benchmarks o_none runs) (collected o_none runs)
        (add_reports-Alike o_none (benches_of r'.printed) r'.printed first_report
          (first_report ∷ reports) r'
          (record { suite = with_bench o_none name benches; printed = [] }) c.suite c.bench c.ends
          refl c.whole)
        (runs-listed runs)

  -- What `main` shows: the exit code, and the benchmarks in the printed tables, in their order.
  abbrev pub shown : Option (ℕ × List (List (Bench BigO))) → Option (ℕ × List (Bench BigO))
  shown none = none
  shown (some (code, printed)) = some (code, benches_of printed)

  abbrev pub with_code : Option (List (Bench BigO)) → Option (ℕ × List (Bench BigO))
  with_code none = none
  with_code (some benches) = some (0, benches)

  -- For any reports that the library hands over, when no argument is unrecognized: `main` returns
  -- exactly if putting them into one list that is never cleared does, and then it returns 0, and the
  -- suites that it prints are, one behind the other, that list. So each benchmark is in one of the
  -- suites, in its place, wherever the suites begin, and also those of the last suite are printed.
  pub main-collected :
      (runs : List (List (Report BigO)))
      → shown (main o_none false runs) ≡ with_code (collected o_none runs [])
  unfolding main
  main-collected runs =
      at_end (run_specified_benchmarks o_none runs (new_reporter o_none))
      ∙ ap with_code (runs-listed runs (new_reporter o_none) [] (unused refl refl) refl)
    where
      at_end : (x : Option (Reporter BigO)) → shown (ended o_none x) ≡ with_code (listed x)
      at_end none = refl
      at_end (some r) = ap (λ l. some (0, l)) (printed-all_of r.suite r.printed)
