-- ===== src/Reporter/Measures.antt =====
-- What `ReportRuns` adds to the suite.
use concurrencycourse.Prelude.{
  ℕ, zero, suc, ◌≡◌, refl, sym, ap, ◌∙◌, ◌⊎◌, inl, inr, true, false, not, Option, none, some, List,
  [], ◌∷◌, ◌++◌, arith, ==_iff, Bool-cases, take,
}
use concurrencycourse.Reporter.Names.{Text, slash, find, starts_with, contains, is_found, substr}
use concurrencycourse.Reporter.Suite.{
  Measure, Bench, Reporter, bench_name, push_measure, last_name, differs, after_check, set_suite,
  bench_changed, renewed, check_for_bench_changes, add_measure,
}

module _ {BigO : Type 0} (o_none : BigO) where
  -- The suite ends with `b`.
  abbrev pub ending : List (Bench BigO) → Bench BigO → List (Bench BigO)
  ending before b = before ++ b ∷ []

  abbrev pub with_measures : Bench BigO → List (Measure BigO) → Bench BigO
  with_measures b added = record b { measures = b.measures ++ added }

  push_measure-ending :
      (m : Measure BigO) (before : List (Bench BigO)) (b : Bench BigO)
      → push_measure o_none m (ending before b) ≡ some (ending before (with_measures b (m ∷ [])))
  push_measure-ending m [] b = refl
  push_measure-ending m (a ∷ []) b = refl
  push_measure-ending m (a ∷ c ∷ before) b = rw (push_measure-ending m (c ∷ before) b) refl

  pub add_measure-ending :
      (m : Measure BigO) (r : Reporter BigO) (before : List (Bench BigO)) (b : Bench BigO)
      → r.suite ≡ ending before b
      → add_measure o_none m r
        ≡ some (record r { suite = ending before (with_measures b (m ∷ [])) })
  add_measure-ending m r before b e =
      ap (set_suite o_none r) (ap (push_measure o_none m) e ∙ push_measure-ending m before b)

  split_last :
      (suite : List (Bench BigO))
      → (suite ≡ [])
        ⊎ ((before : List (Bench BigO)) × (b : Bench BigO) × (suite ≡ ending before b)
            × (last_name o_none suite ≡ some b.name))
  split_last [] = inl refl
  split_last (b ∷ []) = inr ([], b, refl, refl)
  split_last (a ∷ c ∷ suite) = elim (split_last (c ∷ suite)) [
    | inl e ↦ cc e
    | inr (before, b, e, e') ↦ inr (a ∷ before, b, ap (λ bs. a ∷ bs) e, e')
  ]

  starts_with-take : (n : ℕ) (text : Text) → starts_with (take n text) text ≡ true
  starts_with-take zero text = refl
  starts_with-take (suc n) [] = refl
  starts_with-take (suc n) (c ∷ text) = ground (arith, starts_with-take n text, ==_iff c c)

  starts_with_self : (text : Text) → starts_with text text ≡ true
  starts_with_self [] = refl
  starts_with_self (c ∷ text) = ground (arith, starts_with_self text, ==_iff c c)

  find-start : (pattern text : Text) → starts_with pattern text ≡ true → find pattern text ≡ some 0
  find-start pattern [] s = rw s refl
  find-start pattern (c ∷ text) s = rw s refl

  contains-substr : (name : Text) (count : Option ℕ) → contains (substr name count) name ≡ true
  contains-substr name none = ap (is_found) (find-start name name (starts_with_self name))
  contains-substr name (some count) =
      ap (is_found) (find-start (take count name) name (starts_with-take count name))

  -- After `CheckForBenchChanges` there is a last benchmark, and its name is part of the name of the
  -- benchmark that is reported.
  pub last-in_name :
      (benchmark_name : Text) (r : Reporter BigO)
      → (before : List (Bench BigO)) × (b : Bench BigO) × ((check_for_bench_changes o_none
            benchmark_name r).suite
          ≡ ending before b)
        × (contains b.name benchmark_name ≡ true)
  unfolding check_for_bench_changes
  last-in_name benchmark_name r = elim (Bool-cases (bench_changed o_none benchmark_name r.suite)) [
    | inl changed ↦ (
      (renewed o_none benchmark_name r).suite,
      record { name = bench_name o_none benchmark_name; measures = [] },
      ap (λ b. (after_check o_none b benchmark_name r).suite) changed,
      contains-substr benchmark_name (find (slash ∷ []) benchmark_name),
    )
    | inr same ↦ elim (split_last r.suite) [
      | inl e ↦ cc (sym same ∙ ap (bench_changed o_none benchmark_name) e)
      | inr (before, b, e, e') ↦ (
        before,
        b,
        ap (λ b. (after_check o_none b benchmark_name r).suite) same ∙ e,
        let known : not (contains b.name benchmark_name) ≡ false =
              ap (differs o_none benchmark_name) (sym e') ∙ same in
            ground arith,
      )
    ]
  ]
