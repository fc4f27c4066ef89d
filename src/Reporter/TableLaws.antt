-- ===== src/Reporter/TableLaws.antt =====
-- What the table of a suite looks like.
use concurrencycourse.Prelude.{
  ℕ, zero, suc, ◌+◌, ◌*◌, ◌≤◌, ◌<◌, ◌≡◌, refl, sym, ap, ◌∙◌, Bool, some, List, [], ◌∷◌, ◌++◌,
  append_assoc, arith, length, get_elem?, length-append, All,
}
use concurrencycourse.Reporter.Names.{Text, codes}
use concurrencycourse.Reporter.Suite.{Measure, Bench}
use concurrencycourse.Reporter.Table.{
  newline, left, right, size_max, first_column_width, max_column_width, min_measures, cell, cells,
  row, rows, header, suite_info,
}
use concurrencycourse.Reporter.Widths.{
  length-left, length-right, longest_measure-bounds, fewest_measures-All, has_elem,
}

-- Lines of text, each with its newline.
abbrev pub unlines : List Text → Text
unlines [] = []
unlines (line ∷ lines) = (line ++ newline) ++ unlines lines

module _ {BigO : Type 0} (is_none : BigO → Bool) (ratio : ℕ → ℕ → Text)
    (big_o_string : BigO → Text) where
  -- The `i`-th cell of a benchmark is not wider than a column.
  abbrev pub Fits : ℕ → ℕ → Bench BigO → Bench BigO → Type 0
  Fits width i front bench =
      (m m' : Measure BigO)
      → get_elem? front.measures i ≡ some m
      → get_elem? bench.measures i ≡ some m'
      → length (cell is_none ratio big_o_string m m') ≤ width

  cells-some :
      (width i : ℕ) (front : Bench BigO) (suite : List (Bench BigO))
      → i < length front.measures
      → All (λ b. i < length b.measures) suite
      → (out : Text) × (cells is_none ratio big_o_string width i front suite ≡ some out)
        × (All (Fits width i front) suite → length out ≡ length suite * width)
  unfolding cells
  cells-some width i front [] lt lts = ([], refl, λ fit. omega arith)
  cells-some width i front (b ∷ suite) lt (lt', lts) =
      let (m, at) = has_elem front.measures i lt in
      let (m', at') = has_elem b.measures i lt' in
      let (out, ran, wide) = cells-some width i front suite lt lts in
      let text = cell is_none ratio big_o_string m m' in
      (
        right width text ++ out,
        ground (arith, at, at', ran),
        λ fit. ground (
          arith,
          length-append (right width text) out,
          length-right width text (fit.0 m m' at at'),
          wide fit.1,
        ),
      )

  row-some :
      (i : ℕ) (front : Bench BigO) (suite : List (Bench BigO))
      → i < min_measures (front ∷ suite)
      → (line : Text) × (row is_none ratio big_o_string i front (front ∷ suite) ≡ some line)
        × (All (Fits (max_column_width (front ∷ suite)) i front) (front ∷ suite)
            → length line
              ≡ first_column_width front
                + length (front ∷ suite) * max_column_width (front ∷ suite))
  unfolding row
  row-some i front suite lt =
      let all = (fewest_measures-All size_max i (front ∷ suite) lt).1 in
      let (m, at) = has_elem front.measures i all.0 in
      let width = max_column_width (front ∷ suite) in
      let (out, ran, wide) = cells-some width i front (front ∷ suite) all.0 all in
      let first = left (first_column_width front) m.name in
      (
        first ++ out,
        ground (arith, at, ran),
        λ fit. omega (
          arith,
          length-append first out,
          length-left (first_column_width front) m.name (
              omega
                (arith, longest_measure-bounds (length (codes "measure")) front.measures i m at)),
          wide fit,
        ),
      )

  rows-lines :
      (P : Text → Type 0) (count i : ℕ) (front : Bench BigO) (suite : List (Bench BigO))
      → ((j : ℕ)
          → j < i + count
          → (line : Text) × (row is_none ratio big_o_string j front suite ≡ some line) × P line)
      → (lines : List Text) × (rows is_none ratio big_o_string count i front suite
          ≡ some (unlines lines))
        × (length lines ≡ count)
        × All P lines
  unfolding rows
  rows-lines P zero i front suite each = ([], refl, refl, tt)
  rows-lines P (suc count) i front suite each =
      let (line, ran, good) = each i (omega arith) in
      let (lines, ran', size, all) =
        rows-lines P count (suc i) front suite (λ j lt. each j (omega (arith, lt))) in
      (line ∷ lines, ground (arith, ran, ran'), omega (arith, size), (good, all))

  suite_info-lines :
      (P : Text → Type 0) (front : Bench BigO) (suite : List (Bench BigO))
      → ((j : ℕ)
          → j < min_measures (front ∷ suite)
          → (line : Text) × (row is_none ratio big_o_string j front (front ∷ suite) ≡ some line)
            × P line)
      → (lines : List Text) × (suite_info is_none ratio big_o_string (front ∷ suite)
          ≡ some (
              codes "*** Results:\n"
              ++ unlines (header front (front ∷ suite) ∷ lines)
              ++ codes "***\n\n"))
        × (length lines ≡ min_measures (front ∷ suite))
        × All P lines
  unfolding suite_info
  suite_info-lines P front suite each =
      let (lines, ran, size, all) =
        rows-lines P (min_measures (front ∷ suite)) 0 front (front ∷ suite)
          (λ j lt. each j (omega (arith, lt))) in
      (
        lines,
        rw ran (
            ap some (
              append_assoc (codes "*** Results:\n") (header front (front ∷ suite) ++ newline)
                (unlines lines ++ codes "***\n\n")
              ∙ ap (λ t. codes "*** Results:\n" ++ t)
                  (sym (
                    append_assoc (header front (front ∷ suite) ++ newline) (unlines lines)
                      (codes "***\n\n"))))),
        size,
        all,
      )

  -- `PrintSuiteInfo` reads no vector out of its range, so it prints a table for every suite, also if
  -- its benchmarks have different numbers of measures.
  pub suite_info-some :
      (suite : List (Bench BigO))
      → (out : Text) × (suite_info is_none ratio big_o_string suite ≡ some out)
  unfolding suite_info
  suite_info-some [] = ([], refl)
  suite_info-some (front ∷ suite) =
      let (lines, ran, _, _) =
        suite_info-lines (λ _. Unit) front suite
          (λ j lt. let (line, ran, _) = row-some j front suite lt in (line, ran, tt)) in
      (_, ran)
