-- ===== src/Reporter/Table.antt =====
-- `PrintSuiteInfo` of src/x_start.cpp: the table of a suite. `std::setw` pads and never cuts off; it
-- counts for the next item only, while `left` and `right` stay.
use concurrencycourse.Prelude.{
  ℕ, zero, suc, ◌+◌, ◌-◌, ◌^◌, Bool, Option, none, some, List, [], ◌∷◌, ◌++◌, if◌then◌else◌, length,
  get_elem?, replicate,
}
use Prim.Native.Nat.{max, min}
use concurrencycourse.Reporter.Names.{Text, codes}
use concurrencycourse.Reporter.Suite.{Measure, Bench}

abbrev pub space : ℕ
space = b' '

abbrev pub newline : Text
newline = codes "\n"

-- `std::setw(width)`, and `std::left` or `std::right`
unfoldable pub left : ℕ → Text → Text
left width text = text ++ replicate (width - length text) space

unfoldable pub right : ℕ → Text → Text
right width text = replicate (width - length text) space ++ text

abbrev pub gap_between_columns : ℕ
gap_between_columns = 3

-- `static_cast<std::size_t>(-1)`
abbrev pub size_max : ℕ
size_max = 2 ^ 64 - 1

module _ {BigO : Type 0} where
  unfoldable pub longest_measure : ℕ → List (Measure BigO) → ℕ
  longest_measure width [] = width
  longest_measure width (m ∷ measures) = longest_measure (max width (length m.name)) measures

  unfoldable pub longest_bench : ℕ → List (Bench BigO) → ℕ
  longest_bench width [] = width
  longest_bench width (bench ∷ suite) = longest_bench (max width (length bench.name)) suite

  abbrev pub first_column_width : Bench BigO → ℕ
  first_column_width front =
      longest_measure (length (codes "measure")) front.measures + gap_between_columns

  abbrev pub max_column_width : List (Bench BigO) → ℕ
  max_column_width suite = longest_bench 0 suite + gap_between_columns

  unfoldable pub names : ℕ → List (Bench BigO) → Text
  names width [] = []
  names width (bench ∷ suite) = right width bench.name ++ names width suite

  abbrev pub header : Bench BigO → List (Bench BigO) → Text
  header front suite =
      left (first_column_width front) (codes "measure") ++ names (max_column_width suite) suite

  unfoldable pub fewest_measures : ℕ → List (Bench BigO) → ℕ
  fewest_measures least [] = least
  fewest_measures least (bench ∷ suite) = fewest_measures (min least (length bench.measures)) suite

  abbrev pub min_measures : List (Bench BigO) → ℕ
  min_measures = fewest_measures size_max

abbrev pub joined : Option Text → Option Text → Option Text
joined none rest = none
joined (some text) none = none
joined (some text) (some rest) = some (text ++ rest)

-- `is_none` tests a complexity for `oNone`; `ratio` is the text of the quotient of two times, fixed
-- with two digits, and `big_o_string` is `GetBigOString`: these are the standard's and the library's.
module _ {BigO : Type 0} (is_none : BigO → Bool) (ratio : ℕ → ℕ → Text)
    (big_o_string : BigO → Text) where
  unfoldable pub cell : Measure BigO → Measure BigO → Text
  cell front measure =
      if is_none measure.complexity
      then ratio front.time measure.time
      else big_o_string measure.complexity

  abbrev pub padded : ℕ → Option (Measure BigO) → Option (Measure BigO) → Option Text
  padded width none measure = none
  padded width (some front) none = none
  padded width (some front) (some measure) = some (right width (cell front measure))

  -- The cells of row `i`; none if a vector is read out of its range.
  unfoldable pub cells : ℕ → ℕ → Bench BigO → List (Bench BigO) → Option Text
  cells width i front [] = some []
  cells width i front (bench ∷ suite) =
      joined (padded width (get_elem? front.measures i) (get_elem? bench.measures i))
        (cells width i front suite)

  abbrev pub first_cell : ℕ → Option (Measure BigO) → Option Text
  first_cell width none = none
  first_cell width (some m) = some (left width m.name)

  unfoldable pub row : ℕ → Bench BigO → List (Bench BigO) → Option Text
  row i front suite =
      joined (first_cell (first_column_width front) (get_elem? front.measures i))
        (cells (max_column_width suite) i front suite)

  -- The rows from `i` on, with `left` to go, each with its newline.
  unfoldable pub rows : ℕ → ℕ → Bench BigO → List (Bench BigO) → Option Text
  rows zero i front suite = some []
  rows (suc left) i front suite =
      joined (joined (row i front suite) (some newline)) (rows left (suc i) front suite)

  unfoldable pub suite_info : List (Bench BigO) → Option Text
  suite_info [] = some []
  suite_info (front ∷ suite) =
      joined (some (codes "*** Results:\n" ++ header front (front ∷ suite) ++ newline)) (
        joined (rows (min_measures (front ∷ suite)) 0 front (front ∷ suite))
          (some (codes "***\n\n")))
