-- ===== src/Reporter/Widths.antt =====
-- The columns of the table of a suite, and how many rows it has.
use concurrencycourse.Prelude.{
  ℕ, zero, suc, ◌-◌, ◌*◌, ◌^◌, ◌≤◌, ◌<◌, ◌≡◌, refl, subst, ◌⊎◌, inl, inr, some, List, [], ◌∷◌,
  arith, dec_lt, length, get_elem?, length-append, replicate, All,
}
use Prim.Native.Nat.{max, min}
use concurrencycourse.Prelude.{length-replicate}
use concurrencycourse.Reporter.Names.{Text}
use concurrencycourse.Reporter.Suite.{Measure, Bench}
use concurrencycourse.Reporter.Table.{
  space, left, right, longest_measure, longest_bench, names, fewest_measures, min_measures,
  size_max,
}

pub length-left : (width : ℕ) (text : Text) → length text ≤ width → length (left width text) ≡ width
unfolding left
length-left width text fits = omega (
  arith,
  fits,
  length-append text (replicate (width - length text) space),
  length-replicate (width - length text) space,
)

pub length-right :
    (width : ℕ) (text : Text) → length text ≤ width → length (right width text) ≡ width
unfolding right
length-right width text fits = omega (
  arith,
  fits,
  length-append (replicate (width - length text) space) text,
  length-replicate (width - length text) space,
)

module _ {BigO : Type 0} where
  pub longest_measure-ge :
      (width : ℕ) (measures : List (Measure BigO)) → width ≤ longest_measure width measures
  unfolding longest_measure
  longest_measure-ge width [] = omega arith
  longest_measure-ge width (m ∷ measures) =
      omega (arith, longest_measure-ge (max width (length m.name)) measures)

  pub longest_measure-bounds :
      (width : ℕ) (measures : List (Measure BigO)) (i : ℕ) (m : Measure BigO)
      → get_elem? measures i ≡ some m
      → length m.name ≤ longest_measure width measures
  unfolding longest_measure
  longest_measure-bounds width [] i m e = cc e
  longest_measure-bounds width (m' ∷ measures) zero m e =
      let is : m' ≡ m = cc e in
      subst (λ n. length n.name ≤ longest_measure (max width (length m'.name)) measures) is
        (omega (arith, longest_measure-ge (max width (length m'.name)) measures))
  longest_measure-bounds width (m' ∷ measures) (suc i) m e =
      longest_measure-bounds (max width (length m'.name)) measures i m e

  longest_bench-ge : (width : ℕ) (suite : List (Bench BigO)) → width ≤ longest_bench width suite
  unfolding longest_bench
  longest_bench-ge width [] = omega arith
  longest_bench-ge width (b ∷ suite) =
      omega (arith, longest_bench-ge (max width (length b.name)) suite)

  pub longest_bench-All :
      (width : ℕ) (suite : List (Bench BigO))
      → All (λ b. length b.name ≤ longest_bench width suite) suite
  unfolding longest_bench
  longest_bench-All width [] = tt
  longest_bench-All width (b ∷ suite) = (
    omega (arith, longest_bench-ge (max width (length b.name)) suite),
    longest_bench-All (max width (length b.name)) suite,
  )

  pub length-names :
      (width : ℕ) (suite : List (Bench BigO))
      → All (λ b. length b.name ≤ width) suite
      → length (names width suite) ≡ length suite * width
  unfolding names
  length-names width [] fit = omega arith
  length-names width (b ∷ suite) (fits, fit) = ground (
    arith,
    length-append (right width b.name) (names width suite),
    length-right width b.name fits,
    length-names width suite fit,
  )

  -- A row for measure `i` is printed only if every benchmark of the suite has an `i`-th measure.
  pub fewest_measures-All :
      (least i : ℕ) (suite : List (Bench BigO))
      → i < fewest_measures least suite
      → (i < least) × All (λ b. i < length b.measures) suite
  unfolding fewest_measures
  fewest_measures-All least i [] lt = (lt, tt)
  fewest_measures-All least i (b ∷ suite) lt =
      let (small, all) = fewest_measures-All (min least (length b.measures)) i suite lt in
      (omega (arith, small), (omega (arith, small), all))

  -- It is the number of measures of one of these benchmarks, and none of them has fewer.
  pub record IsFewest (count : ℕ) (suite : List (Bench BigO)) : Type 0 where
    pub least : All (λ b. count ≤ length b.measures) suite
    pub reached :
        (j : ℕ) × (b : Bench BigO) × (get_elem? suite j ≡ some b) × (length b.measures ≡ count)

  fewest_measures-le :
      (least : ℕ) (suite : List (Bench BigO))
      → (fewest_measures least suite ≤ least)
        × All (λ b. fewest_measures least suite ≤ length b.measures) suite
  unfolding fewest_measures
  fewest_measures-le least [] = (omega arith, tt)
  fewest_measures-le least (b ∷ suite) =
      let (small, all) = fewest_measures-le (min least (length b.measures)) suite in
      (omega (arith, small), (omega (arith, small), all))

  fewest_measures-has :
      (least : ℕ) (suite : List (Bench BigO))
      → (fewest_measures least suite ≡ least)
        ⊎ ((j : ℕ) × (b : Bench BigO) × (get_elem? suite j ≡ some b)
            × (length b.measures ≡ fewest_measures least suite))
  unfolding fewest_measures
  fewest_measures-has least [] = inl refl
  fewest_measures-has least (b ∷ suite) =
      elim (fewest_measures-has (min least (length b.measures)) suite) [
        | inr (j, b', at, size) ↦ inr (suc j, b', at, size)
        | inl same ↦ elim (dec_lt (length b.measures) least) [
          | yes lt ↦ inr (0, b, refl, omega (arith, same, lt))
          | no ge ↦ inl (omega (arith, same, ge))
        ]
      ]

  pub min_measures-IsFewest :
      (front : Bench BigO) (suite : List (Bench BigO))
      → length front.measures < 2 ^ 64
      → IsFewest (min_measures (front ∷ suite)) (front ∷ suite)
  unfolding fewest_measures
  min_measures-IsFewest front suite small = record {
    least = (fewest_measures-le size_max (front ∷ suite)).1;
    reached = elim (fewest_measures-has (min size_max (length front.measures)) suite) [
      | inr (j, b, at, size) ↦ (suc j, b, at, size)
      | inl same ↦ (0, front, refl, omega (arith, same, small))
    ];
  }

pub has_elem :
    {A : Type 0} (xs : List A) (i : ℕ) → i < length xs → (x : A) × (get_elem? xs i ≡ some x)
has_elem [] i lt = absurd (omega (arith, lt))
has_elem (x ∷ xs) zero lt = (x, refl)
has_elem (x ∷ xs) (suc i) lt = has_elem xs i (omega (arith, lt))
