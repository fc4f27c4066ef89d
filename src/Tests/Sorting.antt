-- ===== src/Tests/Sorting.antt =====
-- An `nth_element` that sorts the whole range, and the sorts with it.
use concurrencycourse.Prelude.{
  ℕ, zero, suc, ◌+◌, ◌-◌, ◌≤◌, ◌<◌, ◌≡◌, refl, ◌⊎◌, inl, inr, some, [], ◌∷◌, arith, dec_lt, ltb,
  ◌==◌, if◌then◌else◌, Bool-cases,
}
use concurrencycourse.Sort.{
  Container, single_threaded_sort, fill_container, passed, single_threaded, multithreaded,
  divide_point,
}
use concurrencycourse.Sort.Permutes.{
  Permutes, Permutes-refl, Permutes-trans, Permutes-wider, Permutes-at_least, Permutes-below,
  IsSorted, IsNthElement,
}
use concurrencycourse.Sort.Threads.{
  Call, sorting, returned, Step, Run, here, next, returns_at_once, divides, async, own, joins,
}
use concurrencycourse.Sort.Races.{ArePairwiseApart, ranges-ArePairwiseApart}
use concurrencycourse.Sort.Multi.{multithreaded_sort-IsSorted, multithreaded_sort-ends}
use concurrencycourse.Sort.Checked.{sort_impl-passed}
use concurrencycourse.Sort.Unique.{sorts_agree}

-- Two neighbours in order.
abbrev swapped : ℕ → ℕ → ℕ
swapped b i = if b == i then b + 1 else if (b + 1) == i then b else i

abbrev order : ℕ → Container → Container
order b xs = if ltb (xs (b + 1)) (xs b) then (λ i. xs (swapped b i)) else xs

-- The least of `k + 1` values from `b` on comes to `b`.
abbrev bubble : ℕ → ℕ → Container → Container
bubble zero b xs = xs
bubble (suc k) b xs = order b (bubble k (b + 1) xs)

abbrev sort_all : ℕ → ℕ → Container → Container
sort_all zero b xs = xs
sort_all (suc k) b xs = sort_all k (b + 1) (bubble k b xs)

abbrev nth_element : ℕ → ℕ → ℕ → Container → Container
nth_element b n e xs = sort_all (e - b) b xs

swapped-Permutes : (b e : ℕ) (xs : Container) → b + 1 < e → Permutes b e xs (λ i. xs (swapped b i))
swapped-Permutes b e xs h = record {
  from = swapped b;
  back = swapped b;
  from-back = λ i. ground arith;
  back-from = λ i. ground arith;
  below = λ i h'. ground arith;
  above = λ i h'. ground arith;
  inside = λ i lo hi. (ground arith, ground arith);
  moved = λ i. refl;
}

order-Permutes : (b e : ℕ) (xs : Container) → b + 1 < e → Permutes b e xs (order b xs)
order-Permutes b e xs h = elim (Bool-cases (ltb (xs (b + 1)) (xs b))) [
  | inl yes_less ↦ rw yes_less (swapped-Permutes b e xs h)
  | inr not_less ↦ rw not_less (Permutes-refl b e xs)
]

bubble-Permutes : (k b : ℕ) (xs : Container) → Permutes b (b + k + 1) xs (bubble k b xs)
bubble-Permutes zero b xs = Permutes-refl b (b + 0 + 1) xs
bubble-Permutes (suc k) b xs =
    Permutes-trans (Permutes-wider (omega arith) (omega arith) (bubble-Permutes k (b + 1) xs))
      (order-Permutes b (b + suc k + 1) (bubble k (b + 1) xs) (omega arith))

bubble-least :
    (k b : ℕ) (xs : Container) (i : ℕ) → b ≤ i → i < b + k + 1 → bubble k b xs b ≤ bubble k b xs i
bubble-least zero b xs i lo hi = let same : i ≡ b = omega arith in rw same (omega arith)
bubble-least (suc k) b xs i lo hi =
    ground (arith, bubble-least k (b + 1) xs i, bubble-least k (b + 1) xs b)

sort_all-Permutes : (k b : ℕ) (xs : Container) → Permutes b (b + k) xs (sort_all k b xs)
sort_all-Permutes zero b xs = Permutes-refl b (b + 0) xs
sort_all-Permutes (suc k) b xs =
    Permutes-trans (Permutes-wider (omega arith) (omega arith) (bubble-Permutes k b xs))
      (Permutes-wider (omega arith) (omega arith) (sort_all-Permutes k (b + 1) (bubble k b xs)))

sort_all-IsSorted : (k b : ℕ) (xs : Container) → IsSorted b (b + k) (sort_all k b xs)
sort_all-IsSorted zero b xs i j lo le hi = absurd (omega arith)
sort_all-IsSorted (suc k) b xs i j lo le hi =
    let moved = sort_all-Permutes k (b + 1) (bubble k b xs) in
    elim (dec_lt b i) [
      | yes lt ↦ sort_all-IsSorted k (b + 1) (bubble k b xs) i j (omega arith) le (omega arith)
      | no ge ↦
          let same : i ≡ b = omega arith in
          elim (dec_lt b j) [
            | yes lt ↦
                rw (same, Permutes-below moved b (omega arith))
                  (Permutes-at_least (bubble k b xs b) moved
                    (λ m lo' hi'. bubble-least k b xs m (omega arith) (omega arith)) j (omega arith)
                    (omega arith))
            | no ge' ↦ let same' : j ≡ i = omega arith in rw same' (omega arith)
          ]
    ]

nth_element-IsNthElement : IsNthElement nth_element
nth_element-IsNthElement = record {
  permutes =
      λ b n e xs lo hi. Permutes-wider (omega arith) (omega arith) (sort_all-Permutes (e - b) b xs);
  splits = λ b n e xs lo hi. record {
    before = λ i lo' hi'. sort_all-IsSorted (e - b) b xs i n lo' (omega arith) (omega arith);
    behind = λ i lo' hi'. sort_all-IsSorted (e - b) b xs n i lo (omega arith) (omega arith);
  };
}

-- `rand` gives 7, 6, 5, and so on; the first two are sorted.
abbrev rand : ℕ → ℕ
rand i = 7 - i

abbrev run_two :
    (zs : Container) × Run nth_element 4 (fill_container 2 rand) (sorting 0 2) zs returned
unfolding fill_container divide_point
run_two = (
  _,
  next (divides (omega arith)) (
      next (async (returns_at_once (omega arith)))
        (next (own (returns_at_once (omega arith))) (next joins here))),
)

multithreaded_sort-IsSorted_example :
    IsSorted 0 2 run_two.0 × Permutes 0 2 (fill_container 2 rand) run_two.0
multithreaded_sort-IsSorted_example = multithreaded_sort-IsSorted nth_element-IsNthElement run_two.1

multithreaded_sort-ends_example :
    (4 ≤ 7)
    × ((returned ≡ returned)
        ⊎ ((zs : Container) × (c' : Call) × Step nth_element run_two.0 returned zs c'))
multithreaded_sort-ends_example = multithreaded_sort-ends nth_element run_two.1

sort_impl-passed_example :
    (multithreaded run_two.0 2 rand ≡ passed run_two.0)
    × ((ys : Container) × (single_threaded nth_element 2 rand ≡ passed ys)
        × Permutes 0 2 (fill_container 2 rand) ys)
sort_impl-passed_example = sort_impl-passed nth_element-IsNthElement 2 rand run_two.1

sorts_agree_example :
    single_threaded_sort nth_element 3 0 2 (fill_container 2 rand) ≡ some run_two.0
sorts_agree_example = sorts_agree 0 2 nth_element-IsNthElement nth_element-IsNthElement run_two.1

ranges-ArePairwiseApart_example : ArePairwiseApart ((0, 2) ∷ (3, 5) ∷ [])
unfolding divide_point
ranges-ArePairwiseApart_example =
    ranges-ArePairwiseApart {nth_element = nth_element} {xs = rand}
      (next (divides {b = 0} {e = 5} (omega arith)) (here {xs = nth_element 0 2 5 rand}))
