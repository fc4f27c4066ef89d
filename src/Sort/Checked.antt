-- ===== src/Sort/Checked.antt =====
-- `sort_impl`, which checks what the sort has done.
use concurrencycourse.Prelude.{
  ℕ, zero, suc, ◌+◌, ◌≤◌, ◌≡◌, refl, ap, ◌∙◌, true, Option, some, arith, if◌then◌else◌,
}
use concurrencycourse.Sort.{
  Container, is_sorted, fill_container, passed, logic_error, check, sort_impl, single_threaded,
  multithreaded,
}
use concurrencycourse.Sort.Permutes.{Permutes, IsSorted, IsNthElement}
use concurrencycourse.Sort.Single.{single_threaded_sort-IsSorted}
use concurrencycourse.Sort.Threads.{sorting, returned, Run}
use concurrencycourse.Sort.Multi.{multithreaded_sort-IsSorted}

is_sorted-true : (size : ℕ) (xs : Container) → IsSorted 0 size xs → is_sorted size xs ≡ true
unfolding is_sorted
is_sorted-true zero xs sorted = refl
is_sorted-true (suc zero) xs sorted = refl
is_sorted-true (suc (suc n)) xs sorted =
    let rest = is_sorted-true (suc n) xs (λ i j lo le hi. sorted i j lo le (omega arith)) in
    let last : xs n ≤ xs (suc n) = sorted n (suc n) (omega arith) (omega arith) (omega arith) in
    ground arith

sort_impl-ok :
    (sorter : Container → Option Container) (size : ℕ) (rand : ℕ → ℕ) {ys : Container}
    → sorter (fill_container size rand) ≡ some ys
    → IsSorted 0 size ys
    → sort_impl sorter size rand ≡ passed ys
unfolding sort_impl
sort_impl-ok sorter size rand {ys} ran sorted =
    ap (check size) ran
    ∙ ap (λ b. if b then passed ys else logic_error) (is_sorted-true size ys sorted)

module _ {nth_element : ℕ → ℕ → ℕ → Container → Container} (nth : IsNthElement nth_element)
    (size : ℕ) (rand : ℕ → ℕ) where
  -- A round of the benchmark passes its check with either sort, whatever `rand` gives: with
  -- `single_threaded_sort`, which returns, and with whatever `multithreaded_sort` has made of the
  -- container when it returns, in any interleaving.
  pub sort_impl-passed :
      {steps : ℕ} {zs : Container}
      → Run nth_element steps (fill_container size rand) (sorting 0 size) zs returned
      → (multithreaded zs size rand ≡ passed zs)
        × ((ys : Container) × (single_threaded nth_element size rand ≡ passed ys)
            × Permutes 0 size (fill_container size rand) ys)
  sort_impl-passed {zs} run =
      let (ys, ran, sorted, moved) =
        single_threaded_sort-IsSorted nth (size + 1) 0 size (fill_container size rand)
          (omega arith) in
      (
        sort_impl-ok (λ _. some zs) size rand refl (multithreaded_sort-IsSorted nth run).0,
        (ys, sort_impl-ok _ size rand ran sorted, moved),
      )
