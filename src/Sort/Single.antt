-- ===== src/Sort/Single.antt =====
-- The recursive sort.
use concurrencycourse.Prelude.{ℕ, zero, suc, ◌+◌, ◌-◌, ◌≤◌, ◌<◌, ◌≡◌, ◌∙◌, some, arith, dec_lt}
use concurrencycourse.Sort.{Container, distance, divide_point, single_threaded_sort}
use concurrencycourse.Sort.Permutes.{
  Permutes, Permutes-refl, Permutes-trans, Permutes-wider, Permutes-at_most, Permutes-at_least,
  Permutes-below, Permutes-above, IsSorted, Split, IsNthElement, Split-IsSorted,
}

pub small-IsSorted : (b e : ℕ) (d : Container) → e - b ≤ 1 → IsSorted b e d
small-IsSorted b e d h i j lo le hi = let same : i ≡ j = omega arith in rw same (omega arith)

pub divide_point-inside : (b e : ℕ) → 1 < e - b → (b ≤ divide_point b e) × (divide_point b e < e)
unfolding divide_point
divide_point-inside b e h = (omega arith, omega arith)

-- Rearranging either part keeps the split.
pub Split-left :
    {b n e : ℕ} {d f : Container} → n < e → Split b n e d → Permutes b n d f → Split b n e f
Split-left {b} {n} {e} {d} {f} inside s p =
    let here : f n ≡ d n = Permutes-above p n (omega arith) in
    record {
      before = λ i lo hi. rw here (Permutes-at_most (d n) p s.before i lo hi);
      behind = λ i lo hi. rw (here, Permutes-above p i (omega arith)) (s.behind i lo hi);
    }

pub Split-right :
    {b n e : ℕ} {d f : Container} → Split b n e d → Permutes (n + 1) e d f → Split b n e f
Split-right {b} {n} {e} {d} {f} s p =
    let here : f n ≡ d n = Permutes-below p n (omega arith) in
    record {
      before = λ i lo hi. rw (here, Permutes-below p i (omega arith)) (s.before i lo hi);
      behind = λ i lo hi. rw here (
          Permutes-at_least (d n) p (λ k lo' hi'. s.behind k (omega arith) hi') i (omega arith) hi);
    }

pub IsSorted-below :
    {b n n' e : ℕ} {d f : Container} → n ≤ n' → Permutes n' e d f → IsSorted b n d → IsSorted b n f
IsSorted-below h p s i j lo le hi =
    rw (Permutes-below p i (omega arith), Permutes-below p j (omega arith)) (s i j lo le hi)

module _ (nth_element : ℕ → ℕ → ℕ → Container → Container) (fuel b e : ℕ) (d : Container) where
  sort-small : e - b ≤ 1 → single_threaded_sort nth_element (suc fuel) b e d ≡ some d
  unfolding single_threaded_sort
  sort-small h = ground arith

  sort-large :
      {left : Container}
      → 1 < e - b
      → single_threaded_sort nth_element fuel b
          (divide_point b e)
          (nth_element b (divide_point b e) e d)
        ≡ some left
      → single_threaded_sort nth_element (suc fuel) b e d
        ≡ single_threaded_sort nth_element fuel (divide_point b e + 1) e left
  unfolding single_threaded_sort
  sort-large h ran = rw ran (ground arith)

module _ {nth_element : ℕ → ℕ → ℕ → Container → Container} (nth : IsNthElement nth_element) where
  -- With a recursion as deep as the range is long, `single_threaded_sort` returns, whatever
  -- `nth_element` does within what the standard says of it: the range is then sorted, its values are a
  -- rearrangement of those before, and the rest is as before.
  pub single_threaded_sort-IsSorted :
      (fuel b e : ℕ) (d : Container)
      → e - b < fuel
      → (f : Container) × (single_threaded_sort nth_element fuel b e d ≡ some f)
        × IsSorted b e f
        × Permutes b e d f
  single_threaded_sort-IsSorted zero b e d h = absurd (omega arith)
  single_threaded_sort-IsSorted (suc fuel) b e d h = elim (dec_lt 1 (distance b e)) [
    | no small ↦ (
      d,
      sort-small nth_element fuel b e d (omega arith),
      small-IsSorted b e d (omega arith),
      Permutes-refl b e d,
    )
    | yes large ↦
        let n = divide_point b e in
        let (lo, hi) = divide_point-inside b e large in
        let splits = nth.splits b n e d lo hi in
        let rearranged = nth.permutes b n e d lo hi in
        let (left, left_ran, left_sorted, left_moved) =
          single_threaded_sort-IsSorted fuel b n (nth_element b n e d) (omega arith) in
        let (f, ran, right_sorted, right_moved) =
          single_threaded_sort-IsSorted fuel (n + 1) e left (omega arith) in
        (
          f,
          sort-large nth_element fuel b e d large left_ran ∙ ran,
          Split-IsSorted (Split-right (Split-left hi splits left_moved) right_moved)
              (IsSorted-below (omega arith) right_moved left_sorted) right_sorted,
          Permutes-trans rearranged (
              Permutes-trans (Permutes-wider (omega arith) (omega arith) left_moved)
                (Permutes-wider (omega arith) (omega arith) right_moved)),
        )
  ]
