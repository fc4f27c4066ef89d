-- ===== src/Sort/Unique.antt =====
-- A sorted rearrangement is unique, so the two sorts, and all interleavings, give the same.
use concurrencycourse.Prelude.{
  ℕ, zero, suc, ◌+◌, ◌-◌, ◌≤◌, ◌<◌, ◌≡◌, sym, ap, ◌∙◌, fun_ext, some, arith, dec_lt, ◌==◌,
  if◌then◌else◌, ==_iff,
}
use concurrencycourse.Sort.{Container, single_threaded_sort}
use concurrencycourse.Sort.Permutes.{
  Permutes, Permutes-trans, Permutes-below, Permutes-above, IsSorted, IsNthElement,
}
use concurrencycourse.Sort.Single.{single_threaded_sort-IsSorted}
use concurrencycourse.Sort.Threads.{sorting, returned, Run}
use concurrencycourse.Sort.Multi.{multithreaded_sort-IsSorted}

-- No injection takes `m + 1` numbers to fewer.
pigeonhole :
    (m : ℕ) (h : ℕ → ℕ)
    → ((j : ℕ) → j ≤ m → h j < m)
    → ((i j : ℕ) → i ≤ m → j ≤ m → h i ≡ h j → i ≡ j)
    → ⊥
pigeonhole zero h small inj = absurd (omega (arith, small 0 (omega arith)))
pigeonhole (suc m) h small inj =
    pigeonhole m (λ j. if h j == m then h (suc m) else h j)
      (λ j lt. ground (arith, small j, small (suc m), inj j (suc m), ==_iff (h j) m))
      (λ i j lt lt' e.
        ground (arith, inj i j, inj i (suc m), inj j (suc m), ==_iff (h i) m, ==_iff (h j) m, e))

Permutes-sym : {b e : ℕ} {d f : Container} → Permutes b e d f → Permutes b e f d
Permutes-sym {b} {e} {d} {f} p = record {
  from = p.back;
  back = p.from;
  from-back = p.back-from;
  back-from = p.from-back;
  below = λ i h. ap p.back (sym (p.below i h)) ∙ p.back-from i;
  above = λ i h. ap p.back (sym (p.above i h)) ∙ p.back-from i;
  inside = λ i h h'. (
    elim (dec_lt (p.back i) b) [
      | yes lt ↦ absurd (omega (arith, p.below (p.back i) lt, p.from-back i))
      | no ge ↦ omega arith
    ],
    elim (dec_lt (p.back i) e) [
      | yes lt ↦ lt
      | no ge ↦ absurd (omega (arith, p.above (p.back i) (omega arith), p.from-back i))
    ],
  );
  moved = λ i. ap d (sym (p.from-back i)) ∙ sym (p.moved (p.back i));
}

Sorted-le :
    {b e : ℕ} {f g : Container}
    → IsSorted b e f
    → IsSorted b e g
    → Permutes b e f g
    → (i : ℕ) → b ≤ i
    → i < e
    → f i ≤ g i
Sorted-le {b} {e} {f} {g} sorted sorted' p i lo hi = elim (dec_lt (g i) (f i)) [
  | no ge ↦ omega arith
  | yes lt ↦
      let into : (j : ℕ) → b ≤ j → j ≤ i → (b ≤ p.from j) × (p.from j < i) = λ j lo' hi'.
        let (x, y) = p.inside j lo' (omega arith) in
        (
          x,
          elim (dec_lt (p.from j) i) [
            | yes lt' ↦ lt'
            | no ge ↦ absurd (
                omega (
                  arith,
                  sorted i (p.from j) lo (omega arith) y,
                  p.moved j,
                  sorted' j i lo' hi' hi,
                ))
          ],
        ) in
      absurd (
        pigeonhole (i - b) (λ j. p.from (b + j) - b)
          (λ j h. omega (arith, into (b + j) (omega arith) (omega arith)))
          (λ j k h h' q.
            let same : p.from (b + j) ≡ p.from (b + k) = omega (
              arith,
              into (b + j) (omega arith) (omega arith),
              into (b + k) (omega arith) (omega arith),
            ) in
            omega (arith, sym (p.back-from (b + j)) ∙ ap p.back same ∙ p.back-from (b + k))))
]

Sorted-unique :
    {b e : ℕ} {d f g : Container}
    → IsSorted b e f
    → IsSorted b e g
    → Permutes b e d f
    → Permutes b e d g
    → f ≡ g
Sorted-unique {b} {e} {d} {f} {g} sorted sorted' p q =
    let there = Permutes-trans (Permutes-sym p) q in
    let here = Permutes-trans (Permutes-sym q) p in
    fun_ext (λ i. elim (dec_lt i b) [
      | yes lt ↦ sym (Permutes-below there i lt)
      | no ge ↦ elim (dec_lt i e) [
        | yes lt ↦ omega (
          arith,
          Sorted-le sorted sorted' there i (omega arith) lt,
          Sorted-le sorted' sorted here i (omega arith) lt,
        )
        | no ge' ↦ sym (Permutes-above there i (omega arith))
      ]
    ])

-- The result does not depend on the interleaving: whenever `multithreaded_sort` has returned, the
-- container is what `single_threaded_sort` makes of it, whatever the two do within `nth_element`.
pub sorts_agree :
    {nth_element nth_element' : ℕ → ℕ → ℕ → Container → Container} {steps : ℕ} (b e : ℕ)
    {xs ys : Container}
    → IsNthElement nth_element
    → IsNthElement nth_element'
    → Run nth_element steps xs (sorting b e) ys returned
    → single_threaded_sort nth_element' (e - b + 1) b e xs ≡ some ys
sorts_agree b e {xs} nth nth' run =
    let (sorted, moved) = multithreaded_sort-IsSorted nth run in
    let (zs, ran, sorted', moved') =
      single_threaded_sort-IsSorted nth' (e - b + 1) b e xs (omega arith) in
    ran ∙ ap some (Sorted-unique sorted' sorted moved' moved)
