-- ===== src/Sort/Multi.antt =====
-- `multithreaded_sort`, in any interleaving of its threads.
use concurrencycourse.Prelude.{ℕ, ◌+◌, ◌-◌, ◌*◌, ◌≤◌, ◌<◌, ◌≡◌, refl, ◌⊎◌, inl, inr, arith, dec_lt}
use concurrencycourse.Sort.{Container, distance, divide_point}
use concurrencycourse.Sort.Permutes.{
  Permutes, Permutes-refl, Permutes-trans, Permutes-wider, Permutes-below, Permutes-above, IsSorted,
  Split, IsNthElement, Split-IsSorted,
}
use concurrencycourse.Sort.Single.{small-IsSorted, divide_point-inside, Split-left, Split-right}
use concurrencycourse.Sort.Threads.{
  Call, sorting, divided, returned, Step, returns_at_once, divides, async, own, joins, Run, here,
  next,
}

-- A call and its threads on the range [b, e): what has been split stays split, and what is done is
-- sorted.
data IsGood (xs : Container) : ℕ → ℕ → Call → Type 0 where
  at_start : {b e : ℕ} → IsGood xs b e (sorting b e)
  done : {b e : ℕ} → IsSorted b e xs → IsGood xs b e returned
  split :
      {b e : ℕ} {task rest : Call} (n : ℕ)
      → b ≤ n
      → n < e
      → Split b n e xs
      → IsGood xs b n task
      → IsGood xs (n + 1) e rest
      → IsGood xs b e (divided task rest)

IsSorted-frame :
    {xs ys : Container} {b e : ℕ}
    → ((i : ℕ) → b ≤ i → i < e → ys i ≡ xs i)
    → IsSorted b e xs
    → IsSorted b e ys
IsSorted-frame same sorted i j lo le hi =
    rw (same i lo (omega arith), same j (omega arith) hi) (sorted i j lo le hi)

IsGood-frame :
    {xs ys : Container} {b e : ℕ} {c : Call}
    → ((i : ℕ) → b ≤ i → i < e → ys i ≡ xs i)
    → IsGood xs b e c
    → IsGood ys b e c
IsGood-frame same at_start = at_start
IsGood-frame same (done sorted) = done (IsSorted-frame same sorted)
IsGood-frame {xs} {ys} {b} {e} same (split n lo hi s l r) =
    split n lo hi
      (record {
        before = λ i lo' hi'. rw (same i lo' (omega arith), same n lo hi) (s.before i lo' hi');
        behind = λ i lo' hi'. rw (same i (omega arith) hi', same n lo hi) (s.behind i lo' hi');
      })
      (IsGood-frame (λ i lo' hi'. same i lo' (omega arith)) l)
      (IsGood-frame (λ i lo' hi'. same i (omega arith) hi') r)

module _ {nth_element : ℕ → ℕ → ℕ → Container → Container} (nth : IsNthElement nth_element) where
  Step-IsGood :
      {xs ys : Container} {b e : ℕ} {c c' : Call}
      → Step nth_element xs c ys c'
      → IsGood xs b e c
      → IsGood ys b e c' × Permutes b e xs ys
  Step-IsGood {xs} {b} {e} (returns_at_once small) at_start =
      (done (small-IsSorted b e xs small), Permutes-refl b e xs)
  Step-IsGood {xs} {b} {e} (divides large) at_start =
      let (lo, hi) = divide_point-inside b e large in
      (
        split (divide_point b e) lo hi (nth.splits b (divide_point b e) e xs lo hi) at_start
            at_start,
        nth.permutes b (divide_point b e) e xs lo hi,
      )
  Step-IsGood (async st) (split n lo hi s l r) =
      let (good, moved) = Step-IsGood st l in
      (
        split n lo hi (Split-left hi s moved) good
            (IsGood-frame (λ i lo' hi'. Permutes-above moved i (omega arith)) r),
        Permutes-wider (omega arith) (omega arith) moved,
      )
  Step-IsGood (own st) (split n lo hi s l r) =
      let (good, moved) = Step-IsGood st r in
      (
        split n lo hi (Split-right s moved)
            (IsGood-frame (λ i lo' hi'. Permutes-below moved i (omega arith)) l) good,
        Permutes-wider (omega arith) (omega arith) moved,
      )
  Step-IsGood {xs} {b} {e} joins (split n lo hi s (done l) (done r)) =
      (done (Split-IsSorted s l r), Permutes-refl b e xs)

  Run-IsGood :
      {steps : ℕ} {xs ys : Container} {b e : ℕ} {c c' : Call}
      → Run nth_element steps xs c ys c'
      → IsGood xs b e c
      → IsGood ys b e c' × Permutes b e xs ys
  Run-IsGood {xs} {b} {e} here good = (good, Permutes-refl b e xs)
  Run-IsGood (next st run) good =
      let (good', moved) = Step-IsGood st good in
      let (good'', moved') = Run-IsGood run good' in (good'', Permutes-trans moved moved')

  IsGood-returned : {xs : Container} {b e : ℕ} → IsGood xs b e returned → IsSorted b e xs
  IsGood-returned (done sorted) = sorted

  -- However its threads interleave, when a call of `multithreaded_sort` has returned the range is
  -- sorted, its values are a rearrangement of those before, and the rest is as before.
  pub multithreaded_sort-IsSorted :
      {steps b e : ℕ} {xs ys : Container}
      → Run nth_element steps xs (sorting b e) ys returned
      → IsSorted b e ys × Permutes b e xs ys
  multithreaded_sort-IsSorted run =
      let (good, moved) = Run-IsGood run at_start in (IsGood-returned good, moved)

-- More than the steps that a call can take.
abbrev weight : Call → ℕ
weight (sorting b e) = 3 * (e - b) + 1
weight (divided task rest) = weight task + weight rest + 1
weight returned = 0

module _ (nth_element : ℕ → ℕ → ℕ → Container → Container) where
  Step-weight :
      {xs ys : Container} {c c' : Call} → Step nth_element xs c ys c' → weight c' < weight c
  Step-weight (returns_at_once small) = omega arith
  Step-weight (divides {b} {e} large) = omega (arith, divide_point-inside b e large)
  Step-weight (async st) = omega (arith, Step-weight st)
  Step-weight (own st) = omega (arith, Step-weight st)
  Step-weight joins = omega arith

  Run-weight :
      {steps : ℕ} {xs ys : Container} {c c' : Call}
      → Run nth_element steps xs c ys c'
      → steps + weight c' ≤ weight c
  Run-weight here = omega arith
  Run-weight (next st run) = omega (arith, Step-weight st, Run-weight run)

  Step-ready :
      (xs : Container) (c : Call)
      → (c ≡ returned) ⊎ ((ys : Container) × (c' : Call) × Step nth_element xs c ys c')
  Step-ready xs (sorting b e) = elim (dec_lt 1 (distance b e)) [
    | yes large ↦ inr (_, _, divides large)
    | no small ↦ inr (_, _, returns_at_once (omega arith))
  ]
  Step-ready xs returned = inl refl
  Step-ready xs (divided task rest) = elim (Step-ready xs task) [
    | inr (ys, c', st) ↦ inr (ys, divided c' rest, async st)
    | inl over ↦ elim (Step-ready xs rest) [
      | inr (ys, c', st) ↦ inr (ys, divided task c', own st)
      | inl over' ↦ inr (xs, returned, rw (over, over') joins)
    ]
  ]

  -- `multithreaded_sort` ends, however its threads interleave: they never take more than
  -- 3 * (e - b) + 1 steps, and until the call has returned some thread can go on, so no join waits
  -- for ever.
  pub multithreaded_sort-ends :
      {steps b e : ℕ} {xs ys : Container} {c : Call}
      → Run nth_element steps xs (sorting b e) ys c
      → (steps ≤ 3 * (e - b) + 1)
        × ((c ≡ returned) ⊎ ((zs : Container) × (c' : Call) × Step nth_element ys c zs c'))
  multithreaded_sort-ends {ys} {c} run = (omega (arith, Run-weight run), Step-ready ys c)
