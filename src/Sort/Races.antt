-- ===== src/Sort/Races.antt =====
-- The parts of the container that the calls of `multithreaded_sort` under way are to sort.
use concurrencycourse.Prelude.{ℕ, ◌≤◌, ◌⊎◌, inl, List, [], ◌∷◌, ◌++◌, arith, All, All-mono}
use concurrencycourse.Prelude.{All-append}
use concurrencycourse.Sort.{Container, divide_point}
use concurrencycourse.Sort.Threads.{
  Call, sorting, divided, returned, Step, returns_at_once, divides, async, own, joins, Run, here,
  next,
}

-- The ranges that the calls under way are to divide and sort.
abbrev pub ranges : Call → List (ℕ × ℕ)
ranges (sorting b e) = (b, e) ∷ []
ranges (divided task c) = ranges task ++ ranges c
ranges returned = []

abbrev pub IsApart : ℕ × ℕ → ℕ × ℕ → Type 0
IsApart (b, e) (b', e') = (e ≤ b') ⊎ (e' ≤ b)

abbrev pub ArePairwiseApart : List (ℕ × ℕ) → Type 0
ArePairwiseApart [] = Unit
ArePairwiseApart (r ∷ rs) = All (IsApart r) rs × ArePairwiseApart rs

abbrev IsWithin : ℕ → ℕ → ℕ × ℕ → Type 0
IsWithin lo hi (b, e) = (lo ≤ b) × (e ≤ hi)

append-ArePairwiseApart :
    (rs rs' : List (ℕ × ℕ))
    → ArePairwiseApart rs
    → ArePairwiseApart rs'
    → All (λ r. All (IsApart r) rs') rs
    → ArePairwiseApart (rs ++ rs')
append-ArePairwiseApart [] rs' apart apart' between = apart'
append-ArePairwiseApart (r ∷ rs) rs' (a, apart) apart' (b, between) =
    (All-append (IsApart r) rs rs' a b, append-ArePairwiseApart rs rs' apart apart' between)

-- A call that uses the elements from `lo` on and below `hi` only, its parts one behind the other.
data Uses : ℕ → ℕ → Call → Type 0 where
  use_range : {lo hi b e : ℕ} → lo ≤ b → e ≤ hi → Uses lo hi (sorting b e)
  use_parts :
      {lo hi : ℕ} {task c : Call} (mid : ℕ)
      → lo ≤ mid
      → mid ≤ hi
      → Uses lo mid task
      → Uses mid hi c
      → Uses lo hi (divided task c)
  use_none : {lo hi : ℕ} → Uses lo hi returned

Uses-All : {lo hi : ℕ} {c : Call} → Uses lo hi c → All (IsWithin lo hi) (ranges c)
Uses-All (use_range le le') = ((le, le'), tt)
Uses-All {c = divided task c} (use_parts mid le le' u u') =
    All-append (IsWithin _ _) (ranges task) (ranges c)
      (All-mono (ranges task) (λ r w. (w.0, omega (arith, w.1, le'))) (Uses-All u))
      (All-mono (ranges c) (λ r w. (omega (arith, w.0, le), w.1)) (Uses-All u'))
Uses-All use_none = tt

Uses-apart : {lo hi : ℕ} {c : Call} → Uses lo hi c → ArePairwiseApart (ranges c)
Uses-apart (use_range le le') = (tt, tt)
Uses-apart {c = divided task c} (use_parts mid le le' u u') =
    append-ArePairwiseApart (ranges task) (ranges c) (Uses-apart u) (Uses-apart u') (
      All-mono (ranges task)
        (λ r w. All-mono (ranges c) (λ r' w'. inl (omega (arith, w.1, w'.0))) (Uses-All u'))
        (Uses-All u))
Uses-apart use_none = tt

module _ {nth_element : ℕ → ℕ → ℕ → Container → Container} where
  Step-Uses :
      {xs ys : Container} {c c' : Call}
      → Step nth_element xs c ys c'
      → {lo hi : ℕ} → Uses lo hi c
      → Uses lo hi c'
  unfolding divide_point
  Step-Uses (returns_at_once le) u = use_none
  Step-Uses (divides {b} {e} many) (use_range le le') =
      use_parts (divide_point b e) (omega (arith, le, many)) (omega (arith, le', many))
        (use_range le (omega arith)) (use_range (omega arith) le')
  Step-Uses (async st) (use_parts mid le le' u u') = use_parts mid le le' (Step-Uses st u) u'
  Step-Uses (own st) (use_parts mid le le' u u') = use_parts mid le le' u (Step-Uses st u')
  Step-Uses joins u = use_none

  Run-Uses :
      {steps lo hi : ℕ} {xs ys : Container} {c c' : Call}
      → Run nth_element steps xs c ys c'
      → Uses lo hi c
      → Uses lo hi c'
  Run-Uses here u = u
  Run-Uses (next st run) u = Run-Uses run (Step-Uses st u)

  -- However the threads of `multithreaded_sort` interleave, at any time the ranges of any two calls
  -- under way have no element in common: so no thread reads or writes an element that another one uses.
  pub ranges-ArePairwiseApart :
      {steps b e : ℕ} {xs ys : Container} {c : Call}
      → Run nth_element steps xs (sorting b e) ys c
      → ArePairwiseApart (ranges c)
  ranges-ArePairwiseApart {b} {e} run =
      Uses-apart {lo = b} {hi = e} (Run-Uses run (use_range (omega arith) (omega arith)))
