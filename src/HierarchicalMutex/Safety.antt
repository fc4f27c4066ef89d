-- ===== src/HierarchicalMutex/Safety.antt =====
-- No deadlock among threads that lock `hierarchical_mutex` objects in nested scopes.
use concurrencycourse.Prelude.{
  ℕ, zero, suc, ◌^◌, ◌<◌, ◌≡◌, inl, inr, none, some, arith, Option-cases,
}
use concurrencycourse.HierarchicalMutex.System.{System, Reach}
use concurrencycourse.HierarchicalMutex.Invariant.{Inv, value-le}
use concurrencycourse.HierarchicalMutex.Steps.{Reach-Inv}

-- Thread `t` waits for a mutex that thread `u` has.
abbrev pub WaitsFor : System → ℕ → ℕ → Type 0
WaitsFor s t u = (m : ℕ) × (s.waiting t ≡ some m) × ((s.world.mutexes m).owner ≡ some u)

-- A chain of such waits.
pub data WaitsThrough (s : System) (t : ℕ) : ℕ → Type 0 where
  one : {u : ℕ} → WaitsFor s t u → WaitsThrough s t u
  more : {u v : ℕ} → WaitsThrough s t u → WaitsFor s u v → WaitsThrough s t v

module _ {levels : ℕ → ℕ} {s : System} (inv : Inv levels s) where
  value_falls :
      {t u : ℕ}
      → WaitsFor s t u
      → s.world.this_thread_hierarchy_value u < s.world.this_thread_hierarchy_value t
  value_falls {t} {u} (m, asked, has_it) =
      omega (arith, inv.waits t m asked, value-le inv u m has_it)

  values_fall :
      {t u : ℕ}
      → WaitsThrough s t u
      → s.world.this_thread_hierarchy_value u < s.world.this_thread_hierarchy_value t
  values_fall (one w) = value_falls w
  values_fall (more ws w) = omega (arith, values_fall ws, value_falls w)

-- In every reachable state no thread waits, through any chain of waits, for itself: neither for a
-- mutex that it holds nor in a circle of threads. The values of the mutexes must fit an `unsigned`.
pub no_circular_wait :
    {bits : ℕ} {levels : ℕ → ℕ} {s : System} (t : ℕ)
    → ((k : ℕ) → levels k < 2 ^ 32)
    → Reach bits levels s
    → ¬ WaitsThrough s t t
no_circular_wait t fits r ws = omega (arith, values_fall (Reach-Inv fits r) ws)

-- A thread that can go on: it runs and holds a mutex, or it waits for a mutex that is free.
pub data CanMove (s : System) : Type 0 where
  runs : (u m : ℕ) → s.waiting u ≡ none → (s.world.mutexes m).owner ≡ some u → CanMove s
  enters : (u m : ℕ) → s.waiting u ≡ some m → (s.world.mutexes m).owner ≡ none → CanMove s

find_mover :
    {levels : ℕ → ℕ} {s : System}
    → Inv levels s
    → (fuel t m : ℕ) → s.waiting t ≡ some m
    → s.world.this_thread_hierarchy_value t < fuel
    → CanMove s
find_mover inv zero t m asked small = absurd (omega arith)
find_mover {s} inv (suc fuel) t m asked small = elim (Option-cases (s.world.mutexes m).owner) [
  | inl free ↦ enters t m asked free
  | inr (u, has_it) ↦ elim (Option-cases (s.waiting u)) [
    | inl quiet ↦ runs u m quiet has_it
    | inr (m', asked') ↦
        find_mover inv fuel u m' asked' (omega (arith, value_falls inv (m, asked, has_it)))
  ]
]

-- In every reachable state in which a thread waits for a mutex, some thread can go on: it runs and
-- holds a mutex, or the mutex that it waits for is free. The values must fit an `unsigned`.
pub no_deadlock :
    {bits : ℕ} {levels : ℕ → ℕ} {s : System} (t m : ℕ)
    → ((k : ℕ) → levels k < 2 ^ 32)
    → Reach bits levels s
    → s.waiting t ≡ some m
    → CanMove s
no_deadlock {s} t m fits r asked =
    find_mover (Reach-Inv fits r) (suc (s.world.this_thread_hierarchy_value t)) t m asked
      (omega arith)
