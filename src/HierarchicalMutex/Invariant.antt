-- ===== src/HierarchicalMutex/Invariant.antt =====
-- What holds in every state of the threads: the scopes of a thread form a strictly falling chain.
use concurrencycourse.Prelude.{
  ℕ, ◌≤◌, ◌<◌, ◌≡◌, true, some, List, [], ◌∷◌, arith, All, All-has, All-mono, has,
}
use concurrencycourse.HierarchicalMutex.{World}
use concurrencycourse.HierarchicalMutex.System.{System}

-- `x` lies below the value of the innermost scope of `ms`.
abbrev pub Below : World → ℕ → List ℕ → Type 0
Below w x [] = Unit
Below w x (m ∷ ms) = x < (w.mutexes m).hierarchy_value

-- `v` is the value of the innermost scope, each mutex remembers that of the scope around it, and the
-- values rise outwards. Nothing is said of the value of a thread that holds no mutex.
abbrev pub Chain : World → ℕ → ℕ → List ℕ → Type 0
Chain w t v [] = Unit
Chain w t v (m ∷ ms) =
    (v ≡ (w.mutexes m).hierarchy_value)
    × ((w.mutexes m).owner ≡ some t)
    × Below w (w.mutexes m).hierarchy_value ms
    × Chain w t (w.mutexes m).previous_hierarchy_value ms

pub record Inv (levels : ℕ → ℕ) (s : System) : Type 0 where
  pub fixed : (m : ℕ) → (s.world.mutexes m).hierarchy_value ≡ levels m
  pub chain : (t : ℕ) → Chain s.world t (s.world.this_thread_hierarchy_value t) (s.held t)
  pub owned : (t m : ℕ) → (s.world.mutexes m).owner ≡ some t → has m (s.held t) ≡ true
  pub waits :
      (t m : ℕ)
      → s.waiting t ≡ some m
      → (s.world.mutexes m).hierarchy_value < s.world.this_thread_hierarchy_value t

pub Chain-frame :
    (w w' : World) (t v : ℕ) (ms : List ℕ)
    → All (λ m. w'.mutexes m ≡ w.mutexes m) ms
    → Chain w t v ms
    → Chain w' t v ms
Chain-frame w w' t v [] same c = tt
Chain-frame w w' t v (m ∷ []) (e, same) (a, b, _, _) = (rw e a, rw e b, tt, tt)
Chain-frame w w' t v (m ∷ k ∷ ms) (e, same) (a, b, l, c) =
    let rest = Chain-frame w w' t (w.mutexes m).previous_hierarchy_value (k ∷ ms) same c in
    (rw e a, rw e b, rw (e, same.0) l, rw e rest)

pub Below-frame :
    (w w' : World) (x : ℕ) (ms : List ℕ)
    → ((k : ℕ) → (w'.mutexes k).hierarchy_value ≡ (w.mutexes k).hierarchy_value)
    → Below w x ms
    → Below w' x ms
Below-frame w w' x [] same l = tt
Below-frame w w' x (k ∷ ms) same l = rw (same k) l

-- A chain hangs only on its own thread's mutexes.
pub Chain-owned :
    (w : World) (t v : ℕ) (ms : List ℕ)
    → Chain w t v ms
    → All (λ m. (w.mutexes m).owner ≡ some t) ms
Chain-owned w t v [] c = tt
Chain-owned w t v (m ∷ ms) (a, b, l, c) = (b, Chain-owned w t _ ms c)

-- Everything in a chain lies above what lies below its innermost scope.
pub Chain-above :
    (w : World) (t v x : ℕ) (ms : List ℕ)
    → Chain w t v ms
    → Below w x ms
    → All (λ m. x < (w.mutexes m).hierarchy_value) ms
Chain-above w t v x [] c l = tt
Chain-above w t v x (m ∷ ms) (a, b, k, c) l =
    (l, All-mono ms (λ m' h. omega arith) (Chain-above w t _ _ ms c k))

Chain-le :
    (w : World) (t v : ℕ) (ms : List ℕ)
    → Chain w t v ms
    → All (λ m. v ≤ (w.mutexes m).hierarchy_value) ms
Chain-le w t v [] c = tt
Chain-le w t v (m ∷ ms) (a, b, k, c) =
    (omega arith, All-mono ms (λ m' h. omega arith) (Chain-above w t _ _ ms c k))

-- A thread's value is at most that of each mutex that it holds.
pub value-le :
    {levels : ℕ → ℕ} {s : System}
    → Inv levels s
    → (t m : ℕ) → (s.world.mutexes m).owner ≡ some t
    → s.world.this_thread_hierarchy_value t ≤ (s.world.mutexes m).hierarchy_value
value-le {s} inv t m o =
    All-has (λ m. s.world.this_thread_hierarchy_value t ≤ (s.world.mutexes m).hierarchy_value) m
      (s.held t) (Chain-le s.world t _ (s.held t) (inv.chain t)) (inv.owned t m o)
