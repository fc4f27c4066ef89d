-- ===== src/HierarchicalMutex/System.antt =====
-- Threads that lock and unlock `hierarchical_mutex` objects in nested scopes, in any interleaving.
-- A thread checks the hierarchy, waits for the mutex inside, and updates the values when it has it.
use concurrencycourse.Prelude.{ℕ, ◌≡◌, true, false, Option, none, some, List, [], ◌∷◌, update}
use concurrencycourse.HierarchicalMutex.{
  World, hierarchical_mutex, ulong_max, returns, check_for_hierarchy_violation, internal_lock,
  update_hierarchy_value, try_lock, unlock,
}

-- `held` is the stack of scopes of each thread, innermost first; `waiting` the mutex it waits for.
pub record System : Type 0 where
  pub world : World
  pub held : ℕ → List ℕ
  pub waiting : ℕ → Option ℕ

-- An abort ends the process, so no step follows a check that fails.
pub data Step (s : System) : System → Type 0 where
  request :
      (t m : ℕ)
      → s.waiting t ≡ none
      → check_for_hierarchy_violation t m s.world ≡ false
      → Step s (record s { waiting = update s.waiting t (some m) })
  acquire :
      (t m : ℕ) {w : World}
      → s.waiting t ≡ some m
      → internal_lock t m s.world ≡ some w
      → Step s (record {
        world = update_hierarchy_value t m w;
        held = update s.held t (m ∷ s.held t);
        waiting = update s.waiting t none;
      })
  try :
      (t m : ℕ) {w : World}
      → s.waiting t ≡ none
      → try_lock t m s.world ≡ returns true w
      → Step s (record s { world = w; held = update s.held t (m ∷ s.held t) })
  release :
      (t m : ℕ) {rest : List ℕ}
      → s.waiting t ≡ none
      → s.held t ≡ m ∷ rest
      → Step s (record s { world = unlock t m s.world; held = update s.held t rest })

-- The mutexes are constructed with the values of `levels`; no thread holds one.
abbrev pub init : ℕ → (ℕ → ℕ) → System
init bits levels = record {
  world = record {
    mutexes = λ m. hierarchical_mutex (levels m);
    this_thread_hierarchy_value = λ _. ulong_max bits;
  };
  held = λ _. [];
  waiting = λ _. none;
}

pub data Reach (bits : ℕ) (levels : ℕ → ℕ) : System → Type 0 where
  start : Reach bits levels (init bits levels)
  later : {s t : System} → Reach bits levels s → Step s t → Reach bits levels t
