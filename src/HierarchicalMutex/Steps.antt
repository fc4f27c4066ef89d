-- ===== src/HierarchicalMutex/Steps.antt =====
-- Every step of the threads keeps the invariant, as long as the values fit an `unsigned`.
use concurrencycourse.Prelude.{
  ℕ, ◌%◌, ◌^◌, ◌<◌, ◌≡◌, refl, ap, ◌∙◌, ◌≢◌, Option, none, some, List, [], ◌∷◌, arith, ℕ_discrete,
  update, All-mono, update_elim,
}
use concurrencycourse.HierarchicalMutex.{World}
use concurrencycourse.HierarchicalMutex.Effects.{
  Gave, Locked, internal_lock-Took, unlock-Gave, check-lt, try_lock-Locked,
}
use concurrencycourse.HierarchicalMutex.System.{
  System, Step, request, acquire, try, release, Reach, start, later,
}
use concurrencycourse.HierarchicalMutex.Invariant.{
  Chain, Below, Inv, Chain-frame, Below-frame, Chain-owned, Chain-above,
}

module _ {levels : ℕ → ℕ} {s : System} (inv : Inv levels s) (t m : ℕ) where
  open inv use {fixed, chain, owned, waits}

  -- What the waiting threads keep of their claim when another thread changes its value.
  abbrev Quiet : (ℕ → Option ℕ) → Type 0
  Quiet waiting = (waiting t ≡ none) × ((u : ℕ) → u ≢ t → waiting u ≡ s.waiting u)

  module _ (fits : (k : ℕ) → levels k < 2 ^ 32) {w' : World} (took : Locked t m s.world w') where
    open (took.took) use {free, self, other, value, values}

    -- A mutex that has an owner is not the one that was taken.
    same_of_owned :
        (u k : ℕ) → (s.world.mutexes k).owner ≡ some u → w'.mutexes k ≡ s.world.mutexes k
    same_of_owned u k o = other k (λ e. cc (rw e at o))

    values-eq : (k : ℕ) → (w'.mutexes k).hierarchy_value ≡ (s.world.mutexes k).hierarchy_value
    values-eq k = elim (ℕ_discrete k m) [ yes e ↦ rw (e, self) | no ne ↦ rw (other k ne) ]

    frame : (u v : ℕ) (ms : List ℕ) → Chain s.world u v ms → Chain w' u v ms
    frame u v ms c =
        Chain-frame s.world w' u v ms (All-mono ms (same_of_owned u) (Chain-owned s.world u v ms c))
          c

    -- The old scopes of the mover hang on the value that the mutex now remembers.
    remembered :
        (ms : List ℕ)
        → Chain s.world t (s.world.this_thread_hierarchy_value t) ms
        → Below s.world (s.world.mutexes m).hierarchy_value ms
          × Chain s.world t (s.world.this_thread_hierarchy_value t % 2 ^ 32) ms
    remembered [] c = (tt, tt)
    remembered (k ∷ ms) (a, b, l, c) =
        (omega (arith, took.order), (omega (arith, fits k, fixed k), b, l, c))

    Chain-mover : Chain w' t (w'.this_thread_hierarchy_value t) (m ∷ s.held t)
    Chain-mover =
        let (l, c) = remembered (s.held t) (chain t) in
        rw (value, self)
          (refl, refl, Below-frame s.world w' _ (s.held t) values-eq l, frame t _ (s.held t) c)

    pub Took-Inv :
        {waiting : ℕ → Option ℕ}
        → Quiet waiting
        → Inv levels
            (record { world = w'; held = update s.held t (m ∷ s.held t); waiting = waiting })
    Took-Inv {waiting} quiet = record {
      fixed = λ k. values-eq k ∙ fixed k;
      chain =
          update_elim (λ u ms. Chain w' u (w'.this_thread_hierarchy_value u) ms) s.held t
            (m ∷ s.held t) Chain-mover (λ u ne. rw (values u ne) (frame u _ (s.held u) (chain u)));
      owned = λ u k o. ground (arith, self, other k, owned u k);
      waits = λ u k e. ground (arith, quiet.0, quiet.1 u, values u, values-eq k, waits u k);
    }

  module _ {rest : List ℕ} (on_top : s.held t ≡ m ∷ rest) {w' : World}
      (gave : Gave t m s.world w') where
    open gave use {self, other, value, values}

    values-eq' : (k : ℕ) → (w'.mutexes k).hierarchy_value ≡ (s.world.mutexes k).hierarchy_value
    values-eq' k = elim (ℕ_discrete k m) [ yes e ↦ rw (e, self) | no ne ↦ rw (other k ne) ]

    -- The chain of the mover before the step, and of its outer scopes after it.
    top : Chain s.world t (s.world.this_thread_hierarchy_value t) (m ∷ rest)
    top = rw on_top at (chain t)

    frame_outer : Chain w' t (w'.this_thread_hierarchy_value t) rest
    frame_outer =
        let (a, b, l, c) = top in
        rw value (
          Chain-frame s.world w' t _ rest
            (All-mono rest
              (λ k h.
                other k (λ e. omega (arith, ap (λ (i : ℕ). (s.world.mutexes i).hierarchy_value) e)))
              (Chain-above s.world t _ _ rest c l))
            c)

    frame_other : (u v : ℕ) (ms : List ℕ) → u ≢ t → Chain s.world u v ms → Chain w' u v ms
    frame_other u v ms ne c =
        Chain-frame s.world w' u v ms
          (All-mono ms (λ k o. other k (λ e. ground (arith, e, o, top.1)))
            (Chain-owned s.world u v ms c))
          c

    pub Gave-Inv :
        s.waiting t ≡ none → Inv levels (record s { world = w'; held = update s.held t rest })
    Gave-Inv quiet = record {
      fixed = λ k. values-eq' k ∙ fixed k;
      chain =
          update_elim (λ u ms. Chain w' u (w'.this_thread_hierarchy_value u) ms) s.held t rest
            frame_outer (λ u ne. rw (values u ne) (frame_other u _ (s.held u) ne (chain u)));
      owned = λ u k o. ground (arith, self, on_top, other k, owned u k);
      waits = λ u k e. ground (arith, quiet, values u, values-eq' k, waits u k);
    }

-- Every step keeps the invariant.
pub Step-Inv :
    {levels : ℕ → ℕ} {s s' : System}
    → ((k : ℕ) → levels k < 2 ^ 32)
    → Step s s'
    → Inv levels s
    → Inv levels s'
Step-Inv {s} fits (request t m quiet good) inv = record {
  fixed = inv.fixed;
  chain = inv.chain;
  owned = inv.owned;
  waits = λ u k e. ground (arith, check-lt t m s.world good, inv.waits u k);
}
Step-Inv {s} fits (acquire t m asked got) inv =
    Took-Inv inv t m fits
      (record { order = inv.waits t m asked; took = internal_lock-Took t m s.world got })
      (ground arith, λ u ne. ground arith)
Step-Inv {s} fits (try t m quiet got) inv =
    Took-Inv inv t m fits (try_lock-Locked t m s.world got) (quiet, λ u ne. refl)
Step-Inv {s} fits (release t m quiet on_top) inv =
    Gave-Inv inv t m on_top (unlock-Gave t m s.world) quiet

pub Reach-Inv :
    {bits : ℕ} {levels : ℕ → ℕ} {s : System}
    → ((k : ℕ) → levels k < 2 ^ 32)
    → Reach bits levels s
    → Inv levels s
Reach-Inv fits start = record {
  fixed = λ k. refl;
  chain = λ t. tt;
  owned = λ t k o. cc;
  waits = λ t k e. cc;
}
Reach-Inv fits (later r st) = Step-Inv fits st (Reach-Inv fits r)
