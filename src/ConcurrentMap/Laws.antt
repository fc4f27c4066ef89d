-- ===== src/ConcurrentMap/Laws.antt =====
-- The map as a function of its keys, which every sequence of calls behaves like.
use mathlib.Core.Bool.{false≢true}
use concurrencycourse.Prelude.{
  ◌≡◌, refl, sym, ap, subst, ◌∙◌, fun_ext, ◌≢◌, ◌↔◌, inl, inr, Bool, true, false, Option, none,
  some, List, [], ◌∷◌, arith, if◌then◌else◌, Bool-cases,
}
use concurrencycourse.ConcurrentMap.Ordered.{
  Less, choose, find, assign, erase, IsSorted, assign-IsSorted, erase-IsSorted,
}
use concurrencycourse.ConcurrentMap.Lookup.{
  find-assign_self, find-assign_ne, find-erase_self, find-erase_ne,
}
use concurrencycourse.ConcurrentMap.Methods.{
  ConcurrentMap, returns, Cmd, ◌>>=◌, ◌>>◌, pure, second, update_key, get, remove,
}

-- The specification: a map is a function, and a call changes it at one key.
abbrev pub View : Type 0 → Type 0 → Type 0
View K V = K → Option V

pub data Op (K V : Type 0) : Type 0 where
  updates : K → V → Op K V
  removes : K → Op K V
  gets : K → Op K V

module _ {K : Type 0} ⦃o : Less K⦄ where
  abbrev pub same : K → K → Bool
  same a b = choose (o.less a b) (o.less b a) false false true

  abbrev pub changed : {V : Type 0} → K → Option V → View K V → View K V
  changed key value f j = if same key j then value else f j

  same_iff : (a b : K) → (same a b ≡ true) ↔ (a ≡ b)
  same_iff a b = (
    λ h. ground (arith, o.total a b),
    λ e. subst (λ c. same a c ≡ true) e (ground (arith, o.irrefl a)),
  )

  -- Two views agree if they agree at the key and at the others.
  changed-ext :
      {V : Type 0} (key : K) (value : Option V) (f g : View K V)
      → g key ≡ value
      → ((j : K) → j ≢ key → g j ≡ f j)
      → g ≡ changed key value f
  changed-ext key value f g at_key elsewhere = fun_ext λ j. elim (Bool-cases (same key j)) [
    | inl e ↦ rw e (subst (λ i. g i ≡ value) ((same_iff key j).0 e) at_key)
    | inr ne ↦ rw ne (elsewhere j (λ q. false≢true (sym ne ∙ (same_iff key j).1 (sym q))))
  ]

module _ {K V : Type 0} ⦃o : Less K⦄ where
  -- No call is under way, and the keys rise.
  pub record IsIdle (m : ConcurrentMap K V) : Type 0 where
    pub unlocked : m.locked ≡ false
    pub sorted : IsSorted m.pairs

  abbrev pub view : ConcurrentMap K V → View K V
  view m key = second (find key m.pairs)

  -- The calls of one thread in turn, with the results of the `Get`s.
  unfoldable pub run : List (Op K V) → Cmd K V (List (Option V))
  run [] = pure []
  run (updates key value ∷ ops) = update_key key value >> run ops
  run (removes key ∷ ops) = remove key >> run ops
  run (gets key ∷ ops) = do value ← get key; values ← run ops; pure (value ∷ values)

  unfoldable pub replay : List (Op K V) → View K V → List (Option V) × View K V
  replay [] f = ([], f)
  replay (updates key value ∷ ops) f = replay ops (changed key (some value) f)
  replay (removes key ∷ ops) f = replay ops (changed key none f)
  replay (gets key ∷ ops) f = let rest = replay ops f in (f key ∷ rest.0, rest.1)

  abbrev pub idle_with : List (K × V) → ConcurrentMap K V
  idle_with pairs = record { pairs = pairs; locked = false }

  pub view-update :
      (key : K) (value : V) (m : ConcurrentMap K V)
      → view (idle_with (assign key value m.pairs)) ≡ changed key (some value) (view m)
  view-update key value m =
      changed-ext key (some value) (view m) _ (ap second (find-assign_self key value m.pairs))
        (λ j ne. ap second (find-assign_ne j key value m.pairs ne))

  pub view-remove :
      (key : K) (m : ConcurrentMap K V)
      → IsSorted m.pairs
      → view (idle_with (erase key m.pairs)) ≡ changed key none (view m)
  view-remove key m s =
      changed-ext key none (view m) _ (ap second (find-erase_self key m.pairs s))
        (λ j ne. ap second (find-erase_ne j key m.pairs s ne))

  module _ (m : ConcurrentMap K V) (is : IsIdle m) where
    pub update-returns :
        (key : K) (value : V)
        → update_key key value m ≡ returns tt (idle_with (assign key value m.pairs))
    unfolding update_key
    update-returns key value = ground (arith, is.unlocked)

    remove-returns : (key : K) → remove key m ≡ returns tt (idle_with (erase key m.pairs))
    unfolding remove
    remove-returns key = ground (arith, is.unlocked)

    pub get-returns : (key : K) → get key m ≡ returns (view m key) (idle_with m.pairs)
    unfolding get
    get-returns key = ground (arith, is.unlocked)

  -- A sequence of calls that returns, and what is known of it.
  pub record Refines (ops : List (Op K V)) (m : ConcurrentMap K V) : Type 0 where
    pub values : List (Option V)
    pub last : ConcurrentMap K V
    pub ran : run ops m ≡ returns values last
    pub idle : IsIdle last
    pub same_values : values ≡ (replay ops (view m)).0
    pub same_view : view last ≡ (replay ops (view m)).1

  -- From a map with no call under way, any sequence of calls of `Update`, `Remove` and `Get` returns,
  -- leaves the map unlocked with its keys in order, and gives what the calls give on a function from
  -- keys to values that is changed at one key at a time.
  pub run-Refines : (ops : List (Op K V)) (m : ConcurrentMap K V) → IsIdle m → Refines ops m
  unfolding run replay
  run-Refines [] m is = record {
    values = [];
    last = m;
    ran = refl;
    idle = is;
    same_values = refl;
    same_view = refl;
  }
  run-Refines (updates key value ∷ ops) m is =
      let rest =
        run-Refines ops (idle_with (assign key value m.pairs))
          (record { unlocked = refl; sorted = assign-IsSorted key value m.pairs is.sorted }) in
      record {
        values = rest.values;
        last = rest.last;
        ran = rw (update-returns m is key value) rest.ran;
        idle = rest.idle;
        same_values = rest.same_values ∙ ap (λ f. (replay ops f).0) (view-update key value m);
        same_view = rest.same_view ∙ ap (λ f. (replay ops f).1) (view-update key value m);
      }
  run-Refines (removes key ∷ ops) m is =
      let rest =
        run-Refines ops (idle_with (erase key m.pairs))
          (record { unlocked = refl; sorted = erase-IsSorted key m.pairs is.sorted }) in
      record {
        values = rest.values;
        last = rest.last;
        ran = rw (remove-returns m is key) rest.ran;
        idle = rest.idle;
        same_values = rest.same_values ∙ ap (λ f. (replay ops f).0) (view-remove key m is.sorted);
        same_view = rest.same_view ∙ ap (λ f. (replay ops f).1) (view-remove key m is.sorted);
      }
  run-Refines (gets key ∷ ops) m is =
      let rest =
        run-Refines ops (idle_with m.pairs) (record { unlocked = refl; sorted = is.sorted }) in
      record {
        values = view m key ∷ rest.values;
        last = rest.last;
        ran = rw (get-returns m is key, rest.ran);
        idle = rest.idle;
        same_values = ap (λ vs. view m key ∷ vs) rest.same_values;
        same_view = rest.same_view;
      }
