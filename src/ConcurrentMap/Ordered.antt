-- ===== src/ConcurrentMap/Ordered.antt =====
-- `std::map` as far as src/concurrent_map.h uses it: the pairs in the order of their keys.
use concurrencycourse.Prelude.{◌≡◌, Bool, true, false, Option, none, some, List, [], ◌∷◌, arith}

-- `operator<` of the keys: a strict total order.
pub record Less {ℓ} (K : Type ℓ) : Type ℓ where
  pub less : K → K → Bool
  pub irrefl : (a : K) → less a a ≡ false
  pub trans : (a b c : K) → less a b ≡ true → less b c ≡ true → less a c ≡ true
  pub total : (a b : K) → less a b ≡ false → less b a ≡ false → a ≡ b

-- The result of the key's search at one node, from `k < j` and `j < k`.
abbrev pub choose {ℓ} : {X : Type ℓ} → Bool → Bool → X → X → X → X
choose true _ on_less on_greater on_equal = on_less
choose false true on_less on_greater on_equal = on_greater
choose false false on_less on_greater on_equal = on_equal

module _ {ℓ κ} {K : Type ℓ} {V : Type κ} ⦃o : Less K⦄ where
  -- `find`; `none` is `end()`
  unfoldable pub find : K → List (K × V) → Option (K × V)
  find key [] = none
  find key ((k, v) ∷ pairs) =
      choose (o.less k key) (o.less key k) (find key pairs) none (some (k, v))

  -- `m[key] = value`
  unfoldable pub assign : K → V → List (K × V) → List (K × V)
  assign key value [] = (key, value) ∷ []
  assign key value ((k, v) ∷ pairs) =
      choose (o.less k key) (o.less key k) ((k, v) ∷ assign key value pairs)
        ((key, value) ∷ (k, v) ∷ pairs) ((k, value) ∷ pairs)

  -- `erase(key)`
  unfoldable pub erase : K → List (K × V) → List (K × V)
  erase key [] = []
  erase key ((k, v) ∷ pairs) =
      choose (o.less k key) (o.less key k) ((k, v) ∷ erase key pairs) ((k, v) ∷ pairs) pairs

  -- The keys rise: each comes before those behind it, so no key stands twice.
  abbrev pub IsAfter : K → List (K × V) → Type 0
  IsAfter key [] = Unit
  IsAfter key ((k, _) ∷ pairs) = (o.less key k ≡ true) × IsAfter key pairs

  abbrev pub IsSorted : List (K × V) → Type 0
  IsSorted [] = Unit
  IsSorted ((k, _) ∷ pairs) = IsAfter k pairs × IsSorted pairs

  pub IsAfter-trans :
      (a b : K) (pairs : List (K × V)) → o.less a b ≡ true → IsAfter b pairs → IsAfter a pairs
  IsAfter-trans a b [] h s = tt
  IsAfter-trans a b ((k, v) ∷ pairs) h (l, s) = (o.trans a b k h l, IsAfter-trans a b pairs h s)

  assign-IsAfter :
      (a key : K) (value : V) (pairs : List (K × V))
      → o.less a key ≡ true
      → IsAfter a pairs
      → IsAfter a (assign key value pairs)
  unfolding assign
  assign-IsAfter a key value [] h s = (h, tt)
  assign-IsAfter a key value ((k, v) ∷ pairs) h s = ground (arith, assign-IsAfter a key value pairs)

  erase-IsAfter : (a key : K) (pairs : List (K × V)) → IsAfter a pairs → IsAfter a (erase key pairs)
  unfolding erase
  erase-IsAfter a key [] s = tt
  erase-IsAfter a key ((k, v) ∷ pairs) s = ground (arith, erase-IsAfter a key pairs)

  pub assign-IsSorted :
      (key : K) (value : V) (pairs : List (K × V))
      → IsSorted pairs
      → IsSorted (assign key value pairs)
  unfolding assign
  assign-IsSorted key value [] s = (tt, tt)
  assign-IsSorted key value ((k, v) ∷ pairs) s = ground (
    arith,
    assign-IsSorted key value pairs,
    assign-IsAfter k key value pairs,
    IsAfter-trans key k pairs,
  )

  pub erase-IsSorted :
      (key : K) (pairs : List (K × V)) → IsSorted pairs → IsSorted (erase key pairs)
  unfolding erase
  erase-IsSorted key [] s = tt
  erase-IsSorted key ((k, v) ∷ pairs) s =
      ground (arith, erase-IsSorted key pairs, erase-IsAfter k key pairs)
