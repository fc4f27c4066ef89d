-- ===== src/ConcurrentMap/Lookup.antt =====
-- What `find` gives after `m[key] = value` and `erase`.
use mathlib.Core.Bool.{false≢true}
use concurrencycourse.Prelude.{
  ◌≡◌, refl, sym, subst, ◌∙◌, ◌≢◌, inl, inr, true, false, none, some, List, [], ◌∷◌, arith,
  Bool-cases,
}
use concurrencycourse.ConcurrentMap.Ordered.{
  Less, find, assign, erase, IsAfter, IsSorted, IsAfter-trans,
}

asym {ℓ} : {K : Type ℓ} ⦃o : Less K⦄ (a b : K) → o.less a b ≡ true → o.less b a ≡ false
asym ⦃o⦄ a b h = elim (Bool-cases (o.less b a)) [
  | inl back ↦ absurd (false≢true (sym (o.irrefl a) ∙ o.trans a b a h back))
  | inr apart ↦ apart
]

module _ {ℓ κ} {K : Type ℓ} {V : Type κ} ⦃o : Less K⦄ where
  -- What is found has the key that was looked for.
  pub find-key :
      (key : K) (pairs : List (K × V)) {k : K} {v : V} → find key pairs ≡ some (k, v) → k ≡ key
  unfolding find
  find-key key [] e = cc
  find-key key ((j, w) ∷ pairs) {k} {v} e =
      ground (arith, find-key key pairs {k = k} {v = v}, o.total j key)

  pub find-assign_self :
      (key : K) (value : V) (pairs : List (K × V))
      → find key (assign key value pairs) ≡ some (key, value)
  unfolding find assign
  find-assign_self key value [] = ground (arith, o.irrefl key)
  find-assign_self key value ((k, v) ∷ pairs) =
      ground (arith, o.irrefl key, o.total k key, find-assign_self key value pairs)

  pub find-assign_ne :
      (j key : K) (value : V) (pairs : List (K × V))
      → j ≢ key
      → find j (assign key value pairs) ≡ find j pairs
  unfolding find assign
  find-assign_ne j key value [] ne = ground (arith, o.total j key)
  find-assign_ne j key value ((k, v) ∷ pairs) ne = ground (
    arith,
    o.total j key,
    o.total k key,
    o.total j k,
    o.trans j key k,
    asym j k,
    find-assign_ne j key value pairs,
  )

  -- A key before all others is not found.
  find-none : (key : K) (pairs : List (K × V)) → IsAfter key pairs → find key pairs ≡ none
  unfolding find
  find-none key [] s = refl
  find-none key ((k, v) ∷ pairs) (l, s) = ground (arith, asym key k l)

  find-before :
      (j key : K) (pairs : List (K × V))
      → o.less j key ≡ true
      → IsAfter key pairs
      → find j pairs ≡ none
  find-before j key pairs h s = find-none j pairs (IsAfter-trans j key pairs h s)

  find-equal :
      (j key : K) (pairs : List (K × V)) → j ≡ key → IsAfter key pairs → find j pairs ≡ none
  find-equal j key pairs e s = find-none j pairs (subst (λ i. IsAfter i pairs) (sym e) s)

  pub find-erase_self :
      (key : K) (pairs : List (K × V)) → IsSorted pairs → find key (erase key pairs) ≡ none
  unfolding find erase
  find-erase_self key [] s = refl
  find-erase_self key ((k, v) ∷ pairs) (a, s) =
      ground (arith, o.total key k, find-erase_self key pairs s, find-equal key k pairs)

  pub find-erase_ne :
      (j key : K) (pairs : List (K × V))
      → IsSorted pairs
      → j ≢ key
      → find j (erase key pairs) ≡ find j pairs
  unfolding find erase
  find-erase_ne j key [] s ne = refl
  find-erase_ne j key ((k, v) ∷ pairs) (a, s) ne =
      ground
        (arith, o.total j k, o.total key k, find-before j k pairs, find-erase_ne j key pairs s ne)
