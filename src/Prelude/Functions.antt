-- ===== src/Prelude/Functions.antt =====
-- Functions as memories: an update at one index, and predicates over lists.
use Prim.Native.Nat.{ℕ}
use mathlib.Core.Path.{◌≡◌, subst, fun_ext}
use mathlib.Core.Logic.{◌≢◌, inl, inr}
use mathlib.Core.Bool.{Bool, true, false, ◌||◌}
use mathlib.Core.List.{List, [], ◌∷◌, ◌++◌}
use native.Mathlib.Omega.{arith}
use concurrencycourse.Prelude.Tests.{◌==◌, ==_iff, Bool-cases, if◌then◌else◌}

abbrev pub update {ℓ} : {A : Type ℓ} → (ℕ → A) → ℕ → A → ℕ → A
update f i a j = if i == j then a else f j

-- A predicate that every entry satisfies.
abbrev pub All {ℓ κ} : {A : Type ℓ} → (A → Type κ) → List A → Type κ
All P [] = Unit
All P (x ∷ xs) = P x × All P xs

abbrev pub has : ℕ → List ℕ → Bool
has a [] = false
has a (x ∷ xs) = (x == a) || has a xs

pub All-has : (P : ℕ → Type 0) (a : ℕ) (xs : List ℕ) → All P xs → has a xs ≡ true → P a
All-has P a [] h m = cc
All-has P a (x ∷ xs) h m = elim (Bool-cases (x == a)) [
  | inl e ↦ subst P ((==_iff x a).0 e) h.0
  | inr ne ↦ All-has P a xs h.1 (rw ne at m)
]

pub All-mono {ℓ κ} :
    {A : Type ℓ} {P Q : A → Type κ} (xs : List A) → ((a : A) → P a → Q a) → All P xs → All Q xs
All-mono [] f h = tt
All-mono (x ∷ xs) f h = (f x h.0, All-mono xs f h.1)

pub All-append {ℓ κ} :
    {A : Type ℓ} (P : A → Type κ) (xs ys : List A) → All P xs → All P ys → All P (xs ++ ys)
All-append P [] ys h h' = h'
All-append P (x ∷ xs) ys (p, h) h' = (p, All-append P xs ys h h')

-- What holds at the new value, and at the old ones elsewhere, holds of the function after an update.
pub update_elim {ℓ κ} :
    {A : Type ℓ} (P : ℕ → A → Type κ) (f : ℕ → A) (i : ℕ) (a : A)
    → P i a
    → ((j : ℕ) → j ≢ i → P j (f j))
    → (j : ℕ) → P j (update f i a j)
update_elim P f i a at_i elsewhere j = elim (Bool-cases (i == j)) [
  | inl e ↦ rw e (subst (λ k. P k a) ((==_iff i j).0 e) at_i)
  | inr ne ↦ rw ne (elsewhere j (ground arith))
]

-- A function with the new value at the index, and the old ones elsewhere, is the update.
pub update_ext {ℓ} :
    {A : Type ℓ} (f g : ℕ → A) (i : ℕ) (a : A)
    → g i ≡ a
    → ((j : ℕ) → j ≢ i → g j ≡ f j)
    → g ≡ update f i a
update_ext f g i a at_i elsewhere = fun_ext (update_elim (λ j b. g j ≡ b) f i a at_i elsewhere)
