-- ===== src/Prelude/Threads.antt =====
-- Numbers summed over the threads `0 … n - 1` of a family.
use Prim.Native.Nat.{ℕ, zero, suc, ◌+◌, ◌≤◌, ◌<◌}
use mathlib.Core.Path.{◌≡◌, refl, subst}
use native.Mathlib.Decide.{dec_lt}
use native.Mathlib.Omega.{arith}
use concurrencycourse.Prelude.Functions.{update}

module _ {ℓ} {A : Type ℓ} (weight : A → ℕ) where
  -- The weights of the first `n` threads, added up.
  pub total : ℕ → (ℕ → A) → ℕ
  total zero pc = 0
  total (suc n) pc = total n pc + weight (pc n)

  total-above : (n : ℕ) (pc : ℕ → A) (i : ℕ) (a : A) → n ≤ i → total n (update pc i a) ≡ total n pc
  unfolding total
  total-above zero pc i a h = refl
  total-above (suc n) pc i a h = ground (arith, total-above n pc i a)

  -- An update exchanges one weight for another.
  pub total-update :
      (n : ℕ) (pc : ℕ → A) (i : ℕ) (a : A)
      → i < n
      → total n (update pc i a) + weight (pc i) ≡ total n pc + weight a
  unfolding total
  total-update zero pc i a h = absurd (omega arith)
  total-update (suc n) pc i a h = elim (dec_lt i n) [
    | yes inside ↦ ground (arith, total-update n pc i a inside)
    | no at_end ↦ ground (arith, total-above n pc i a)
  ]

  -- A thread's weight is part of the sum.
  pub le-total : (n : ℕ) (pc : ℕ → A) (i : ℕ) → i < n → weight (pc i) ≤ total n pc
  unfolding total
  le-total zero pc i h = absurd (omega arith)
  le-total (suc n) pc i h = elim (dec_lt i n) [
    | yes inside ↦ omega (arith, le-total n pc i inside)
    | no at_end ↦ ground arith
  ]

  -- A sum that is not zero has a thread that adds to it.
  pub total-pos : (n : ℕ) (pc : ℕ → A) → 0 < total n pc → (i : ℕ) × (i < n) × (0 < weight (pc i))
  unfolding total
  total-pos zero pc h = absurd (omega arith)
  total-pos (suc n) pc h = elim (dec_lt 0 (weight (pc n))) [
    | yes adds ↦ (n, omega arith, adds)
    | no idle ↦ let (i, lt, adds) = total-pos n pc (omega arith) in (i, omega arith, adds)
  ]

  -- Where no thread adds, the sum is zero.
  pub total-zero : (n : ℕ) (pc : ℕ → A) → ((i : ℕ) → weight (pc i) ≡ 0) → total n pc ≡ 0
  unfolding total
  total-zero zero pc h = refl
  total-zero (suc n) pc h = omega (arith, h n, total-zero n pc h)

  -- A change of every thread that keeps the weights keeps the sum.
  pub total-map :
      (n : ℕ) (pc : ℕ → A) (f : A → A)
      → ((a : A) → weight (f a) ≡ weight a)
      → total n (λ i. f (pc i)) ≡ total n pc
  unfolding total
  total-map zero pc f h = refl
  total-map (suc n) pc f h = omega (arith, h (pc n), total-map n pc f h)

-- A smaller weight gives a smaller sum.
pub total-le {ℓ} :
    {A : Type ℓ} (v w : A → ℕ)
    → ((a : A) → v a ≤ w a)
    → (n : ℕ) (pc : ℕ → A) → total v n pc ≤ total w n pc
unfolding total
total-le v w h zero pc = omega arith
total-le v w h (suc n) pc = omega (arith, h (pc n), total-le v w h n pc)

total-of-map {ℓ} :
    {A : Type ℓ} (weight : A → ℕ) (f : A → A) (n : ℕ) (pc : ℕ → A)
    → total (λ a. weight (f a)) n pc ≡ total weight n (λ i. f (pc i))
unfolding total
total-of-map weight f zero pc = refl
total-of-map weight f (suc n) pc = omega (arith, total-of-map weight f n pc)

-- A change that adds weight to no thread, and takes some from one, makes the sum smaller.
pub total-lt-map {ℓ} :
    {A : Type ℓ} (weight : A → ℕ) (f : A → A)
    → ((a : A) → weight (f a) ≤ weight a)
    → (n : ℕ) (pc : ℕ → A) (i : ℕ) → i < n
    → weight (f (pc i)) < weight (pc i)
    → total weight n (λ j. f (pc j)) < total weight n pc
unfolding total
total-lt-map weight f keep zero pc i lt less = absurd (omega (arith, lt))
total-lt-map weight f keep (suc n) pc i lt less = elim (dec_lt i n) [
  | yes inside ↦ omega (arith, keep (pc n), total-lt-map weight f keep n pc i inside less)
  | no at_end ↦
      let last : i ≡ n = omega (arith, lt, at_end) in
      omega (
        arith,
        total-le (λ a. weight (f a)) weight keep n pc,
        total-of-map weight f n pc,
        subst (λ j. weight (f (pc j)) < weight (pc j)) last less,
      )
]
