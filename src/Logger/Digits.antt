-- ===== src/Logger/Digits.antt =====
-- Decimal digits, and reading them back.
use concurrencycourse.Prelude.{
  ℕ, zero, suc, ◌+◌, ◌-◌, ◌*◌, ◌/◌, ◌%◌, ◌≤◌, ◌<◌, ◌≡◌, refl, sym, ◌∙◌, inl, inr, false, [], ◌∷◌,
  ◌++◌, arith, dec_lt, ltb, ltb→lt, lt→ltb, Bool-cases, length, length-append, replicate, All,
}
use concurrencycourse.Prelude.Texts.{Text}
use concurrencycourse.Prelude.{All-append}
use concurrencycourse.Logger.{digits}

-- The number that digits stand for, behind those read already.
abbrev pub value : ℕ → Text → ℕ
value n [] = n
value n (c ∷ text) = value (n * 10 + (c - 48)) text

value-append :
    (n : ℕ) (text : Text) (c : ℕ) → value n (text ++ c ∷ []) ≡ value n text * 10 + (c - 48)
value-append n [] c = refl
value-append n (d ∷ text) c = value-append (n * 10 + (d - 48)) text c

pub ltb-false : (m n : ℕ) → ltb m n ≡ false → n ≤ m
ltb-false m n e = elim (dec_lt m n) [
  | yes lt ↦ cc (sym (lt→ltb m n lt) ∙ e)
  | no ge ↦ omega (arith, ge)
]

pub value-digits : (fuel n : ℕ) → n < fuel → value 0 (digits fuel n) ≡ n
unfolding digits
value-digits zero n lt = omega (arith, lt)
value-digits (suc fuel) n lt = elim (Bool-cases (ltb n 10)) [
  | inl small ↦ rw small (omega (arith, ltb→lt n 10 small))
  | inr big ↦ rw big (
      value-append 0 (digits fuel (n / 10)) (48 + n % 10)
      ∙ omega (arith, value-digits fuel (n / 10) (omega (arith, lt, ltb-false n 10 big))))
]

-- No digit is another character.
abbrev pub IsDigit : ℕ → Type 0
IsDigit c = (48 ≤ c) × (c < 58)

abbrev tens : ℕ → ℕ
tens zero = 1
tens (suc k) = 10 * tens k

pub digits-All : (fuel n : ℕ) → All IsDigit (digits fuel n)
unfolding digits
digits-All zero n = tt
digits-All (suc fuel) n = elim (Bool-cases (ltb n 10)) [
  | inl small ↦ rw small ((omega arith, omega (arith, ltb→lt n 10 small)), tt)
  | inr big ↦ rw big (
      All-append IsDigit (digits fuel (n / 10)) ((48 + n % 10) ∷ []) (digits-All fuel (n / 10))
        ((omega arith, omega arith), tt))
]

pub length-digits : (k fuel n : ℕ) → n < tens (suc k) → length (digits fuel n) ≤ suc k
unfolding digits
length-digits k zero n lt = omega arith
length-digits zero (suc fuel) n lt = rw (lt→ltb n 10 (omega (arith, lt))) (omega arith)
length-digits (suc k) (suc fuel) n lt = elim (Bool-cases (ltb n 10)) [
  | inl small ↦ rw small (omega arith)
  | inr big ↦ rw big (
      omega (
        arith,
        length-append (digits fuel (n / 10)) ((48 + n % 10) ∷ []),
        length-digits k fuel (n / 10) (omega (arith, lt)),
      ))
]

pub digits-some : (fuel n : ℕ) → 0 < fuel → 0 < length (digits fuel n)
unfolding digits
digits-some zero n lt = omega (arith, lt)
digits-some (suc fuel) n lt = elim (Bool-cases (ltb n 10)) [
  | inl small ↦ rw small (omega arith)
  | inr big ↦ rw big (omega (arith, length-append (digits fuel (n / 10)) ((48 + n % 10) ∷ [])))
]

pub value-replicate : (k : ℕ) (text : Text) → value 0 (replicate k 48 ++ text) ≡ value 0 text
value-replicate zero text = refl
value-replicate (suc k) text = value-replicate k text
