-- ===== src/Programs/Writing.antt =====
-- What a thread of src/3_mutex.cpp or src/7_condition_variable.cpp is still to write.
use concurrencycourse.Prelude.{
  ℕ, zero, suc, ◌+◌, ◌-◌, ◌≤◌, ◌<◌, ◌≡◌, refl, sym, ap, ◌∙◌, none, some, [], ◌∷◌, ◌++◌, arith,
  dec_lt, length, get_elem?, drop,
}
use concurrencycourse.Prelude.Texts.{Text}
use concurrencycourse.Programs.Output.{endl, count, Pc, chars, lines, returned, next}

abbrev pub repeated : ℕ → Text → Text
repeated zero text = []
repeated (suc n) text = text ++ repeated n text

-- What a thread is still to write.
abbrev pub text_of : Pc → Text
text_of (chars text i) = drop i text ++ endl
text_of (lines word i rest) = rest ++ repeated (count - i) (word ++ endl)
text_of returned = []

get_elem?-drop :
    (text : Text) (i : ℕ)
    → i < length text
    → (c : ℕ) × (get_elem? text i ≡ some c) × (drop i text ≡ c ∷ drop (suc i) text)
get_elem?-drop [] i lt = absurd (omega (arith, lt))
get_elem?-drop (c ∷ text) zero lt = (c, refl, refl)
get_elem?-drop (_ ∷ text) (suc i) lt = get_elem?-drop text i (omega (arith, lt))

drop-all : (text : Text) (i : ℕ) → length text ≤ i → drop i text ≡ []
drop-all [] zero le = refl
drop-all [] (suc i) le = refl
drop-all (c ∷ text) zero le = absurd (omega (arith, le))
drop-all (c ∷ text) (suc i) le = drop-all text i (omega (arith, le))

-- A thread that has ended has nothing to write, and any other goes on with what it has to write.
pub data Goes (p : Pc) : Type 0 where
  ended : next p ≡ none → text_of p ≡ [] → Goes p
  goes : (c : ℕ) (q : Pc) → next p ≡ some (c, q) → text_of p ≡ c ∷ text_of q → Goes p

the_rounds : (i : ℕ) → i < count → count - i ≡ suc (count - (i + 1))
the_rounds i lt = omega (arith, lt)

begins : (word : Text) (i : ℕ) → i < count → Goes (lines word i [])
unfolding next
begins [] i lt =
    goes b'\n' (lines [] (i + 1) []) (ground arith) (ap (λ n. repeated n endl) (the_rounds i lt))
begins (c ∷ word) i lt =
    goes c (lines (c ∷ word) (i + 1) (word ++ endl)) (ground arith)
      (ap (λ n. repeated n (c ∷ word ++ endl)) (the_rounds i lt))

next-Goes : (p : Pc) → Goes p
unfolding next
next-Goes returned = ended refl refl
next-Goes (lines word i (c ∷ rest)) = goes c (lines word i rest) refl refl
next-Goes (lines word i []) = elim (dec_lt i count) [
  | yes lt ↦ begins word i lt
  | no ge ↦
      let none_left : count - i ≡ 0 = omega (arith, ge) in
      ended (ground arith) (ap (λ n. repeated n (word ++ endl)) none_left)
]
next-Goes (chars text i) = elim (dec_lt i (length text)) [
  | yes lt ↦
      let (c, at, dropped) = get_elem?-drop text i lt in
      let next_place : suc i ≡ i + 1 = omega arith in
      goes c (chars text (i + 1)) (ground (arith, at))
        (ap (λ t. t ++ endl) dropped ∙ ap (λ j. c ∷ drop j text ++ endl) next_place)
  | no ge ↦
      goes b'\n' returned (ground arith) (ap (λ t. t ++ endl) (drop-all text i (omega (arith, ge))))
]

pub step-text : (p : Pc) {q : Pc} {c : ℕ} → next p ≡ some (c, q) → text_of p ≡ c ∷ text_of q
step-text p {q} {c} e = elim (next-Goes p) [
  | ended e' _ ↦ cc (sym e ∙ e')
  | goes c' q' e' t ↦
      let same : some (c', q') ≡ some (c, q) = sym e' ∙ e in
      let same_char : c' ≡ c = cc same in
      let same_place : q' ≡ q = cc same in
      t ∙ ap (λ d. d ∷ text_of q') same_char ∙ ap (λ r. c ∷ text_of r) same_place
]

pub end-text : (p : Pc) → next p ≡ none → text_of p ≡ []
end-text p e = elim (next-Goes p) [ ended _ t ↦ t | goes c q e' _ ↦ cc (sym e ∙ e') ]

pub text-end : (p : Pc) → text_of p ≡ [] → next p ≡ none
text-end p t = elim (next-Goes p) [ ended e _ ↦ e | goes c q _ t' ↦ cc (sym t ∙ t') ]

pub text-step :
    (p : Pc) {c : ℕ} {rest : Text}
    → text_of p ≡ c ∷ rest
    → (q : Pc) × (next p ≡ some (c, q)) × (text_of q ≡ rest)
text-step p {c} {rest} t = elim (next-Goes p) [
  | ended _ t' ↦ cc (sym t ∙ t')
  | goes c' q e t' ↦
      let same : c' ∷ text_of q ≡ c ∷ rest = sym t' ∙ t in
      let same_char : c' ≡ c = cc same in (q, e ∙ ap (λ d. some (d, q)) same_char, cc same)
]
