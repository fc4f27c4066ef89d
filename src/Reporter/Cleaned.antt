-- ===== src/Reporter/Cleaned.antt =====
-- What the cleaning of a name gives.
use concurrencycourse.Prelude.{
  ℕ, zero, suc, ◌+◌, ◌<◌, ◌≡◌, refl, sym, ap, subst, ◌∙◌, ◌≢◌, ◌⊎◌, inl, inr, Bool, true, false,
  ◌&&◌, none, some, [], ◌∷◌, ◌++◌, arith, ℕ_discrete, ◌==◌, ==_iff, Bool-cases, Option-cases,
  length, take, drop,
}
use concurrencycourse.Reporter.Names.{
  Text, slash, starts_with, find, erase, back, pop_back, strip_back, strip_front, join_slashes,
  skip_words, measure_name,
}

abbrev pub all_slashes : Text → Bool
all_slashes [] = true
all_slashes (c ∷ text) = (c == slash) && all_slashes text

abbrev pub double_slash : Text
double_slash = slash ∷ slash ∷ []

-- Where a search finds its pattern.
find-cons :
    (pattern text : Text) (c : ℕ) {pos : ℕ}
    → find pattern (c ∷ text) ≡ some pos
    → ((starts_with pattern (c ∷ text) ≡ true) × (pos ≡ 0))
      ⊎ ((i : ℕ) × (find pattern text ≡ some i) × (pos ≡ suc i))
find-cons pattern text c {pos} e = elim (Bool-cases (starts_with pattern (c ∷ text))) [
  | inl here ↦ inl (here, ground (arith, here, e))
  | inr later ↦ elim (Option-cases (find pattern text)) [
    | inl absent ↦ absurd (ground (arith, later, absent, e))
    | inr (i, found) ↦ inr (i, found, ground (arith, later, found, e))
  ]
]

erase-suc : (c i : ℕ) (text : Text) → erase (suc i) (some 1) (c ∷ text) ≡ c ∷ erase i (some 1) text
erase-suc c i text =
    let q : suc i + 1 ≡ suc (i + 1) = omega arith in
    ap (λ n. c ∷ take i text ++ drop n (c ∷ text)) q

join_first :
    (c : ℕ) (text : Text)
    → starts_with double_slash (c ∷ text) ≡ true
    → (length text < length (c ∷ text)) × (all_slashes text ≡ all_slashes (c ∷ text))
join_first c [] s = absurd (ground (arith, s))
join_first c (d ∷ text) s = (omega arith, ground (arith, s))

-- One of two slashes goes.
join_one :
    (text : Text) {pos : ℕ}
    → find double_slash text ≡ some pos
    → (length (erase pos (some 1) text) < length text)
      × (all_slashes (erase pos (some 1) text) ≡ all_slashes text)
join_one [] e = absurd (ground (arith, e))
join_one (c ∷ text) {pos} e = elim (find-cons double_slash text c e) [
  | inl (s, z) ↦ rw z (join_first c text s)
  | inr (i, found, z) ↦
      let (shorter, same) = join_one text found in
      rw z (
        subst (λ r. (length r < length (c ∷ text)) × (all_slashes r ≡ all_slashes (c ∷ text)))
          (sym (erase-suc c i text)) (omega (arith, shorter), ap (λ b. (c == slash) && b) same))
]

join_slashes-ends :
    (fuel : ℕ) (text : Text)
    → length text < fuel
    → (out : Text) × (join_slashes fuel text ≡ some out)
      × (find double_slash out ≡ none)
      × (all_slashes out ≡ all_slashes text)
unfolding join_slashes
join_slashes-ends zero text h = absurd (omega arith)
join_slashes-ends (suc fuel) text h = elim (Option-cases (find double_slash text)) [
  | inl e ↦ (text, rw (e, join_slashes) refl, e, refl)
  | inr (pos, e) ↦
      let (shorter, same) = join_one text e in
      let (out, ran, none_left, kept) =
        join_slashes-ends fuel (erase pos (some 1) text) (omega arith) in
      (out, rw (e, join_slashes) ran, none_left, kept ∙ same)
]

pop_back-slashes :
    (c : ℕ) (text : Text)
    → back (c ∷ text) ≡ some slash
    → all_slashes (pop_back (c ∷ text)) ≡ all_slashes (c ∷ text)
pop_back-slashes c [] e = ground arith
pop_back-slashes c (d ∷ text) e = ap (λ b. (c == slash) && b) (pop_back-slashes d text e)

length-pop_back : (c : ℕ) (text : Text) → length (pop_back (c ∷ text)) ≡ length text
length-pop_back c [] = refl
length-pop_back c (d ∷ text) = ap suc (length-pop_back d text)

back-some : (c : ℕ) (text : Text) → (d : ℕ) × (back (c ∷ text) ≡ some d)
back-some c [] = (c, refl)
back-some c (d ∷ text) = back-some d text

module _ (fuel : ℕ) (text : Text) where
  strip-again :
      back text ≡ some slash → strip_back (suc fuel) text ≡ strip_back fuel (pop_back text)
  unfolding strip_back
  strip-again e = rw (e, strip_back) refl

  strip-stop : {d : ℕ} → back text ≡ some d → d ≢ slash → strip_back (suc fuel) text ≡ some text
  unfolding strip_back
  strip-stop {d} e ne = rw (e, strip_back) (ground (arith, ne, ==_iff d slash))

strip_back-ends :
    (fuel : ℕ) (text : Text)
    → length text < fuel
    → all_slashes text ≡ false
    → (out : Text) × (strip_back fuel text ≡ some out) × (all_slashes out ≡ false)
unfolding strip_back
strip_back-ends zero text h q = absurd (omega arith)
strip_back-ends (suc fuel) [] h q = cc q
strip_back-ends (suc fuel) (c ∷ text) h q =
    let (d, at_back) = back-some c text in
    elim (ℕ_discrete d slash) [
      | yes e ↦
          let keeps = pop_back-slashes c text (at_back ∙ ap some e) in
          let (out, ran, part) =
            strip_back-ends fuel (pop_back (c ∷ text)) (omega (arith, length-pop_back c text))
              (keeps ∙ q) in
          (out, strip-again fuel (c ∷ text) (at_back ∙ ap some e) ∙ ran, part)
      | no ne ↦ (c ∷ text, strip-stop fuel (c ∷ text) at_back ne, q)
    ]

strip_front-ends :
    (text : Text)
    → all_slashes text ≡ false
    → (out : Text) × (strip_front text ≡ some out) × (all_slashes out ≡ false)
unfolding strip_front
strip_front-ends [] q = cc q
strip_front-ends (c ∷ text) q = elim (ℕ_discrete c slash) [
  | yes e ↦
      let (out, ran, part) = strip_front-ends text (ground (arith, e, q)) in
      (out, ground (arith, e, ran), part)
  | no ne ↦ (c ∷ text, ground (arith, ne, ==_iff c slash), q)
]

-- The cleaning of a name ends, and if anything but slashes is left when the words about iterations and
-- times are cut out, it is defined: the result has no two slashes in a row, and is not made of slashes.
pub measure_name_lem :
    (benchmark_name : Text)
    → all_slashes (skip_words benchmark_name) ≡ false
    → (out : Text) × (measure_name benchmark_name ≡ some out)
      × (find double_slash out ≡ none)
      × (all_slashes out ≡ false)
unfolding measure_name
measure_name_lem benchmark_name q =
    let name = skip_words benchmark_name in
    let (a, ran, part) = strip_back-ends (length name + 1) name (omega arith) q in
    let (b, ran', part') = strip_front-ends a part in
    let (out, ran'', joined, same) = join_slashes-ends (length b + 1) b (omega arith) in
    (out, rw (ran, ran') ran'', joined, same ∙ part')

back-slash : (c : ℕ) (text : Text) → all_slashes (c ∷ text) ≡ true → back (c ∷ text) ≡ some slash
back-slash c [] q = ground (arith, q, ==_iff c slash)
back-slash c (d ∷ text) q = back-slash d text (ground (arith, q))

strip_back-none : (fuel : ℕ) (text : Text) → all_slashes text ≡ true → strip_back fuel text ≡ none
unfolding strip_back
strip_back-none zero text q = refl
strip_back-none (suc fuel) [] q = refl
strip_back-none (suc fuel) (c ∷ text) q =
    let e = back-slash c text q in
    strip-again fuel (c ∷ text) e
    ∙ strip_back-none fuel (pop_back (c ∷ text)) (pop_back-slashes c text e ∙ q)

-- If only slashes are left, the loop pops them all and then looks at the back of an empty string,
-- which is undefined.
pub measure_name-none :
    (benchmark_name : Text)
    → all_slashes (skip_words benchmark_name) ≡ true
    → measure_name benchmark_name ≡ none
unfolding measure_name
measure_name-none benchmark_name q =
    rw (strip_back-none (length (skip_words benchmark_name) + 1) (skip_words benchmark_name) q) refl
