-- ===== src/Sort/Permutes.antt =====
-- Rearrangements of a range of a container, sorted ranges, and what is known of `std::nth_element`.
use concurrencycourse.Prelude.{ℕ, ◌+◌, ◌≤◌, ◌<◌, ◌≡◌, refl, ap, ◌∙◌, arith, dec_lt}
use concurrencycourse.Sort.{Container}

-- `data'` is a rearrangement of `data` within [begin, last).
pub record Permutes (begin last : ℕ) (data₁ data₂ : Container) : Type 0 where
  pub from : ℕ → ℕ
  pub back : ℕ → ℕ
  pub from-back : (i : ℕ) → from (back i) ≡ i
  pub back-from : (i : ℕ) → back (from i) ≡ i
  pub below : (i : ℕ) → i < begin → from i ≡ i
  pub above : (i : ℕ) → last ≤ i → from i ≡ i
  pub inside : (i : ℕ) → begin ≤ i → i < last → (begin ≤ from i) × (from i < last)
  pub moved : (i : ℕ) → data₂ i ≡ data₁ (from i)

pub Permutes-refl : (begin last : ℕ) (d : Container) → Permutes begin last d d
Permutes-refl begin last d = record {
  from = λ i. i;
  back = λ i. i;
  from-back = λ i. refl;
  back-from = λ i. refl;
  below = λ i h. refl;
  above = λ i h. refl;
  inside = λ i h h'. (h, h');
  moved = λ i. refl;
}

pub Permutes-trans :
    {begin last : ℕ} {d e f : Container}
    → Permutes begin last d e
    → Permutes begin last e f
    → Permutes begin last d f
Permutes-trans p q = record {
  from = λ i. p.from (q.from i);
  back = λ i. q.back (p.back i);
  from-back = λ i. ap p.from (q.from-back (p.back i)) ∙ p.from-back i;
  back-from = λ i. ap q.back (p.back-from (q.from i)) ∙ q.back-from i;
  below = λ i h. ap p.from (q.below i h) ∙ p.below i h;
  above = λ i h. ap p.from (q.above i h) ∙ p.above i h;
  inside = λ i h h'. let (a, b) = q.inside i h h' in p.inside (q.from i) a b;
  moved = λ i. q.moved i ∙ p.moved (q.from i);
}

-- A rearrangement of a part rearranges the whole.
pub Permutes-wider :
    {b b' e e' : ℕ} {d f : Container} → b' ≤ b → e ≤ e' → Permutes b e d f → Permutes b' e' d f
Permutes-wider {b} {b'} {e} {e'} lo hi p = record {
  from = p.from;
  back = p.back;
  from-back = p.from-back;
  back-from = p.back-from;
  below = λ i h. p.below i (omega arith);
  above = λ i h. p.above i (omega arith);
  inside = λ i h h'. elim (dec_lt i b) [
    | yes lt ↦ rw (p.below i lt) (h, h')
    | no ge ↦ elim (dec_lt i e) [
      | yes lt ↦ let (x, y) = p.inside i (omega arith) lt in (omega arith, omega arith)
      | no ge' ↦ rw (p.above i (omega arith)) (h, h')
    ]
  ];
  moved = p.moved;
}

-- What holds of all values in the range holds after the rearrangement.
pub Permutes-at_most :
    {b e : ℕ} {d f : Container} (v : ℕ)
    → Permutes b e d f
    → ((i : ℕ) → b ≤ i → i < e → d i ≤ v)
    → (i : ℕ) → b ≤ i
    → i < e
    → f i ≤ v
Permutes-at_most v p bound i lo hi =
    let (x, y) = p.inside i lo hi in rw (p.moved i) (bound (p.from i) x y)

pub Permutes-at_least :
    {b e : ℕ} {d f : Container} (v : ℕ)
    → Permutes b e d f
    → ((i : ℕ) → b ≤ i → i < e → v ≤ d i)
    → (i : ℕ) → b ≤ i
    → i < e
    → v ≤ f i
Permutes-at_least v p bound i lo hi =
    let (x, y) = p.inside i lo hi in rw (p.moved i) (bound (p.from i) x y)

pub Permutes-below : {b e : ℕ} {d f : Container} → Permutes b e d f → (i : ℕ) → i < b → f i ≡ d i
Permutes-below {d} p i h = p.moved i ∙ ap d (p.below i h)

pub Permutes-above : {b e : ℕ} {d f : Container} → Permutes b e d f → (i : ℕ) → e ≤ i → f i ≡ d i
Permutes-above {d} p i h = p.moved i ∙ ap d (p.above i h)

abbrev pub IsSorted : ℕ → ℕ → Container → Type 0
IsSorted b e d = (i j : ℕ) → b ≤ i → i ≤ j → j < e → d i ≤ d j

-- Position `n` splits the range: smaller values stand before it, greater ones behind.
pub record Split (b n e : ℕ) (d : Container) : Type 0 where
  pub before : (i : ℕ) → b ≤ i → i < n → d i ≤ d n
  pub behind : (i : ℕ) → n < i → i < e → d n ≤ d i

-- What the standard says of `nth_element`.
pub record IsNthElement (nth_element : ℕ → ℕ → ℕ → Container → Container) : Type 0 where
  pub permutes : (b n e : ℕ) (d : Container) → b ≤ n → n < e → Permutes b e d (nth_element b n e d)
  pub splits : (b n e : ℕ) (d : Container) → b ≤ n → n < e → Split b n e (nth_element b n e d)

Split-low : {b n e : ℕ} {d : Container} → Split b n e d → (i : ℕ) → b ≤ i → i ≤ n → d i ≤ d n
Split-low {n} {d} s i lo le = elim (dec_lt i n) [
  | yes lt ↦ s.before i lo lt
  | no ge ↦ let same : i ≡ n = omega arith in rw same (omega arith)
]

Split-high : {b n e : ℕ} {d : Container} → Split b n e d → (i : ℕ) → n ≤ i → i < e → d n ≤ d i
Split-high {n} {d} s i le hi = elim (dec_lt n i) [
  | yes lt ↦ s.behind i lt hi
  | no ge ↦ let same : i ≡ n = omega arith in rw same (omega arith)
]

-- Two sorted parts and the element between them.
pub Split-IsSorted :
    {b n e : ℕ} {d : Container}
    → Split b n e d
    → IsSorted b n d
    → IsSorted (n + 1) e d
    → IsSorted b e d
Split-IsSorted {b} {n} {e} {d} s left right i j lo le hi = elim (dec_lt j n) [
  | yes lt ↦ left i j lo le lt
  | no ge ↦ elim (dec_lt n i) [
    | yes lt ↦ right i j (omega arith) le hi
    | no ge' ↦
        let low : d i ≤ d n = Split-low s i lo (omega arith) in
        let high : d n ≤ d j = Split-high s j (omega arith) hi in omega arith
  ]
]
