-- ===== src/Programs/Torn.antt =====
-- The whole output of src/3_mutex.cpp and src/7_condition_variable.cpp.
use concurrencycourse.Prelude.{
  ℕ, zero, suc, ◌≤◌, ◌≡◌, refl, sym, ap, subst, ◌∙◌, ◌↔◌, none, [], ◌∷◌, ◌++◌, append_assoc,
  append-nil, arith,
}
use concurrencycourse.Prelude.Texts.{Text, codes}
use concurrencycourse.Programs.Shuffle.{
  Shuffle, done, from_first, from_second, first-last, second-last,
}
use concurrencycourse.Programs.Writing.{repeated, text_of, step-text, end-text, text-end, text-step}
use concurrencycourse.Programs.Output.{
  lorem_ipsum, Pc, chars, lines, next, System, Step, writes, two, start_of, Reach, here, later,
  Ends, Writes3, Writes7,
}

all_over :
    (pc : ℕ → Pc)
    → text_of (pc 0) ≡ []
    → text_of (pc 1) ≡ []
    → ((i : ℕ) → 2 ≤ i → text_of (pc i) ≡ [])
    → (i : ℕ) → next (pc i) ≡ none
all_over pc e e' others zero = text-end (pc 0) e
all_over pc e e' others (suc zero) = text-end (pc 1) e'
all_over pc e e' others (suc (suc i)) =
    text-end (pc (suc (suc i))) (others (suc (suc i)) (omega arith))

two-others : (p q : Pc) (i : ℕ) → 2 ≤ i → text_of (two p q i) ≡ []
two-others p q zero le = absurd (omega (arith, le))
two-others p q (suc zero) le = absurd (omega (arith, le))
two-others p q (suc (suc i)) le = refl

-- What each of the two threads has written so far.
record Inv (xs ys : Text) (s : System) : Type 0 where
  before : Text
  before' : Text
  first : before ++ text_of (s.pc 0) ≡ xs
  second : before' ++ text_of (s.pc 1) ≡ ys
  others : (i : ℕ) → 2 ≤ i → text_of (s.pc i) ≡ []
  shuffled : Shuffle before before' s.out

Step-Inv : {xs ys : Text} {s t : System} → Step s t → Inv xs ys s → Inv xs ys t
Step-Inv {s = s} (writes zero {c} {p} e) inv = record {
  before = inv.before ++ c ∷ [];
  before' = inv.before';
  first =
      append_assoc inv.before (c ∷ []) (text_of p)
      ∙ ap (λ l. inv.before ++ l) (sym (step-text (s.pc 0) e))
      ∙ inv.first;
  second = inv.second;
  others = λ i le. ground (arith, inv.others i le);
  shuffled = first-last c inv.shuffled;
}
Step-Inv {s = s} (writes (suc zero) {c} {p} e) inv = record {
  before = inv.before;
  before' = inv.before' ++ c ∷ [];
  first = inv.first;
  second =
      append_assoc inv.before' (c ∷ []) (text_of p)
      ∙ ap (λ l. inv.before' ++ l) (sym (step-text (s.pc 1) e))
      ∙ inv.second;
  others = λ i le. ground (arith, inv.others i le);
  shuffled = second-last c inv.shuffled;
}
Step-Inv {s = s} (writes (suc (suc i)) e) inv =
    cc (sym (inv.others (suc (suc i)) (omega arith)) ∙ step-text (s.pc (suc (suc i))) e)

Reach-Inv : {p q : Pc} {s : System} → Reach (start_of p q) s → Inv (text_of p) (text_of q) s
Reach-Inv {p} {q} here = record {
  before = [];
  before' = [];
  first = refl;
  second = refl;
  others = two-others p q;
  shuffled = done;
}
Reach-Inv (later r st) = Step-Inv st (Reach-Inv r)

whole : {xs rest : Text} (before : Text) → before ++ rest ≡ xs → rest ≡ [] → before ≡ xs
whole before e over = sym (append-nil before) ∙ ap (λ l. before ++ l) (sym over) ∙ e

Ends-Shuffle : {p q : Pc} {zs : Text} → Ends p q zs → Shuffle (text_of p) (text_of q) zs
Ends-Shuffle {p} {q} {zs} ends =
    let inv = Reach-Inv ends.reached in
    subst (λ l. Shuffle l (text_of q) zs)
      (whole inv.before inv.first (end-text (ends.last.pc 0) (ends.over 0)))
      (subst (λ l. Shuffle inv.before l zs)
        (whole inv.before' inv.second (end-text (ends.last.pc 1) (ends.over 1)))
        (subst (Shuffle inv.before inv.before') ends.out inv.shuffled))

runs_on :
    {start : System} {xs ys zs : Text}
    → Shuffle xs ys zs
    → (s : System) → Reach start s
    → text_of (s.pc 0) ≡ xs
    → text_of (s.pc 1) ≡ ys
    → ((i : ℕ) → 2 ≤ i → text_of (s.pc i) ≡ [])
    → (t : System) × Reach start t × ((i : ℕ) → next (t.pc i) ≡ none) × (t.out ≡ s.out ++ zs)
runs_on done s r e e' others = (s, r, all_over s.pc e e' others, sym (append-nil s.out))
runs_on (from_first {x} {zs = zs} sh) s r e e' others =
    let (q, ran, left) = text-step (s.pc 0) e in
    let (t, r', over, out) =
      runs_on sh _ (later r (writes 0 ran)) left e' (λ i le. ground (arith, others i le)) in
    (t, r', over, out ∙ append_assoc s.out (x ∷ []) zs)
runs_on (from_second {y} {zs = zs} sh) s r e e' others =
    let (q, ran, left) = text-step (s.pc 1) e' in
    let (t, r', over, out) =
      runs_on sh _ (later r (writes 1 ran)) e left (λ i le. ground (arith, others i le)) in
    (t, r', over, out ∙ append_assoc s.out (y ∷ []) zs)

Ends-iff : (p q : Pc) (zs : Text) → Ends p q zs ↔ Shuffle (text_of p) (text_of q) zs
Ends-iff p q zs = (
  Ends-Shuffle,
  λ sh.
      let (t, r, over, out) = runs_on sh _ here refl refl (two-others p q) in
      record { last = t; reached = r; over = over; out = out },
)

-- What exercise 3 can have written to `std::cout` when both threads have ended is just what is a shuffle
-- of two lines, each the whole text with its newline; and exercise 7, of ten lines with ping and ten with
-- pong. So nothing is lost and each thread's characters are in order, but the lines can be torn and
-- mixed at any place, and every such output is possible.
pub main-outputs :
    (zs : Text)
    → (Writes3 zs ↔ Shuffle (lorem_ipsum ++ codes "\n") (lorem_ipsum ++ codes "\n") zs)
      × (Writes7 zs ↔ Shuffle (repeated 10 (codes "ping\n")) (repeated 10 (codes "pong\n")) zs)
main-outputs zs = (
  Ends-iff (chars lorem_ipsum 0) (chars lorem_ipsum 0) zs,
  Ends-iff (lines (codes "ping") 0 []) (lines (codes "pong") 0 []) zs,
)
