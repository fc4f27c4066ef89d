-- ===== src/Logger/RoundTrip.antt =====
-- Reading the lines of src/Logger.h back.
use concurrencycourse.Prelude.{
  ℕ, zero, suc, ◌+◌, ◌-◌, ◌*◌, ◌/◌, ◌%◌, ◌^◌, ◌≤◌, ◌<◌, ◌≡◌, refl, ap, ◌∙◌, inl, inr, Option, none,
  some, List, [], ◌∷◌, ◌++◌, map, append_assoc, append-nil, arith, ◌==◌, if◌then◌else◌, lt→ltb,
  ==_iff, Bool-cases, length, length-append, take, drop, replicate, All,
}
use concurrencycourse.Prelude.Texts.{Text, codes}
use concurrencycourse.Logger.{
  pos, to_int, decimal, print_int, print_int_zeros, zeros, uptime_text, format_uptime, get_uptime,
  Call, log_impl, log,
}
use concurrencycourse.Prelude.{length-replicate}
use concurrencycourse.Logger.Digits.{
  value, value-digits, IsDigit, digits-All, length-digits, value-replicate,
}

-- The text up to the first `c` and that behind it; the first argument is what stands before.
abbrev split_at : ℕ → Text → Text → Option (Text × Text)
split_at c before [] = none
split_at c before (d ∷ text) =
    if d == c then some (before, text) else split_at c (before ++ d ∷ []) text

abbrev read_parts : Option (Text × Text) → Option (ℕ × Text)
read_parts none = none
read_parts (some (seconds, text)) =
    some (value 0 seconds * 1000 + value 0 (take 3 text), drop 6 text)

-- A line's uptime in milliseconds, and what stands behind "[<seconds>.<milliseconds>s] ".
abbrev pub read_line : Text → Option (ℕ × Text)
read_line [] = none
read_line (_ ∷ text) = read_parts (split_at b'.' [] text)

split_at-digits :
    (before xs rest : Text)
    → All IsDigit xs
    → split_at b'.' before (xs ++ b'.' ∷ rest) ≡ some (before ++ xs, rest)
split_at-digits before [] rest h = ground (arith, append-nil before)
split_at-digits before (d ∷ xs) rest ((low, high), h) = elim (Bool-cases (d == b'.')) [
  | inl e ↦ absurd (omega (arith, (==_iff d b'.').0 e, low))
  | inr e ↦ rw e (
      split_at-digits (before ++ d ∷ []) xs rest h
      ∙ ap (λ text. some (text, rest)) (append_assoc before (d ∷ []) xs))
]

to_int-pos : (n : ℕ) → n < 2 ^ 31 → to_int n ≡ pos n
unfolding to_int
to_int-pos n lt =
    let same : n % 2 ^ 32 ≡ n = omega (arith, lt) in rw (same, lt→ltb n (2 ^ 31) lt) refl

take-all : (n : ℕ) (text : Text) → length text ≤ n → take n text ≡ text
take-all zero [] le = refl
take-all zero (c ∷ text) le = absurd (omega (arith, le))
take-all (suc n) [] le = refl
take-all (suc n) (c ∷ text) le = ap (λ t. c ∷ t) (take-all n text (omega (arith, le)))

abbrev three_digits : ℕ → Text
three_digits n = zeros 3 (decimal n)

length-three_digits : (n : ℕ) → n < 1000 → length (three_digits n) ≡ 3
length-three_digits n lt = omega (
  arith,
  length-append (replicate (3 - length (decimal n)) b'0') (decimal n),
  length-replicate {A = ℕ} (3 - length (decimal n)) b'0',
  length-digits 2 (suc n) n (omega (arith, lt)),
)

after_three :
    (xs rest : Text)
    → length xs ≡ 3
    → (take 3 (xs ++ b's' ∷ b']' ∷ b' ' ∷ rest) ≡ xs)
      × (drop 6 (xs ++ b's' ∷ b']' ∷ b' ' ∷ rest) ≡ rest)
after_three [] rest e = cc e
after_three (a ∷ []) rest e = cc e
after_three (a ∷ b ∷ []) rest e = cc e
after_three (a ∷ b ∷ c ∷ []) rest e = (refl, refl)
after_three (a ∷ b ∷ c ∷ d ∷ xs) rest e = absurd (omega (arith, e))

module _ (uptime : ℕ) (short : uptime < 2 ^ 31 * 1000) where
  uptime_text-parts :
      uptime_text uptime
      ≡ b'[' ∷ (decimal (uptime / 1000) ++ b'.' ∷ (three_digits (uptime % 1000) ++ codes "s]"))
  unfolding uptime_text print_int print_int_zeros
  uptime_text-parts =
      rw
        (
          to_int-pos (uptime / 1000) (omega (arith, short)),
          to_int-pos (uptime % 1000) (omega arith),
        )
        refl

  length-uptime_text : length (uptime_text uptime) ≤ 17
  length-uptime_text = rw uptime_text-parts (
      omega (
        arith,
        length-append (decimal (uptime / 1000))
            (b'.' ∷ (three_digits (uptime % 1000) ++ codes "s]")),
        length-append (three_digits (uptime % 1000)) (codes "s]"),
        length-three_digits (uptime % 1000) (omega arith),
        length-digits 9 (suc (uptime / 1000)) (uptime / 1000) (omega (arith, short)),
      ))

  format_uptime-whole : format_uptime uptime ≡ uptime_text uptime
  unfolding format_uptime
  format_uptime-whole = take-all 127 (uptime_text uptime) (omega (arith, length-uptime_text))

  line-parts :
      (text : Text)
      → format_uptime uptime ++ b' ' ∷ text
        ≡ b'['
          ∷ (decimal (uptime / 1000)
              ++ b'.' ∷ (three_digits (uptime % 1000) ++ b's' ∷ b']' ∷ b' ' ∷ text))
  line-parts text =
      ap (λ t. t ++ b' ' ∷ text) (format_uptime-whole ∙ uptime_text-parts)
      ∙ ap (λ t. b'[' ∷ t)
          (append_assoc (decimal (uptime / 1000))
              (b'.' ∷ (three_digits (uptime % 1000) ++ codes "s]")) (b' ' ∷ text)
            ∙ ap (λ t. decimal (uptime / 1000) ++ b'.' ∷ t)
                (append_assoc (three_digits (uptime % 1000)) (codes "s]") (b' ' ∷ text)))

  read_line-format :
      (text : Text) → read_line (format_uptime uptime ++ b' ' ∷ text) ≡ some (uptime, text)
  read_line-format text =
      let (is, rest) =
        after_three (three_digits (uptime % 1000)) text
          (length-three_digits (uptime % 1000) (omega arith)) in
      ap read_line (line-parts text)
      ∙ ap read_parts (
          split_at-digits [] (decimal (uptime / 1000))
            (three_digits (uptime % 1000) ++ b's' ∷ b']' ∷ b' ' ∷ text)
            (digits-All (suc (uptime / 1000)) (uptime / 1000)))
      ∙ rw
          (
            is,
            rest,
            value-digits (suc (uptime / 1000)) (uptime / 1000) (omega arith),
            value-replicate (3 - length (decimal (uptime % 1000))) (decimal (uptime % 1000)),
            value-digits (suc (uptime % 1000)) (uptime % 1000) (omega arith),
          )
          (ap (λ n. some (n, text)) (omega arith))

-- What a line reads as, when the logger's time began at `start_time`.
abbrev pub entry : ℕ → ℕ → Call → Option (ℕ × Text)
entry ticks start_time c = some ((c.format_at - start_time) / ticks, c.message ++ codes "\n")

abbrev pub IsShort : ℕ → ℕ → Call → Type 0
IsShort ticks start_time c = (c.format_at - start_time) / ticks < 2 ^ 31 * 1000

log-entries :
    (ticks start_time : ℕ) (calls : List Call)
    → All (IsShort ticks start_time) calls
    → map read_line (log ticks calls (some start_time)).0 ≡ map (entry ticks start_time) calls
unfolding log log_impl get_uptime
log-entries ticks start_time [] short = refl
log-entries ticks start_time (c ∷ calls) (fits, short) =
    rw
      (
        read_line-format ((c.format_at - start_time) / ticks) fits (c.message ++ codes "\n"),
        log-entries ticks start_time calls short,
      )
      refl

-- Calls of `Log`, one after the other: if less than 2 ^ 31 seconds pass, every line reads back as its
-- message and the milliseconds since the first call, which makes the logger that all others use.
pub log-reads_back :
    (ticks : ℕ) (c : Call) (calls : List Call)
    → All (IsShort ticks c.get_at) (c ∷ calls)
    → map read_line (log ticks (c ∷ calls) none).0 ≡ map (entry ticks c.get_at) (c ∷ calls)
unfolding log
log-reads_back ticks c calls short = log-entries ticks c.get_at (c ∷ calls) short
