-- ===== src/Programs/Output.antt =====
-- src/3_mutex.cpp and src/7_condition_variable.cpp: two threads write to `std::cout` without a mutex.
-- A thread inserts one character after another, be it by an `operator<<` for each or by one for several.
-- The standard lets characters of different threads come in any order, those of one thread in theirs.
use concurrencycourse.Prelude.{
  ℕ, zero, suc, ◌+◌, ◌≡◌, Option, none, some, [], ◌∷◌, ◌++◌, ltb, if◌then◌else◌, length, get_elem?,
  update,
}
use concurrencycourse.Prelude.Texts.{Text, codes}

-- `LOREM_IPSUM`
abbrev pub lorem_ipsum : Text
lorem_ipsum =
    codes
      "Lorem ipsum dolor sit amet, consectetur adipiscing elit, sed do eiusmod tempor incididunt ut labore et dolore magna aliqua. Ut enim ad minim veniam, quis nostrud exercitation ullamco laboris nisi ut aliquip ex ea commodo consequat. Duis aute irure dolor in reprehenderit in voluptate velit esse cillum dolore eu fugiat nulla pariatur. Excepteur sint occaecat cupidatat non proident, sunt in culpa qui officia deserunt mollit anim id est laborum."

abbrev pub endl : Text
endl = codes "\n"

abbrev pub count : ℕ
count = 10

-- Where a thread stands.
pub data Pc : Type 0 where
  chars : Text → ℕ → Pc  -- exercise 3: in the loop over the text, before the test of `i`
  lines : Text → ℕ → Text → Pc  -- exercise 7: so many rounds begun, and what is left of this round
  returned : Pc

abbrev pub next_char : Text → ℕ → Option ℕ → Option (ℕ × Pc)
next_char text i none = none
next_char text i (some c) = some (c, chars text (i + 1))

abbrev pub begin_round : Text → ℕ → Text → Option (ℕ × Pc)
begin_round word i [] = none
begin_round word i (c ∷ rest) = some (c, lines word i rest)

-- The character that a thread writes next, and where it then stands; none if it has ended, or reads
-- its text out of range.
unfoldable pub next : Pc → Option (ℕ × Pc)
next (chars text i) =
    if ltb i (length text) then next_char text i (get_elem? text i) else some (b'\n', returned)
next (lines word i (c ∷ rest)) = some (c, lines word i rest)
next (lines word i []) = if ltb i count then begin_round word (i + 1) (word ++ endl) else none
next returned = none

pub record System : Type 0 where
  pub pc : ℕ → Pc
  pub out : Text

pub data Step (s : System) : System → Type 0 where
  writes :
      (i : ℕ) {c : ℕ} {p : Pc}
      → next (s.pc i) ≡ some (c, p)
      → Step s (record { pc = update s.pc i p; out = s.out ++ c ∷ [] })

-- Two threads, `t1` and `t2`.
abbrev pub two : Pc → Pc → ℕ → Pc
two p q zero = p
two p q (suc zero) = q
two p q (suc (suc i)) = returned

abbrev pub start_of : Pc → Pc → System
start_of p q = record { pc = two p q; out = [] }

pub data Reach (s : System) : System → Type 0 where
  here : Reach s s
  later : {t u : System} → Reach s t → Step t u → Reach s u

-- The threads have ended with `zs` written.
pub record Ends (p q : Pc) (zs : Text) : Type 0 where
  pub last : System
  pub reached : Reach (start_of p q) last
  pub over : (i : ℕ) → next (last.pc i) ≡ none
  pub out : last.out ≡ zs

-- `main` of exercise 3, and of exercise 7.
abbrev pub Writes3 : Text → Type 0
Writes3 = Ends (chars lorem_ipsum 0) (chars lorem_ipsum 0)

abbrev pub Writes7 : Text → Type 0
Writes7 = Ends (lines (codes "ping") 0 []) (lines (codes "pong") 0 [])
