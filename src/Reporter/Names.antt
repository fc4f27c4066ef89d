-- ===== src/Reporter/Names.antt =====
-- The names of measures in src/x_start.cpp.
pub use concurrencycourse.Prelude.Texts.{Text, codes}
use concurrencycourse.Prelude.{
  ℕ, zero, suc, ◌+◌, Bool, true, false, ◌&&◌, Option, none, some, [], ◌∷◌, ◌++◌, ◌==◌,
  if◌then◌else◌, length, take, drop,
}

abbrev pub slash : ℕ
slash = b'/'

abbrev pub starts_with : Text → Text → Bool
starts_with [] text = true
starts_with (p ∷ ps) [] = false
starts_with (p ∷ ps) (c ∷ text) = (p == c) && starts_with ps text

abbrev pub shift : Option ℕ → Option ℕ
shift none = none
shift (some i) = some (suc i)

-- `text.find(pattern)`; none is `npos`.
abbrev pub find : Text → Text → Option ℕ
find pattern [] = if starts_with pattern [] then some 0 else none
find pattern (c ∷ text) =
    if starts_with pattern (c ∷ text) then some 0 else shift (find pattern text)

abbrev pub is_found : Option ℕ → Bool
is_found none = false
is_found (some _) = true

abbrev pub contains : Text → Text → Bool
contains pattern text = is_found (find pattern text)

-- `substr(0, count)`
abbrev pub substr : Text → Option ℕ → Text
substr text none = text
substr text (some count) = take count text

-- `text.find("/")`, from a position on, less that position
abbrev pub part_size : Text → ℕ → Option ℕ
part_size text pos = find (slash ∷ []) (drop pos text)

-- `text.erase(pos, count)`; no count is `npos`.
abbrev pub erase : ℕ → Option ℕ → Text → Text
erase pos none text = take pos text
erase pos (some count) text = take pos text ++ drop (pos + count) text

-- The body of the loop over the words to skip.
unfoldable pub skip_word : Text → Text → Text
skip_word skip name = elim (find skip name) [
  | none ↦ name
  | some pos ↦ erase pos (part_size name pos) name
]

-- The two loops that strip slashes; `back` or `front` of an empty string is undefined.
unfoldable pub strip_front : Text → Option Text
strip_front [] = none
strip_front (c ∷ text) = if c == slash then strip_front text else some (c ∷ text)

abbrev pub back : Text → Option ℕ
back [] = none
back (c ∷ []) = some c
back (_ ∷ c ∷ text) = back (c ∷ text)

abbrev pub pop_back : Text → Text
pop_back [] = []
pop_back (c ∷ []) = []
pop_back (b ∷ c ∷ text) = b ∷ pop_back (c ∷ text)

-- In at most so many rounds.
unfoldable pub strip_back : ℕ → Text → Option Text
strip_back zero text = none
strip_back (suc fuel) text =
    let rest = strip_back fuel (pop_back text) in
    elim (back text) [ none ↦ none | some c ↦ if c == slash then rest else some text ]

-- The last loop, in at most so many rounds.
unfoldable pub join_slashes : ℕ → Text → Option Text
join_slashes zero text = none
join_slashes (suc fuel) text = elim (find (slash ∷ slash ∷ []) text) [
  | none ↦ some text
  | some pos ↦ join_slashes fuel (erase pos (some 1) text)
]

infixl 5 ◌>>=◌
abbrev ◌>>=◌ : Option Text → (Text → Option Text) → Option Text
none >>= next = none
some text >>= next = next text

abbrev pub skip_words : Text → Text
skip_words name = skip_word (codes "min_time") (skip_word (codes "iterations") name)

-- What `AddTimeMeasureToLastBenchmark` makes of the name of a benchmark; none if it is undefined.
unfoldable pub measure_name : Text → Option Text
measure_name benchmark_name =
    let name = skip_words benchmark_name in
    strip_back (length name + 1) name >>= strip_front >>= λ text.
    join_slashes (length text + 1) text
