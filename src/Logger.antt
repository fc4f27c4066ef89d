-- ===== src/Logger.antt =====
-- src/Logger.h: the singleton and the text of a line. The clock counts in ticks and never goes back.
pub mod Digits
pub mod RoundTrip
use Prim.Native.Char.{code}
use Prim.Native.String.{String}
use concurrencycourse.Prelude.{
  ℕ, zero, suc, ◌+◌, ◌-◌, ◌*◌, ◌/◌, ◌%◌, ◌^◌, ◌≤◌, ◌<◌, ◌≡◌, refl, sym, ap, subst, ◌∙◌, fun_ext,
  ◌≢◌, ◌↔◌, ◌⊎◌, inl, inr, Bool, true, false, not, ◌&&◌, ◌||◌, Option, none, some, List, [], ◌∷◌,
  ◌++◌, map, append_assoc, append-nil, arith, dec_lt, ℕ_discrete, ltb, leb, ◌==◌, if◌then◌else◌,
  ltb→lt, lt→ltb, leb→le, ==_iff, tests, Bool-cases, Option-cases, length, get_elem?, set,
  length-append, get_or, take, drop, replicate, length-map, update, All, All-has, All-mono, has,
  update_elim, update_ext,
}
use concurrencycourse.Prelude.Texts.{Text, codes}

-- An `int`.
pub data ℤ : Type 0 where
  pos : ℕ → ℤ
  negsuc : ℕ → ℤ

-- `static_cast<int>` of a count that is not negative: it keeps the low 32 bits.
unfoldable pub to_int : ℕ → ℤ
to_int n = let r = n % 2 ^ 32 in if ltb r (2 ^ 31) then pos r else negsuc (2 ^ 32 - 1 - r)

-- The decimal digits of a number, with fuel.
unfoldable pub digits : ℕ → ℕ → Text
digits zero n = []
digits (suc fuel) n =
    let rest = digits fuel (n / 10) in
    if ltb n 10 then (48 + n) ∷ [] else rest ++ (48 + n % 10) ∷ []

abbrev pub decimal : ℕ → Text
decimal n = digits (suc n) n

-- "%d" and "%0<width>d"
unfoldable pub print_int : ℤ → Text
print_int (pos n) = decimal n
print_int (negsuc n) = b'-' ∷ decimal (suc n)

abbrev pub zeros : ℕ → Text → Text
zeros width text = replicate (width - length text) b'0' ++ text

unfoldable pub print_int_zeros : ℕ → ℤ → Text
print_int_zeros width (pos n) = zeros width (decimal n)
print_int_zeros width (negsuc n) = b'-' ∷ zeros (width - 1) (decimal (suc n))

-- What `snprintf` is to write, and what the buffer of 128 bytes has room for.
unfoldable pub uptime_text : ℕ → Text
uptime_text uptime =
    b'['
    ∷ (print_int (to_int (uptime / 1000))
        ++ b'.' ∷ (print_int_zeros 3 (to_int (uptime % 1000)) ++ codes "s]"))

unfoldable pub format_uptime : ℕ → Text
format_uptime uptime = take (128 - 1) (uptime_text uptime)

-- The uptime in milliseconds, of `ticks` ticks each.
unfoldable pub get_uptime : ℕ → ℕ → ℕ → ℕ
get_uptime ticks start_time now = (now - start_time) / ticks

-- A call of `Log`: the message, and what the clock shows in `Get` and in `GetUptime`.
pub record Call : Type 0 where
  pub get_at : ℕ
  pub format_at : ℕ
  pub message : Text

-- `Get`: `m_startTime` of the logger; none if it has not been made yet.
abbrev pub get : ℕ → Option ℕ → ℕ
get now none = now
get now (some start_time) = start_time

unfoldable pub log_impl : ℕ → ℕ → Call → Text
log_impl ticks start_time c =
    format_uptime (get_uptime ticks start_time c.format_at) ++ b' ' ∷ (c.message ++ codes "\n")

-- Calls of `Log`, one after the other: the lines, and the logger after them.
unfoldable pub log : ℕ → List Call → Option ℕ → List Text × Option ℕ
log ticks [] logger = ([], logger)
log ticks (c ∷ calls) logger =
    let start_time = get c.get_at logger in
    let (lines, logger') = log ticks calls (some start_time) in
    (log_impl ticks start_time c ∷ lines, logger')
