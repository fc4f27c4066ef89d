-- ===== src/Philosophers.antt =====
-- src/6_deadlock_detection.cpp: philosophers at a table, each of whom locks the fork of the seat and
-- then the next one. What they log, and how long they think and eat, is left out.
pub mod Forks
pub mod Held
pub mod Deadlock
pub mod Progress
pub mod Dinner
use concurrencycourse.Prelude.{
  ℕ, zero, suc, ◌+◌, ◌-◌, ◌*◌, ◌/◌, ◌%◌, ◌^◌, ◌≤◌, ◌<◌, ◌≡◌, refl, sym, ap, subst, ◌∙◌, fun_ext,
  ◌≢◌, ◌↔◌, ◌⊎◌, inl, inr, Bool, true, false, not, ◌&&◌, ◌||◌, Option, none, some, List, [], ◌∷◌,
  ◌++◌, map, append_assoc, append-nil, arith, dec_lt, ℕ_discrete, ltb, leb, ◌==◌, if◌then◌else◌,
  ltb→lt, lt→ltb, leb→le, ==_iff, tests, Bool-cases, Option-cases, length, get_elem?, set,
  length-append, get_or, take, drop, replicate, length-map, update, All, All-has, All-mono, has,
  update_elim, update_ext,
}

-- `Table::Seat`; the forks are the mutexes of the table, by index
pub record Seat : Type 0 where
  pub fork1 : ℕ
  pub fork2 : ℕ

-- `Table::GetSeat`, at a table of `seat_count` seats
unfoldable pub get_seat : ℕ → ℕ → Seat
get_seat seat_count index = record { fork1 = index % seat_count; fork2 = (index + 1) % seat_count }

-- Where a philosopher's thread stands in the loop of `Philosopher::Start`.
pub data Pc : Type 0 where
  at_loop : Pc  -- before the test of `m_cancelled`
  hungry : Pc  -- before the lock of the first fork
  has_first : Pc  -- before the lock of the second fork
  eating : Pc
  leaving : Pc  -- the second fork is given back, the first not yet
  ended : Pc

-- `forks` gives the philosopher who has each fork.
pub record Table : Type 0 where
  pub forks : ℕ → Option ℕ
  pub cancelled : ℕ → Bool
  pub pc : ℕ → Pc

-- A step of one of the `n` philosophers, each at the seat of the own number, or the destructor's
-- setting of `m_cancelled`.
pub data Step (n : ℕ) (s : Table) : Table → Type 0 where
  thinks :
      (i : ℕ)
      → i < n
      → s.pc i ≡ at_loop
      → s.cancelled i ≡ false
      → Step n s (record s { pc = update s.pc i hungry })
  ends :
      (i : ℕ)
      → i < n
      → s.pc i ≡ at_loop
      → s.cancelled i ≡ true
      → Step n s (record s { pc = update s.pc i ended })
  takes_first :
      (i : ℕ)
      → i < n
      → s.pc i ≡ hungry
      → s.forks (get_seat n i).fork1 ≡ none
      → Step n s (record s {
        forks = update s.forks (get_seat n i).fork1 (some i);
        pc = update s.pc i has_first;
      })
  takes_second :
      (i : ℕ)
      → i < n
      → s.pc i ≡ has_first
      → s.forks (get_seat n i).fork2 ≡ none
      → Step n s (record s {
        forks = update s.forks (get_seat n i).fork2 (some i);
        pc = update s.pc i eating;
      })
  puts_second :
      (i : ℕ)
      → i < n
      → s.pc i ≡ eating
      → Step n s (record s {
        forks = update s.forks (get_seat n i).fork2 none;
        pc = update s.pc i leaving;
      })
  puts_first :
      (i : ℕ)
      → i < n
      → s.pc i ≡ leaving
      → Step n s (record s {
        forks = update s.forks (get_seat n i).fork1 none;
        pc = update s.pc i at_loop;
      })
  cancels : (i : ℕ) → Step n s (record s { cancelled = update s.cancelled i true })

-- All have been started, and all forks lie on the table.
abbrev pub init : Table
init = record { forks = λ _. none; cancelled = λ _. false; pc = λ _. at_loop }

pub data Reach (n : ℕ) (s : Table) : Table → Type 0 where
  here : Reach n s s
  later : {t u : Table} → Reach n s t → Step n t u → Reach n s u
