-- ===== src/Philosophers/Dinner.antt =====
-- `main` of src/6_deadlock_detection.cpp as a whole, on any list of names: the table, the threads of the
-- philosophers with what they log and how long they sleep, and the destructors. Times are milliseconds.
pub mod View
pub mod Attended
pub mod Refines
pub mod Ends
pub mod Lines
pub mod Rounds
pub mod Hangs
pub mod Progress
use concurrencycourse.Prelude.{
  ℕ, zero, suc, ◌+◌, ◌-◌, ◌*◌, ◌/◌, ◌%◌, ◌^◌, ◌≤◌, ◌<◌, ◌≡◌, refl, sym, ap, subst, ◌∙◌, fun_ext,
  ◌≢◌, ◌↔◌, ◌⊎◌, inl, inr, Bool, true, false, not, ◌&&◌, ◌||◌, Option, none, some, List, [], ◌∷◌,
  ◌++◌, map, append_assoc, append-nil, arith, dec_lt, ℕ_discrete, ltb, leb, ◌==◌, if◌then◌else◌,
  ltb→lt, lt→ltb, leb→le, ==_iff, tests, Bool-cases, Option-cases, length, get_elem?, set,
  length-append, get_or, take, drop, replicate, length-map, update, All, All-has, All-mono, has,
  update_elim, update_ext, length-set, get_elem?-set_self, get_elem?-set_ne,
}
use concurrencycourse.Prelude.Texts.{Text, codes}
use concurrencycourse.Logger.{decimal}
use concurrencycourse.Philosophers.{get_seat, Seat}

-- The calls of `Logger::Log` by one philosopher.
pub data Line : Type 0 where
  thinks : Line
  goes_to_eat : Line
  requests1 : Line
  requests2 : Line
  eats : Line

-- The calls of `sleep_for`.
pub data Nap : Type 0 where
  thought : Nap
  pause : Nap
  meal : Nap

-- What `RandomTime` is called with.
abbrev pub shortest : Nap → ℕ
shortest thought = 50
shortest pause = 50
shortest meal = 50

abbrev pub longest : Nap → ℕ
longest thought = 500
longest pause = 100
longest meal = 125

-- `RandomTime`: `uniform_int_distribution` gives any number of the closed interval.
pub data RandomTime (from to : ℕ) : ℕ → Type 0 where
  between : (time : ℕ) → from ≤ time → time ≤ to → RandomTime from to time

-- Where a philosopher's thread stands.
pub data Place : Type 0 where
  idle : Place  -- not started
  at_test : Place  -- before the test of `m_cancelled`
  logs : Line → Place
  naps : Nap → Place  -- before the call of `RandomTime`
  napping : Nap → ℕ → Place  -- asleep until a time
  locks1 : Place
  locks2 : Place
  unlocks2 : Place
  unlocks1 : Place
  returned : Place

abbrev pub after_line : Line → Place
after_line thinks = naps thought
after_line goes_to_eat = logs requests1
after_line requests1 = locks1
after_line requests2 = locks2
after_line eats = naps meal

abbrev pub after_nap : Nap → Place
after_nap thought = logs goes_to_eat
after_nap pause = logs requests2
after_nap meal = unlocks2

-- A call of `Log`: whose it is, and which.
pub record Entry : Type 0 where
  pub writer : ℕ
  pub line : Line

-- `Philosopher::Philosopher`, of the philosopher with this number.
abbrev pub name_of : List Text → ℕ → Text
name_of names i = get_or names i []

unfoldable pub request_text : ℕ → Text
request_text index = codes "requested fork #" ++ decimal index

-- The text of a call, among philosophers with these names.
unfoldable pub text_of : List Text → ℕ → Line → Text
text_of names i thinks = name_of names i ++ codes " thinks..."
text_of names i goes_to_eat = name_of names i ++ codes " going to eat"
text_of names i requests1 = request_text (get_seat (length names) i).fork1
text_of names i requests2 = request_text (get_seat (length names) i).fork2
text_of names i eats = name_of names i ++ codes " eats.."

abbrev pub message : List Text → Entry → Text
message names e = text_of names e.writer e.line

-- `m_forks`: of each mutex its owner.
abbrev pub Forks : Type 0
Forks = List (Option ℕ)

-- `Table::Table`: a free mutex for each seat.
unfoldable pub make_table : ℕ → Forks
make_table zero = []
make_table (suc seat_count) = make_table seat_count ++ none ∷ []

-- `GetFork`: the mutex that the iterator comes to; none is past the end of the list, which is undefined.
abbrev pub get_fork : Forks → ℕ → Option (Option ℕ)
get_fork forks index = get_elem? forks index

-- How long `main` sleeps.
abbrev pub main_sleep : ℕ
main_sleep = 60000

-- Where `main` stands.
pub data Main : Type 0 where
  starts : ℕ → Main  -- before the construction of the philosopher with this number
  sleeps : ℕ → Main  -- until a time
  destroys : ℕ → Main  -- so many philosophers are left
  joins : ℕ → Main  -- in the destructor of the philosopher with this number
  over : Main  -- the table is destroyed

pub record Dinner : Type 0 where
  pub forks : Forks
  pub cancelled : ℕ → Bool
  pub place : ℕ → Place
  pub log : List Entry
  pub main : Main
  pub now : ℕ

-- A step of philosopher `i` of `n`, whose thread has the lambda of `Start` run at the own seat.
pub data Turn (n i : ℕ) (s : Dinner) : Place → Forks → List Entry → Place → Type 0 where
  goes_round : s.cancelled i ≡ false → Turn n i s at_test s.forks s.log (logs thinks)
  leaves : s.cancelled i ≡ true → Turn n i s at_test s.forks s.log returned
  writes :
      {line : Line}
      → Turn n i s
          (logs line)
          s.forks
          (s.log ++ record { writer = i; line = line } ∷ [])
          (after_line line)
  falls_asleep :
      {nap : Nap} {time : ℕ}
      → RandomTime (shortest nap) (longest nap) time
      → Turn n i s (naps nap) s.forks s.log (napping nap (s.now + time))
  wakes :
      {nap : Nap} {until : ℕ}
      → until ≤ s.now
      → Turn n i s (napping nap until) s.forks s.log (after_nap nap)
  takes_first :
      get_fork s.forks (get_seat n i).fork1 ≡ some none
      → Turn n i s locks1 (set s.forks (get_seat n i).fork1 (some i)) s.log (naps pause)
  takes_second :
      get_fork s.forks (get_seat n i).fork2 ≡ some none
      → Turn n i s locks2 (set s.forks (get_seat n i).fork2 (some i)) s.log (logs eats)
  puts_second : Turn n i s unlocks2 (set s.forks (get_seat n i).fork2 none) s.log unlocks1
  puts_first : Turn n i s unlocks1 (set s.forks (get_seat n i).fork1 none) s.log at_test

-- What a thread of the program does, with `n` philosophers.
pub data Act (n : ℕ) (s : Dinner) : Dinner → Type 0 where
  turns :
      (i : ℕ) {forks : Forks} {log : List Entry} {p : Place}
      → i < n
      → Turn n i s (s.place i) forks log p
      → Act n s (record s { forks = forks; log = log; place = update s.place i p })
  begins :
      (k : ℕ)
      → k < n
      → s.main ≡ starts k
      → Act n s (record s { place = update s.place k at_test; main = starts (k + 1) })
  rests : s.main ≡ starts n → Act n s (record s { main = sleeps (s.now + main_sleep) })
  rises :
      (until : ℕ) → s.main ≡ sleeps until → until ≤ s.now → Act n s (record s { main = destroys n })
  cancels :
      (k : ℕ)
      → s.main ≡ destroys (suc k)
      → Act n s (record s { cancelled = update s.cancelled k true; main = joins k })
  not_joinable :
      (k : ℕ) → s.main ≡ joins k → s.place k ≡ idle → Act n s (record s { main = destroys k })
  joined :
      (k : ℕ) → s.main ≡ joins k → s.place k ≡ returned → Act n s (record s { main = destroys k })
  ends : s.main ≡ destroys 0 → Act n s (record s { main = over })

pub data Step (n : ℕ) (s : Dinner) : Dinner → Type 0 where
  acts : {t : Dinner} → Act n s t → Step n s t
  passes : (time : ℕ) → Step n s (record s { now = s.now + time })

abbrev pub begin : ℕ → Dinner
begin n = record {
  forks = make_table n;
  cancelled = λ _. false;
  place = λ _. idle;
  log = [];
  main = starts 0;
  now = 0;
}

pub data Reach (n : ℕ) (s : Dinner) : Dinner → Type 0 where
  here : Reach n s s
  later : {t u : Dinner} → Reach n s t → Step n t u → Reach n s u

pub Reach-trans : {n : ℕ} {s t u : Dinner} → Reach n s t → Reach n t u → Reach n s u
Reach-trans r here = r
Reach-trans r (later r' st) = later (Reach-trans r r') st

-- The philosophers of `main`.
abbrev pub names : List Text
names = codes "Immanuel Kant" ∷ codes "Baruch Spinoza" ∷ codes "Francis Bacon" ∷ []
