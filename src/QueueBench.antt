-- ===== src/QueueBench.antt =====
-- `bench_body` of src/8_thread_safe_queue.cpp: one thread pushes as many values as another pops. Thread
-- 0 is `t1`, thread 1 is `t2`; the benchmark's loop goes on when both have been joined.
pub mod Simple
pub mod SimpleInvariant
pub mod SimpleMoves
pub mod SimpleEnds
pub mod SimpleBound
pub mod Optimized
use concurrencycourse.Prelude.{
  ℕ, zero, suc, ◌+◌, ◌-◌, ◌*◌, ◌/◌, ◌%◌, ◌^◌, ◌≤◌, ◌<◌, ◌≡◌, refl, sym, ap, subst, ◌∙◌, fun_ext,
  ◌≢◌, ◌↔◌, ◌⊎◌, inl, inr, Bool, true, false, not, ◌&&◌, ◌||◌, Option, none, some, List, [], ◌∷◌,
  ◌++◌, map, append_assoc, append-nil, arith, dec_lt, ℕ_discrete, ltb, leb, ◌==◌, if◌then◌else◌,
  ltb→lt, lt→ltb, leb→le, ==_iff, Bool-cases, Option-cases, length, get_elem?, set, length-append,
  get_or, take, drop, replicate, length-map, update, All, All-has, All-mono, has, update_elim,
  update_ext,
}

-- The first values of `rand`, in their order.
abbrev pub first_values : {A : Type 0} → (ℕ → A) → ℕ → List A
first_values rand zero = []
first_values rand (suc n) = first_values rand n ++ rand n ∷ []

pub length-first_values : {A : Type 0} (rand : ℕ → A) (n : ℕ) → length (first_values rand n) ≡ n
length-first_values rand zero = refl
length-first_values rand (suc n) =
    omega (arith, length-append (first_values rand n) (rand n ∷ []), length-first_values rand n)

-- What the template reads of the threads that use its queue `T`: the steps of their calls, and where
-- a thread stands.
pub record Queue (A : Type 0) : Type 1 where
  pub State : Type 0
  pub Place : Type 0
  pub place : State → ℕ → Place
  pub at_place : State → ℕ → Place → State
  pub Moves : State → State → Type 0
  pub fresh : State
  pub outside : Place
  pub sleeping : Place
  pub pushing : A → Place
  pub popping : Place

module _ {A : Type 0} (T : Queue A) where
  -- `produced` and `consumed` count the rounds that the two loops have begun.
  pub record Bench : Type 0 where
    pub system : T.State
    pub produced : ℕ
    pub consumed : ℕ

module _ {A : Type 0} (T : Queue A) (range : ℕ) (rand : ℕ → A) where
  pub data Step (s : Bench T) : Bench T → Type 0 where
    produces :
        s.produced < range
        → T.place s.system 0 ≡ T.outside
        → Step s (record s {
          system = T.at_place s.system 0 (T.pushing (rand s.produced));
          produced = s.produced + 1;
        })
    consumes :
        s.consumed < range
        → T.place s.system 1 ≡ T.outside
        → Step s (record s { system = T.at_place s.system 1 T.popping; consumed = s.consumed + 1 })
    -- A step of a call that is under way: no thread begins a call.
    goes_on :
        {t : T.State}
        → T.Moves s.system t
        → ((i : ℕ) → T.place s.system i ≡ T.outside → T.place t i ≡ T.outside)
        → Step s (record s { system = t })

  abbrev pub begin : Bench T
  begin = record { system = T.fresh; produced = 0; consumed = 0 }

  pub data Reach : Bench T → Type 0 where
    start : Reach begin
    later : {s t : Bench T} → Reach s → Step s t → Reach t

  -- Both loops are over, so both threads can be joined.
  pub record IsOver (s : Bench T) : Type 0 where
    pub produced : s.produced ≡ range
    pub consumed : s.consumed ≡ range
    pub producer : T.place s.system 0 ≡ T.outside
    pub consumer : T.place s.system 1 ≡ T.outside

  -- A thread that is not asleep moves.
  pub record Goes (s : Bench T) : Type 0 where
    pub thread : ℕ
    pub is_thread : thread < 2
    pub is_awake : T.place s.system thread ≢ T.sleeping
    pub after : Bench T
    pub step : Step s after
    pub moved : T.place after.system thread ≢ T.place s.system thread
