-- ===== src/Programs/Uncaught.antt =====
-- src/1_thread.cpp: `main` and the thread both throw.
use concurrencycourse.Prelude.{ℕ, ◌+◌, ◌≤◌, ◌≡◌, refl, ◌⊎◌, inl, inr, Bool, true, false, arith}

-- Where `main` stands.
pub data Main : Type 0 where
  before : Main  -- before the thread is made
  acting : Main  -- in `do_something_on_main_thread`
  unwinding : Main  -- its exception is on the way to the handler; `t` is still to be destroyed
  handling : Main  -- in `catch (...)`
  printing : Main  -- before "Everything is OK!"
  returning : Main

-- The state of the process: `made` tells whether `t` has a thread, which is joinable until the end, and
-- `printed` whether the message has been written.
pub data Process : Type 0 where
  runs : Main → (made : Bool) → (printed : Bool) → Process
  terminated : Process  -- by `std::terminate`
  returned : (printed : Bool) → Process

pub data Step : Process → Process → Type 0 where
  makes : Step (runs before false false) (runs acting true false)
  fails : Step (runs before false false) (runs handling false false)  -- `std::system_error`
  throws : {made printed : Bool} → Step (runs acting made printed) (runs unwinding made printed)
  -- The destructor of a `std::thread` that is joinable.
  destroys : {printed : Bool} → Step (runs unwinding true printed) terminated
  -- The exception leaves `thread_proc`.
  thread_throws : {main : Main} {printed : Bool} → Step (runs main true printed) terminated
  handles : {made printed : Bool} → Step (runs handling made printed) (runs printing made printed)
  prints : {made printed : Bool} → Step (runs printing made printed) (runs returning made true)
  returns : {printed : Bool} → Step (runs returning false printed) (returned printed)

pub data Steps : ℕ → Process → Process → Type 0 where
  here : {s : Process} → Steps 0 s s
  later : {n : ℕ} {s t u : Process} → Steps n s t → Step t u → Steps (n + 1) s u

abbrev pub has_printed : Process → Bool
has_printed (runs _ _ printed) = printed
has_printed terminated = false
has_printed (returned printed) = printed

-- After the constructor of `t`.
abbrev pub made : Process
made = runs acting true false

-- What can be after `n` steps.
data Inv : ℕ → Process → Type 0 where
  is_acting : Inv 0 made
  is_unwinding : Inv 1 (runs unwinding true false)
  is_over : {n : ℕ} → n ≤ 2 → Inv n terminated

Step-Inv : {n : ℕ} {s t : Process} → Inv n s → Step s t → Inv (n + 1) t
Step-Inv is_acting throws = is_unwinding
Step-Inv is_acting thread_throws = is_over (omega arith)
Step-Inv is_unwinding destroys = is_over (omega arith)
Step-Inv is_unwinding thread_throws = is_over (omega arith)
Step-Inv (is_over _) st = elim st [ ]

Steps-Inv : {n : ℕ} {s : Process} → Steps n made s → Inv n s
Steps-Inv here = is_acting
Steps-Inv (later r st) = Step-Inv (Steps-Inv r) st

Inv-ends :
    {n : ℕ} {s : Process}
    → Inv n s
    → (n ≤ 2) × (has_printed s ≡ false) × ((s ≡ terminated) ⊎ ((t : Process) × Step s t))
Inv-ends is_acting = (omega arith, refl, inr (_, throws))
Inv-ends is_unwinding = (omega arith, refl, inr (_, destroys))
Inv-ends (is_over le) = (le, refl, inl refl)

-- Once the thread has been made, the process takes at most two more steps, it never stops before
-- `std::terminate` has ended it, by either of the two exceptions, and the message is never written.
pub made-terminates :
    {n : ℕ} {s : Process}
    → Steps n made s
    → (n ≤ 2) × (has_printed s ≡ false) × ((s ≡ terminated) ⊎ ((t : Process) × Step s t))
made-terminates r = Inv-ends (Steps-Inv r)
