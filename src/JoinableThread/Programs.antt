-- ===== src/JoinableThread/Programs.antt =====
-- Programs that use `JoinableThread` objects, and what the assignment and the destructor do.
use concurrencycourse.Prelude.{
  ℕ, ◌≡◌, refl, sym, ap, fun_ext, ◌≢◌, inl, inr, Bool, true, false, not, ◌||◌, Option, none, some,
  arith, if◌then◌else◌, ==_iff, Bool-cases, Option-cases, update,
}
use concurrencycourse.JoinableThread.{
  World, Run, ok, terminated, system_error, thread_move, is_own, construct_default, construct,
  construct_move, joinable, join, join_if_joinable, assign_thread, assign, destroy,
}

-- A step of a program, and what comes of it: objects are made where none is, and used where one is; a
-- thread joins another one, and `join` is called where there is one.
pub data Step (w : World) : Run → Type 0 where
  constructs_default : (x : ℕ) → w.live x ≡ false → Step w (construct_default x w)
  constructs : (x : ℕ) → w.live x ≡ false → Step w (construct x w)
  constructs_move : (x y : ℕ) → w.live x ≡ false → w.live y ≡ true → Step w (construct_move x y w)
  assigns :
      (x y : ℕ)
      → w.live x ≡ true
      → w.live y ≡ true
      → is_own (w.handle x) w.caller ≡ false
      → Step w (assign x y w)
  joins :
      (x : ℕ)
      → w.live x ≡ true
      → joinable x w ≡ true
      → is_own (w.handle x) w.caller ≡ false
      → Step w (join x w)
  destroys : (x : ℕ) → w.live x ≡ true → is_own (w.handle x) w.caller ≡ false → Step w (destroy x w)
  switches : (caller : Option ℕ) → Step w (ok (record w { caller = caller }))

abbrev pub init : World
init = record {
  handle = λ _. none;
  live = λ _. false;
  started = 0;
  joined = λ _. false;
  caller = none;
}

pub data Reach : Run → Type 0 where
  start : Reach (ok init)
  later : {w : World} {r : Run} → Reach (ok w) → Step w r → Reach r

-- The joining of what is at an address, if anything is.
abbrev pub mark : Option ℕ → (ℕ → Bool) → ℕ → Bool
mark none joined = joined
mark (some t) joined = update joined t true

abbrev pub emptied : ℕ → World → World
emptied x w = record w { handle = update w.handle x none; joined = mark (w.handle x) w.joined }

update-same : (f : ℕ → Option ℕ) (x : ℕ) → f x ≡ none → update f x none ≡ f
update-same f x e = fun_ext (λ y. ground (arith, e, ==_iff x y))

join_if_joinable-run :
    (x : ℕ) (w : World)
    → join_if_joinable x w
      ≡ (if is_own (w.handle x) w.caller then system_error else ok (emptied x w))
unfolding join_if_joinable
join_if_joinable-run x w = elim (Option-cases (w.handle x)) [
  | inl e ↦ rw e (ap (λ f. ok (record w { handle = f })) (sym (update-same w.handle x e)))
  | inr (t, e) ↦ rw e refl
]

-- What every operation on an object at `x` does that can join: an assignment from another object joins
-- the thread that the target has, if any, and takes over the other's; an assignment of an object to
-- itself changes nothing; `join` and the destructor join the thread, where `join` throws if there is
-- none. A thread that would so join itself gets an exception, which from the destructor is
-- `std::terminate`; otherwise none of them calls `std::terminate`.
pub assign-joins :
    (x y : ℕ) (w : World)
    → x ≢ y
    → (assign x y w ≡ (
        if is_own (w.handle x) w.caller then system_error else ok (thread_move x y (emptied x w))))
      × (assign x x w ≡ ok w)
      × (join x w ≡ (
          if not (joinable x w) || is_own (w.handle x) w.caller
          then system_error
          else ok (emptied x w)))
      × (destroy x w ≡ (
          if is_own (w.handle x) w.caller
          then terminated
          else ok (record (emptied x w) { live = update w.live x false })))
unfolding assign assign_thread join joinable destroy
assign-joins x y w ne = (
  elim (Bool-cases (is_own (w.handle x) w.caller)) [
    | inl own ↦ rw (join_if_joinable-run x w, own) (ground (arith, ==_iff x y))
    | inr other ↦ rw (join_if_joinable-run x w, other) (ground (arith, ==_iff x y))
  ],
  ground (arith, ==_iff x x),
  elim (Option-cases (w.handle x)) [ inl e ↦ rw e refl | inr (t, e) ↦ rw e refl ],
  elim (Bool-cases (is_own (w.handle x) w.caller)) [
    | inl own ↦ rw (join_if_joinable-run x w, own) refl
    | inr other ↦ rw (join_if_joinable-run x w, other) (ground arith)
  ],
)
