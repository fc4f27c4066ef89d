-- ===== src/OptimizedQueue/Progress.antt =====
-- Which threads that share a queue of src/OptimizedThreadSafeQueue.h can go on.
use concurrencycourse.Prelude.{
  ℕ, zero, suc, ◌<◌, ◌≡◌, refl, sym, ap, subst, ◌∙◌, ◌≢◌, ◌⊎◌, inl, inr, Bool, true, false, none,
  some, arith, dec_lt, ==_iff, Option-cases, update,
}
use concurrencycourse.OptimizedQueue.Memory.{Ptr}
use concurrencycourse.OptimizedQueue.Threads.{
  Take, tries, waits, Pc, System, Step, Reach, start, later, outside, pushing, notifying, locking,
  testing, blocking, sleeping, woken, taking, releasing, calls_push, pushes, notifies,
  notifies_nobody, calls_take, locks, compares, sleeps, wakes_up, relocks, takes, releases,
  after_test,
}
use concurrencycourse.OptimizedQueue.Invariant.{has_head}
use concurrencycourse.OptimizedQueue.Safety.{Returns, no_fault}

module _ {A : Type 0} where
  -- The owner of `head_mutex` is at a place where it has it.
  abbrev IsHeld : ℕ → System A → Type 0
  IsHeld n s = (i : ℕ) → s.head_owner ≡ some i → (i < n) × (has_head (s.pc i) ≡ true)

  Step-IsHeld : {n : ℕ} {s t : System A} → Step n s t → IsHeld n s → IsHeld n t
  Step-IsHeld (calls_push i v lt e) held j h = ground (arith, e, held j)
  Step-IsHeld (pushes i v fresh lt e free ran) held j h = ground (arith, e, held j)
  Step-IsHeld (notifies i k lt lt' e e') held j h = ground (arith, e, e', held j)
  Step-IsHeld (notifies_nobody i lt e nobody) held j h = ground (arith, e, held j)
  Step-IsHeld (calls_take i c lt e) held j h = ground (arith, e, held j)
  Step-IsHeld (locks i c lt e free) held j h = ground (arith, e, lt, ==_iff i j)
  Step-IsHeld (compares i tries {empty = true} lt e ran) held j h = cc h
  Step-IsHeld (compares i waits {empty = true} lt e ran) held j h = ground (arith, lt, ==_iff i j)
  Step-IsHeld (compares i tries {empty = false} lt e ran) held j h = ground (arith, lt, ==_iff i j)
  Step-IsHeld (compares i waits {empty = false} lt e ran) held j h = ground (arith, lt, ==_iff i j)
  Step-IsHeld (sleeps i lt e) held j h = cc h
  Step-IsHeld (wakes_up i lt e) held j h = ground (arith, e, held j)
  Step-IsHeld (relocks i lt e free) held j h = ground (arith, lt, ==_iff i j)
  Step-IsHeld (takes i lt e reads unlinks) held j h = cc h
  Step-IsHeld (releases i p x lt e ran) held j h = ground (arith, e, held j)

  Reach-IsHeld : {n : ℕ} {start_at : Ptr} {s : System A} → Reach n start_at s → IsHeld n s
  Reach-IsHeld start i h = cc h
  Reach-IsHeld (later r st) i h = Step-IsHeld st (Reach-IsHeld r) i h

  -- A thread that is in a call and not asleep goes on.
  pub record Goes (n : ℕ) (s : System A) : Type 0 where
    pub thread : ℕ
    pub is_thread : thread < n
    pub is_begun : s.pc thread ≢ outside
    pub is_awake : s.pc thread ≢ sleeping
    pub after : System A
    pub step : Step n s after
    pub moved : after.pc thread ≢ s.pc thread

  goes :
      {n : ℕ} {s t : System A} (i : ℕ) {p p' : Pc A}
      → i < n
      → s.pc i ≡ p
      → Step n s t
      → t.pc i ≡ p'
      → p ≢ outside
      → p ≢ sleeping
      → p' ≢ p
      → Goes n s
  goes i lt at st at' begun awake moved = record {
    thread = i;
    is_thread = lt;
    is_begun = λ e. begun (sym at ∙ e);
    is_awake = λ e. awake (sym at ∙ e);
    after = _;
    step = st;
    moved = λ e. moved (sym at' ∙ e ∙ at);
  }

  sleepers :
      (s : System A) (m : ℕ)
      → ((j : ℕ) × (j < m) × (s.pc j ≡ sleeping)) ⊎ ((j : ℕ) → j < m → s.pc j ≢ sleeping)
  sleepers s zero = inr (λ j lt e. omega (arith, lt))
  sleepers s (suc m) = elim (sleepers s m) [
    | inl (j, lt, e) ↦ inl (j, omega (arith, lt), e)
    | inr nobody ↦ elim (is_sleeping (s.pc m)) [
      | inl e ↦ inl (m, omega arith, e)
      | inr ne ↦ inr (λ j lt e. elim (dec_lt j m) [
        | yes lt' ↦ nobody j lt' e
        | no ge ↦ ne (ap s.pc (omega (arith, lt, ge)) ∙ e)
      ])
    ]
  ]
    where
      is_sleeping : (p : Pc A) → (p ≡ sleeping) ⊎ (p ≢ sleeping)
      is_sleeping sleeping = inl refl
      is_sleeping _ = inr (λ e. cc e)

  at_self : (pc : ℕ → Pc A) (i : ℕ) (p : Pc A) → update pc i p i ≡ p
  at_self pc i p = ground arith

  after_test-ne : (c : Take) (empty : Bool) → after_test {A = A} c empty ≢ testing c
  after_test-ne tries true e = cc e
  after_test-ne waits true e = cc e
  after_test-ne tries false e = cc e
  after_test-ne waits false e = cc e

  module _ {n : ℕ} {start_at : Ptr} {s : System A} (r : Reach n start_at s) (fresh : Ptr)
      (unused : s.memory.heap fresh ≡ none) where
    returns : (i : ℕ) (p : Pc A) → s.pc i ≡ p → Returns fresh s p
    returns i p at = subst (Returns fresh s) at (no_fault fresh i r unused)

    holder-Goes : (i : ℕ) (p : Pc A) → i < n → s.pc i ≡ p → has_head p ≡ true → Goes n s
    holder-Goes i (testing c) lt at h =
        let (empty, ran) = returns i (testing c) at in
        goes i lt at (compares i c lt at ran) (at_self s.pc i (after_test c empty)) (λ e. cc e)
          (λ e. cc e) (after_test-ne c empty)
    holder-Goes i blocking lt at h =
        goes i lt at (sleeps i lt at) (at_self s.pc i sleeping) (λ e. cc e) (λ e. cc e) (λ e. cc e)
    holder-Goes i taking lt at h =
        let (x, p, m, reads, unlinks) = returns i taking at in
        goes i lt at (takes i lt at reads unlinks) (at_self s.pc i (releasing p x)) (λ e. cc e)
          (λ e. cc e) (λ e. cc e)
    holder-Goes i _ lt at h = cc h

    -- Who waits for `head_mutex` gets it, or its owner goes on.
    waiter-Goes :
        (i : ℕ) (p p' : Pc A)
        → i < n
        → s.pc i ≡ p
        → (s.head_owner ≡ none → Step n s (record s { head_owner = some i; pc = update s.pc i p' }))
        → p ≢ outside
        → p ≢ sleeping
        → p' ≢ p
        → Goes n s
    waiter-Goes i p p' lt at st begun awake moved = elim (Option-cases s.head_owner) [
      | inl free ↦ goes i lt at (st free) (at_self s.pc i p') begun awake moved
      | inr (j, taken) ↦ let (lt', h) = Reach-IsHeld r j taken in holder-Goes j (s.pc j) lt' refl h
    ]

    notifier-Goes : (i : ℕ) → i < n → s.pc i ≡ notifying → Goes n s
    notifier-Goes i lt at = elim (sleepers s n) [
      | inl (j, lt', asleep) ↦
          goes i {p' = outside} lt at (notifies i j lt lt' at asleep) (ground (arith, at, asleep))
            (λ e. cc e) (λ e. cc e) (λ e. cc e)
      | inr nobody ↦
          goes i lt at (notifies_nobody i lt at nobody) (at_self s.pc i outside) (λ e. cc e)
            (λ e. cc e) (λ e. cc e)
    ]

    begun-Goes : (i : ℕ) (p : Pc A) → i < n → s.pc i ≡ p → (p ≡ outside) ⊎ (p ≡ sleeping) ⊎ Goes n s
    begun-Goes i outside lt at = inl refl
    begun-Goes i sleeping lt at = inr (inl refl)
    begun-Goes i (pushing v) lt at =
        let (m, ran) = returns i (pushing v) at in
        inr (
          inr (
            goes i lt at (pushes i v fresh lt at unused ran) (at_self s.pc i notifying) (λ e. cc e)
              (λ e. cc e) (λ e. cc e)))
    begun-Goes i notifying lt at = inr (inr (notifier-Goes i lt at))
    begun-Goes i (locking c) lt at = inr (
        inr (
          waiter-Goes i (locking c) (testing c) lt at (locks i c lt at) (λ e. cc e) (λ e. cc e)
            (λ e. cc e)))
    begun-Goes i woken lt at = inr (
        inr (
          waiter-Goes i woken (testing waits) lt at (relocks i lt at) (λ e. cc e) (λ e. cc e)
            (λ e. cc e)))
    begun-Goes i (releasing p x) lt at =
        let (m, ran) = returns i (releasing p x) at in
        inr (
          inr (
            goes i lt at (releases i p x lt at ran) (at_self s.pc i outside) (λ e. cc e) (λ e. cc e)
              (λ e. cc e)))
    begun-Goes i p lt at = inr (inr (holder-Goes i p lt at refl))

  -- In every reachable state, in any interleaving, while `new` has an unused address to return: if any
  -- thread is in a call and not asleep in `wait_and_pop`, then some such thread can go on. So neither
  -- the mutexes nor a fault stop the threads, and only those that sleep can be left in a call.
  pub calls_go_on :
      {n : ℕ} {start_at : Ptr} {s : System A} (fresh : Ptr) (i : ℕ)
      → Reach n start_at s
      → s.memory.heap fresh ≡ none
      → i < n
      → (s.pc i ≡ outside) ⊎ (s.pc i ≡ sleeping) ⊎ Goes n s
  calls_go_on {s} fresh i r unused lt = begun-Goes r fresh unused i (s.pc i) lt refl
