-- ===== src/JoinableThread/Ownership.antt =====
-- Each thread has one owner until it is joined.
use concurrencycourse.Prelude.{
  ℕ, ◌+◌, ◌≤◌, ◌<◌, ◌≡◌, refl, sym, ap, subst, ◌∙◌, ◌≢◌, ◌⊎◌, inl, inr, Bool, true, false, none,
  some, arith, dec_lt, ℕ_discrete, ◌==◌, if◌then◌else◌, ==_iff, Bool-cases, update, has,
}
use concurrencycourse.JoinableThread.{
  World, Run, ok, thread_move, is_own, construct_default, construct, construct_move, assign,
}
use concurrencycourse.JoinableThread.Programs.{
  Step, Reach, init, start, later, constructs_default, constructs, constructs_move, assigns, joins,
  destroys, switches, emptied, assign-joins,
}

-- `keeper t` is the object that has the thread `t`, if it is not joined.
record Owned (w : World) (keeper : ℕ → ℕ) : Type 0 where
  dead : (x : ℕ) → w.live x ≡ false → w.handle x ≡ none
  fits : (x t : ℕ) → w.handle x ≡ some t → (keeper t ≡ x) × (t < w.started) × (w.joined t ≡ false)
  unborn : (t : ℕ) → w.started ≤ t → w.joined t ≡ false
  kept : (t : ℕ) → t < w.started → w.joined t ≡ false → w.handle (keeper t) ≡ some t

emptied-Owned :
    {w : World} {keeper : ℕ → ℕ} (x : ℕ) (live : ℕ → Bool)
    → ((z : ℕ) → live z ≡ false → (z ≡ x) ⊎ (w.live z ≡ false))
    → Owned w keeper
    → Owned (record (emptied x w) { live = live }) keeper
emptied-Owned {w} {keeper} x live lives own = record {
  dead = λ z h. ground (arith, lives z h, own.dead z, ==_iff x z);
  fits = λ z t h. (
    ground (arith, own.fits z t),
    ground (arith, own.fits z t),
    ground (arith, own.fits z t, own.fits x t, ==_iff x z),
  );
  unborn = λ t lt. ground (arith, own.unborn t, own.fits x t);
  kept = λ t lt free. ground (arith, own.kept t, ==_iff x (keeper t));
}

moves-Owned :
    {w : World} {keeper : ℕ → ℕ} (x y : ℕ) (live : ℕ → Bool)
    → w.handle x ≡ none
    → ((z : ℕ) → live z ≡ false → (z ≢ x) × (w.live z ≡ false))
    → Owned w keeper
    → Owned
        (record (thread_move x y w) { live = live })
        (λ t. if keeper t == y then x else keeper t)
moves-Owned {w} {keeper} x y live bare lives own = record {
  dead = λ z h. ground (arith, lives z h, own.dead z, ==_iff x z);
  fits = λ z t h. (
    ground (arith, own.fits z t, own.fits y t, ==_iff x z, ==_iff y z, ==_iff (keeper t) y),
    ground (arith, own.fits z t, own.fits y t),
    ground (arith, own.fits z t, own.fits y t),
  );
  unborn = own.unborn;
  kept = λ t lt free.
      ground
        (arith, own.kept t, bare, ==_iff (keeper t) y, ==_iff x (keeper t), ==_iff y (keeper t));
}

constructs-Owned :
    {w : World} {keeper : ℕ → ℕ} (x : ℕ)
    → w.handle x ≡ none
    → Owned w keeper
    → Owned
        (record w {
          handle = update w.handle x (some w.started);
          live = update w.live x true;
          started = w.started + 1;
        })
        (update keeper w.started x)
constructs-Owned {w} {keeper} x bare own = record {
  dead = λ z h. ground (arith, own.dead z, ==_iff x z);
  fits = λ z t h. (
    ground (arith, own.fits z t, ==_iff x z),
    ground (arith, own.fits z t),
    ground (arith, own.fits z t, own.unborn t),
  );
  unborn = λ t lt. own.unborn t (omega arith);
  kept = λ t lt free. ground (arith, own.kept t, ==_iff x (keeper t));
}

default-Owned :
    {w : World} {keeper : ℕ → ℕ} (x : ℕ)
    → w.handle x ≡ none
    → Owned w keeper
    → Owned (record w { handle = update w.handle x none; live = update w.live x true }) keeper
default-Owned {w} {keeper} x bare own = record {
  dead = λ z h. ground (arith, own.dead z, ==_iff x z);
  fits = λ z t h. own.fits z t (ground (arith, h));
  unborn = own.unborn;
  kept = λ t lt free. ground (arith, own.kept t, bare, ==_iff x (keeper t));
}

buried : (live : ℕ → Bool) (x z : ℕ) → update live x false z ≡ false → (z ≡ x) ⊎ (live z ≡ false)
buried live x z h = elim (ℕ_discrete x z) [
  | yes same ↦ inl (sym same)
  | no other ↦ inr (ground (arith, h, ==_iff x z))
]

-- A step came to a world in which each thread has one owner.
abbrev Gets : Run → Type 0
Gets r = (v : World) × (r ≡ ok v) × (k : ℕ → ℕ) × Owned v k

assigns-Gets :
    {w : World} {keeper : ℕ → ℕ} (x y : ℕ)
    → w.live x ≡ true
    → is_own (w.handle x) w.caller ≡ false
    → Owned w keeper
    → Gets (assign x y w)
assigns-Gets {w} {keeper} x y alive other own = elim (ℕ_discrete x y) [
  | yes same ↦ (
    w,
    ap (λ z. assign x z w) (sym same) ∙ (assign-joins x (x + 1) w (λ e. omega (arith, e))).1,
    keeper,
    own,
  )
  | no ne ↦ (
    thread_move x y (emptied x w),
    (assign-joins x y w ne).0 ∙ rw other refl,
    _,
    moves-Owned x y w.live (ground arith) (λ z h. (λ e. cc (alive, h, e), h))
        (emptied-Owned x w.live (λ z h. inr h) own),
  )
]

Step-Gets : {w : World} {r : Run} {keeper : ℕ → ℕ} → Step w r → Owned w keeper → Gets r
unfolding construct_default construct construct_move
Step-Gets {keeper} (constructs_default x dead) own =
    (_, refl, keeper, default-Owned x (own.dead x dead) own)
Step-Gets (constructs x dead) own = (_, refl, _, constructs-Owned x (own.dead x dead) own)
Step-Gets {w} (constructs_move x y dead alive) own = (
  _,
  refl,
  _,
  moves-Owned x y (update w.live x true) (own.dead x dead)
      (λ z h. ((λ e. ground (arith, h, e, ==_iff x z)), ground (arith, h))) own,
)
Step-Gets (assigns x y alive alive' other) own = assigns-Gets x y alive other own
Step-Gets {w} {keeper = keeper} (joins x alive has other) own = (
  emptied x w,
  (assign-joins x (x + 1) w (λ e. omega (arith, e))).2 ∙ rw (has, other) refl,
  keeper,
  emptied-Owned x w.live (λ z h. inr h) own,
)
Step-Gets {w} {keeper = keeper} (destroys x alive other) own = (
  record (emptied x w) { live = update w.live x false },
  (assign-joins x (x + 1) w (λ e. omega (arith, e))).3 ∙ rw other refl,
  keeper,
  emptied-Owned x _ (buried w.live x) own,
)
Step-Gets {w} {keeper = keeper} (switches caller) own = (
  record w { caller = caller },
  refl,
  keeper,
  record { dead = own.dead; fits = own.fits; unborn = own.unborn; kept = own.kept },
)

Reach-Gets : {r : Run} → Reach r → Gets r
Reach-Gets start = (
  init,
  refl,
  λ _. 0,
  record {
    dead = λ x h. refl;
    fits = λ x t h. cc h;
    unborn = λ t h. refl;
    kept = λ t lt h. absurd (omega (arith, lt));
  },
)
Reach-Gets (later {w} r st) =
    let (v, e, k, own) = Reach-Gets r in
    let same : v ≡ w = cc e in Step-Gets st (subst (λ u. Owned u k) same own)

-- In every state that a program can reach, a thread is in at most one object.
one_owner :
    {w : World} (x y t : ℕ)
    → Reach (ok w)
    → w.handle x ≡ some t
    → w.handle y ≡ some t
    → (x ≡ y) × (w.joined t ≡ false)
one_owner {w} x y t r e e' =
    let (v, q, k, own') = Reach-Gets r in
    let same : v ≡ w = cc q in
    let own = subst (λ u. Owned u k) same own' in
    (sym (own.fits x t e).0 ∙ (own.fits y t e').0, (own.fits x t e).2)

-- However a program makes, moves, assigns, joins and destroys its `JoinableThread` objects, as long as
-- no thread joins itself and `join` is called only where there is a thread, no step calls
-- `std::terminate` and none throws; and every thread that it started has been joined, or is in one of
-- the objects that are not yet destroyed. So all are joined once all objects are destroyed.
pub all_joined :
    {r : Run} (t : ℕ)
    → Reach r
    → (w : World) × (r ≡ ok w)
      × ((w.started ≤ t)
          ⊎ (w.joined t ≡ true)
          ⊎ ((x : ℕ) × (w.live x ≡ true) × (w.handle x ≡ some t) × (w.joined t ≡ false)))
all_joined t r =
    let (w, e, keeper, own) = Reach-Gets r in
    (
      w,
      e,
      elim (dec_lt t w.started) [
        | no ge ↦ inl (omega (arith, ge))
        | yes lt ↦ inr (elim (Bool-cases (w.joined t)) [
          | inl done ↦ inl done
          | inr free ↦
              let held = own.kept t lt free in
              inr (elim (Bool-cases (w.live (keeper t))) [
                | inl alive ↦ (keeper t, alive, held, free)
                | inr dead ↦ cc (held, own.dead (keeper t) dead)
              ])
        ])
      ],
    )
