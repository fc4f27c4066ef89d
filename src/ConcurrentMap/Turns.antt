-- ===== src/ConcurrentMap/Turns.antt =====
-- The threads of a map whose handlers do not call it: one of them can always go on.
use concurrencycourse.Prelude.{
  ℕ, ◌<◌, ◌≡◌, refl, sym, subst, ◌⊎◌, inl, inr, true, List, Option-cases, has,
}
use concurrencycourse.ConcurrentMap.Ordered.{Less, IsSorted}
use concurrencycourse.ConcurrentMap.Threads.{
  Program, Pc, Shared, System, Move, Step, start_of, Reach, finished, calls, running, locking,
  inside, working, leaving, call_map, lock, look, write, unlock, moves,
}
use concurrencycourse.ConcurrentMap.Calls.{has_lock}
use concurrencycourse.ConcurrentMap.Linear.{Inv, Reach-Inv}

module _ {K V R : Type 0} ⦃o : Less K⦄ (n : ℕ) (pairs₀ : List (K × V)) where
  module _ (programs : ℕ → Program K V R) where
    can_step :
        {s : System K V R} {m : Shared K V} {p p' : Pc K V R} (i : ℕ)
        → i < n
        → s.pc i ≡ p
        → Move i s.shared p m p'
        → (t : System K V R) × Step n s t
    can_step {s} {m} {p} {p'} i lt e mv =
        (_, moves i lt (subst (λ q. Move i s.shared q m p') (sym e) mv))

    owner_steps :
        {s : System K V R} (i : ℕ) (p : Pc K V R)
        → i < n
        → s.pc i ≡ p
        → has_lock p ≡ true
        → (t : System K V R) × Step n s t
    owner_steps i (inside c k) lt e h = can_step i lt e look
    owner_steps i (working c k seen) lt e h = can_step i lt e write
    owner_steps i (leaving r k) lt e h = can_step i lt e unlock
    owner_steps i (running p) lt e h = cc h
    owner_steps i (locking c k) lt e h = cc h

    some_steps :
        {s : System K V R} (i : ℕ) (p : Pc K V R)
        → Inv n pairs₀ programs s
        → i < n
        → s.pc i ≡ p
        → ((r : R) × (p ≡ running (finished r))) ⊎ ((t : System K V R) × Step n s t)
    some_steps i (running (finished r)) inv lt e = inl (r, refl)
    some_steps i (running (calls c k)) inv lt e = inr (can_step i lt e call_map)
    some_steps {s} i (locking c k) inv lt e = elim (Option-cases s.shared.owner) [
      | inl free ↦ inr (can_step i lt e (lock free))
      | inr (j, taken) ↦
          let (lt', has) = inv.held j taken in inr (owner_steps j (s.pc j) lt' refl has)
    ]
    some_steps i (inside c k) inv lt e = inr (owner_steps i (inside c k) lt e refl)
    some_steps i (working c k seen) inv lt e = inr (owner_steps i (working c k seen) lt e refl)
    some_steps i (leaving r k) inv lt e = inr (owner_steps i (leaving r k) lt e refl)

    -- The map never deadlocks on programs whose handlers do not call it: in every state that they can
    -- reach, a thread has finished its program, or some thread can go on.
    never_stuck :
        {s : System K V R} (i : ℕ)
        → IsSorted pairs₀
        → Reach n (start_of pairs₀ programs) s
        → i < n
        → ((r : R) × (s.pc i ≡ running (finished r))) ⊎ ((t : System K V R) × Step n s t)
    never_stuck {s} i sorted r lt =
        some_steps i (s.pc i) (Reach-Inv n pairs₀ programs sorted r) lt refl
