-- ===== src/HierarchicalMutex/Effects.antt =====
-- What the operations of `hierarchical_mutex` change, a mutex and a thread at a time.
use concurrencycourse.Prelude.{
  ℕ, ◌<◌, ◌≡◌, subst, ◌≢◌, inl, inr, true, false, none, some, arith, Bool-cases, Option-cases,
}
use concurrencycourse.HierarchicalMutex.{
  World, Outcome, returns, blocks, check_for_hierarchy_violation, lock_checked, lock, try_lock,
  to_unsigned, internal_lock, update_hierarchy_value, set_owner, unlock,
}

-- Thread `t` has taken the free mutex `m`.
pub record Took (t m : ℕ) (w w' : World) : Type 0 where
  pub free : (w.mutexes m).owner ≡ none
  pub self : w'.mutexes m ≡ record {
    owner = some t;
    hierarchy_value = (w.mutexes m).hierarchy_value;
    previous_hierarchy_value = to_unsigned (w.this_thread_hierarchy_value t);
  }
  pub other : (k : ℕ) → k ≢ m → w'.mutexes k ≡ w.mutexes k
  pub value : w'.this_thread_hierarchy_value t ≡ (w.mutexes m).hierarchy_value
  pub values : (u : ℕ) → u ≢ t → w'.this_thread_hierarchy_value u ≡ w.this_thread_hierarchy_value u

-- Thread `t` has given the mutex `m` back.
pub record Gave (t m : ℕ) (w w' : World) : Type 0 where
  pub self : w'.mutexes m ≡ record (w.mutexes m) { owner = none }
  pub other : (k : ℕ) → k ≢ m → w'.mutexes k ≡ w.mutexes k
  pub value : w'.this_thread_hierarchy_value t ≡ (w.mutexes m).previous_hierarchy_value
  pub values : (u : ℕ) → u ≢ t → w'.this_thread_hierarchy_value u ≡ w.this_thread_hierarchy_value u

pub internal_lock-Took :
    (t m : ℕ) (w : World) {w' : World}
    → internal_lock t m w ≡ some w'
    → Took t m w (update_hierarchy_value t m w')
unfolding internal_lock update_hierarchy_value set_owner
internal_lock-Took t m w e = record {
  free = ground arith;
  self = ground arith;
  other = λ k ne. ground arith;
  value = ground arith;
  values = λ u ne. ground arith;
}

pub unlock-Gave : (t m : ℕ) (w : World) → Gave t m w (unlock t m w)
unfolding unlock set_owner
unlock-Gave t m w = record {
  self = ground arith;
  other = λ k ne. ground arith;
  value = ground arith;
  values = λ u ne. ground arith;
}

pub check-lt :
    (t m : ℕ) (w : World)
    → check_for_hierarchy_violation t m w ≡ false
    → (w.mutexes m).hierarchy_value < w.this_thread_hierarchy_value t
unfolding check_for_hierarchy_violation
check-lt t m w h = ground arith

lock_checked-Took :
    (busy : Outcome) (t m : ℕ) (w : World) {w' : World}
    → busy ≢ returns true w'
    → lock_checked busy t m w ≡ returns true w'
    → Took t m w w'
unfolding lock_checked
lock_checked-Took busy t m w {w'} ne e = elim (Option-cases (internal_lock t m w)) [
  | inl none_left ↦ absurd (ne (rw (none_left, lock_checked) at e))
  | inr (v, got) ↦
      let eq : update_hierarchy_value t m v ≡ w' = cc (rw (got, lock_checked) at e) in
      subst (Took t m w) eq (internal_lock-Took t m w got)
]

-- What a `lock` or a `try_lock` that returns with the mutex has done.
pub record Locked (t m : ℕ) (w w' : World) : Type 0 where
  pub order : (w.mutexes m).hierarchy_value < w.this_thread_hierarchy_value t
  pub took : Took t m w w'

pub lock-Locked :
    (t m : ℕ) (w : World) {w' : World} → lock t m w ≡ returns true w' → Locked t m w w'
unfolding lock
lock-Locked t m w e = elim (Bool-cases (check_for_hierarchy_violation t m w)) [
  | inl bad ↦ cc (rw bad at e)
  | inr good ↦ record {
    order = check-lt t m w good;
    took = lock_checked-Took blocks t m w (λ q. cc) (rw good at e);
  }
]

pub try_lock-Locked :
    (t m : ℕ) (w : World) {w' : World} → try_lock t m w ≡ returns true w' → Locked t m w w'
unfolding try_lock
try_lock-Locked t m w e = elim (Bool-cases (check_for_hierarchy_violation t m w)) [
  | inl bad ↦ cc (rw bad at e)
  | inr good ↦ record {
    order = check-lt t m w good;
    took = lock_checked-Took (returns false w) t m w (λ q. cc) (rw good at e);
  }
]
