-- ===== src/HierarchicalMutex.antt =====
-- src/hierarchical_mutex.h and src/hierarchical_mutex.cpp: a mutex that refuses to be locked out of
-- the order of the hierarchy.
pub mod Effects
pub mod System
pub mod Invariant
pub mod Steps
pub mod Safety
pub mod Restore
use concurrencycourse.Prelude.{
  ℕ, ◌-◌, ◌%◌, ◌^◌, Bool, true, false, Option, none, some, leb, if◌then◌else◌, update,
}

-- The fields of one `hierarchical_mutex`; `owner` is the state of the `std::mutex` inside.
pub record Mutex : Type 0 where
  pub owner : Option ℕ
  pub hierarchy_value : ℕ
  pub previous_hierarchy_value : ℕ

-- All mutexes by address, and `this_thread_hierarchy_value` by thread.
pub record World : Type 0 where
  pub mutexes : ℕ → Mutex
  pub this_thread_hierarchy_value : ℕ → ℕ

-- How a call ends: it returns, it waits for the `std::mutex`, or the process is aborted.
pub data Outcome : Type 0 where
  returns : Bool → World → Outcome
  blocks : Outcome
  aborts : Outcome

-- `previous_hierarchy_value` is an `unsigned`, of 32 bits; the other values are `unsigned long`.
abbrev pub to_unsigned : ℕ → ℕ
to_unsigned n = n % 2 ^ 32

-- `numeric_limits<unsigned long>::max()`, where an `unsigned long` has the given number of bits.
abbrev pub ulong_max : ℕ → ℕ
ulong_max bits = 2 ^ bits - 1

abbrev pub hierarchical_mutex : ℕ → Mutex
hierarchical_mutex value = record {
  owner = none;
  hierarchy_value = value;
  previous_hierarchy_value = 0;
}

-- Does the check abort?
unfoldable pub check_for_hierarchy_violation : ℕ → ℕ → World → Bool
check_for_hierarchy_violation t m w =
    leb (w.this_thread_hierarchy_value t) (w.mutexes m).hierarchy_value

unfoldable pub update_hierarchy_value : ℕ → ℕ → World → World
update_hierarchy_value t m w = record {
  mutexes = update w.mutexes m (record (w.mutexes m) {
    previous_hierarchy_value = to_unsigned (w.this_thread_hierarchy_value t);
  });
  this_thread_hierarchy_value =
      update w.this_thread_hierarchy_value t (w.mutexes m).hierarchy_value;
}

unfoldable pub set_owner : ℕ → Option ℕ → World → World
set_owner m o w = record w { mutexes = update w.mutexes m (record (w.mutexes m) { owner = o }) }

-- `internal_mutex.lock()` or a `try_lock()` of it that succeeds; `none` while another thread has it.
unfoldable pub internal_lock : ℕ → ℕ → World → Option World
unfolding set_owner
internal_lock t m w = elim (w.mutexes m).owner [
  | none ↦ some (set_owner m (some t) w)
  | some _ ↦ none
]

-- The part of `lock` and `try_lock` behind the check.
unfoldable pub lock_checked : Outcome → ℕ → ℕ → World → Outcome
unfolding internal_lock update_hierarchy_value
lock_checked busy t m w = elim (internal_lock t m w) [
  | none ↦ busy
  | some w' ↦ returns true (update_hierarchy_value t m w')
]

unfoldable pub lock : ℕ → ℕ → World → Outcome
unfolding check_for_hierarchy_violation lock_checked
lock t m w = if check_for_hierarchy_violation t m w then aborts else lock_checked blocks t m w

unfoldable pub try_lock : ℕ → ℕ → World → Outcome
unfolding check_for_hierarchy_violation lock_checked
try_lock t m w =
    if check_for_hierarchy_violation t m w then aborts else lock_checked (returns false w) t m w

unfoldable pub unlock : ℕ → ℕ → World → World
unfolding set_owner
unlock t m w = set_owner m none (record w {
  this_thread_hierarchy_value =
      update w.this_thread_hierarchy_value t (w.mutexes m).previous_hierarchy_value;
})
