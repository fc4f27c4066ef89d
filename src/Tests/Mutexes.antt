-- ===== src/Tests/Mutexes.antt =====
-- Runs of src/hierarchical_mutex.h.
use concurrencycourse.Prelude.{ℕ, ◌+◌, ◌-◌, ◌%◌, ◌^◌, ◌<◌, ◌≡◌, refl, true, false, some, arith}
use concurrencycourse.HierarchicalMutex.{
  World, returns, blocks, aborts, check_for_hierarchy_violation, internal_lock,
  update_hierarchy_value, set_owner, lock, try_lock, unlock,
}
use concurrencycourse.HierarchicalMutex.System.{
  System, request, acquire, try, init, Reach, start, later,
}
use concurrencycourse.HierarchicalMutex.Safety.{
  WaitsThrough, CanMove, no_circular_wait, no_deadlock,
}
use concurrencycourse.HierarchicalMutex.Restore.{lock_again-aborts}

abbrev levels : ℕ → ℕ
levels m = m % 100 + 20

-- Thread 0 has mutexes 1 and 0, and thread 1 waits for mutex 1.
contended : (s : System) × Reach 64 levels s × (s.waiting 1 ≡ some 1)
unfolding check_for_hierarchy_violation internal_lock update_hierarchy_value set_owner try_lock
contended = (
  _,
  later
      (later (later (later start (request 0 1 refl refl)) (acquire 0 1 refl refl))
        (try 0 0 refl refl))
      (request 1 1 refl refl),
  refl,
)

small : (k : ℕ) → levels k < 2 ^ 32
small k = omega arith

no_deadlock_example : CanMove contended.0
no_deadlock_example = no_deadlock 1 1 small contended.1 contended.2

no_circular_wait_example : ¬ WaitsThrough contended.0 1 1
no_circular_wait_example = no_circular_wait 1 small contended.1

-- Thread 0 locks mutex 1 of value 21, or of a value that an `unsigned` just holds.
abbrev fresh : World
fresh = (init 64 levels).world

abbrev locked : World
locked = update_hierarchy_value 0 1 (set_owner 1 (some 0) fresh)

abbrev fresh_big : World
fresh_big = (init 64 (λ _. 2 ^ 32 - 1)).world

abbrev locked_big : World
locked_big = update_hierarchy_value 0 1 (set_owner 1 (some 0) fresh_big)

lock-fresh : lock 0 1 fresh ≡ returns true locked
unfolding lock
lock-fresh = refl

lock-big : lock 0 1 fresh_big ≡ returns true locked_big
unfolding lock
lock-big = refl

lock_again-aborts_example : lock 0 1 (unlock 0 1 locked_big) ≡ aborts
lock_again-aborts_example = lock_again-aborts 0 1 fresh_big lock-big (omega arith)

-- Another thread waits for the mutex, or is told that it is taken.
taken : (lock 1 1 locked ≡ blocks) × (try_lock 1 1 locked ≡ returns false locked)
unfolding lock try_lock
taken = (refl, refl)

-- A mutex of a higher value aborts.
disordered : lock 0 5 locked ≡ aborts
unfolding lock update_hierarchy_value set_owner
disordered = refl
