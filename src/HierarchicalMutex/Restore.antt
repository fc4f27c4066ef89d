-- ===== src/HierarchicalMutex/Restore.antt =====
-- What a thread's value is after `lock` and `unlock`, and what the narrow field makes of it.
use concurrencycourse.Prelude.{
  ℕ, ◌-◌, ◌%◌, ◌^◌, ◌≤◌, ◌≡◌, ap, ◌∙◌, true, none, arith, update, update_ext,
}
use concurrencycourse.HierarchicalMutex.{
  World, Mutex, returns, aborts, check_for_hierarchy_violation, lock, try_lock, unlock,
}
use concurrencycourse.HierarchicalMutex.Effects.{Took, Gave, unlock-Gave, lock-Locked}

module _ (t m : ℕ) (w : World) {w' : World} (locked : lock t m w ≡ returns true w') where
  took : Took t m w w'
  took = (lock-Locked t m w locked).took

  gave : Gave t m w' (unlock t m w')
  gave = unlock-Gave t m w'

  value-eq :
      (unlock t m w').this_thread_hierarchy_value t ≡ w.this_thread_hierarchy_value t % 2 ^ 32
  value-eq = gave.value ∙ ap (λ (x : Mutex). x.previous_hierarchy_value) took.self

  -- `unlock` after `lock` leaves the thread its value modulo 2 ^ 32 and every other thread its value;
  -- it leaves the mutex free with its own value, and every other mutex as it was.
  unlock-lock :
      ((unlock t m w').this_thread_hierarchy_value
        ≡ update w.this_thread_hierarchy_value t (w.this_thread_hierarchy_value t % 2 ^ 32))
      × ((unlock t m w').mutexes
          ≡ update w.mutexes m (record {
            owner = none;
            hierarchy_value = (w.mutexes m).hierarchy_value;
            previous_hierarchy_value = w.this_thread_hierarchy_value t % 2 ^ 32;
          }))
  unlock-lock = (
    update_ext w.this_thread_hierarchy_value _ t _ value-eq
        (λ u ne. gave.values u ne ∙ took.values u ne),
    update_ext w.mutexes _ m _ (ground (arith, gave.self, took.self))
        (λ k ne. gave.other k ne ∙ took.other k ne),
  )

  -- A mutex whose value is 2 ^ 32 - 1 or more can be locked and unlocked once by a thread: the next
  -- `lock` by that thread aborts, although the thread holds no more than it did before.
  pub lock_again-aborts :
      2 ^ 32 - 1 ≤ (w.mutexes m).hierarchy_value → lock t m (unlock t m w') ≡ aborts
  unfolding lock check_for_hierarchy_violation
  lock_again-aborts big = ground (arith, value-eq, gave.self, took.self)

  -- A second `lock`, or a `try_lock`, by the thread that has the mutex aborts.
  lock_twice-aborts : (lock t m w' ≡ aborts) × (try_lock t m w' ≡ aborts)
  unfolding lock try_lock check_for_hierarchy_violation
  lock_twice-aborts = (ground (arith, took.value, took.self), ground (arith, took.value, took.self))
