-- ===== src/OptimizedQueue/LostWakeup.antt =====
-- The wakeup that `push` can lose, as it notifies without `head_mutex`.
use concurrencycourse.Prelude.{
  ℕ, ◌<◌, ◌≡◌, refl, ap, subst, fun_ext, ◌≢◌, true, false, none, [], ◌∷◌, ◌++◌, arith, update,
}
use concurrencycourse.OptimizedQueue.Memory.{Ptr, ok}
use concurrencycourse.OptimizedQueue.Methods.{at_tail}
use concurrencycourse.OptimizedQueue.Chain.{Holds, tail-dummy}
use concurrencycourse.OptimizedQueue.Push.{push-Pushed, Pushed-Holds}
use concurrencycourse.OptimizedQueue.Pop.{at_tail-cons}
use concurrencycourse.OptimizedQueue.Threads.{
  waits, Pc, System, Reach, later, outside, sleeping, calls_push, pushes, notifies_nobody,
  calls_take, locks, compares, sleeps,
}
use concurrencycourse.OptimizedQueue.Invariant.{at_tail-same}
use concurrencycourse.OptimizedQueue.Reached.{Reach-Inv}

module _ {A : Type 0} where
  -- All threads are outside, but thread `i` sleeps in `wait_and_pop`.
  abbrev only_sleeper : ℕ → ℕ → Pc A
  only_sleeper i = update (λ _. outside) i sleeping

  -- From every reachable state in which the queue is empty and no thread is in a call, and for any two
  -- threads and any item, the one can call `wait_and_pop` and the other `push` such that the first
  -- comes to sleep while the item is in the queue, and no thread is left in a call that would wake it:
  -- the push falls between the test of the predicate and the sleep.
  push-loses_wakeup :
      {n : ℕ} {start_at : Ptr} {s : System A} (i j : ℕ) (v : A) (fresh : Ptr)
      → i < n
      → j < n
      → i ≢ j
      → Reach n start_at s
      → s.pc ≡ (λ _. outside)
      → s.head_owner ≡ none
      → at_tail s.memory ≡ ok true s.memory
      → s.memory.heap fresh ≡ none
      → (t : System A) × Reach n start_at t
        × (t.pc ≡ only_sleeper i)
        × (t.head_owner ≡ none)
        × (t.pushed ≡ s.pushed ++ v ∷ [])
        × (at_tail t.memory ≡ ok false t.memory)
  push-loses_wakeup {n} {start_at} {s} i j v fresh lt lt' ne r quiet free is_empty unused =
      let (cells, inv) = Reach-Inv r in
      let none_left : cells ≡ [] = (at_tail-same inv.holds is_empty).1 refl in
      let is : Holds s.memory [] = subst (Holds s.memory) none_left inv.holds in
      let (m, ran, did) =
        push-Pushed fresh v s.memory (tail-dummy s.memory.heap [] s.memory.tail is.chain) unused in
      let after = Pushed-Holds fresh v is unused did in
      let at_start : (k : ℕ) → s.pc k ≡ outside = λ k. ap (λ f. f k) quiet in
      (
        _,
        later
            (later
              (later
                (later
                  (later
                    (later (later r (calls_take i waits lt (at_start i)))
                      (locks i waits lt (ground arith) free))
                    (compares i waits lt (ground arith) is_empty))
                  (calls_push j v lt' (ground (arith, at_start j))))
                (pushes j v fresh lt' (ground arith) unused ran))
              (notifies_nobody j lt' (ground arith) (λ k lt'' q. ground (arith, at_start k))))
            (sleeps i lt (ground arith)),
        fun_ext (λ k. ground (arith, at_start k)),
        refl,
        refl,
        at_tail-cons after,
      )
