-- ===== src/SimpleQueue.antt =====
-- src/SimpleThreadSafeQueue.h: the body of each method on the items of `m_queue`, oldest first. The
-- mutex, the condition variable and the threads are in the child `Threads`.
pub mod Threads
pub mod Invariant
pub mod Safety
use concurrencycourse.Prelude.{
  ℕ, zero, suc, ◌+◌, ◌-◌, ◌*◌, ◌/◌, ◌%◌, ◌^◌, ◌≤◌, ◌<◌, ◌≡◌, refl, sym, ap, subst, ◌∙◌, fun_ext,
  ◌≢◌, ◌↔◌, ◌⊎◌, inl, inr, Bool, true, false, not, ◌&&◌, ◌||◌, Option, none, some, List, [], ◌∷◌,
  ◌++◌, map, append_assoc, append-nil, arith, dec_lt, ℕ_discrete, ltb, leb, ◌==◌, if◌then◌else◌,
  ltb→lt, lt→ltb, leb→le, ==_iff, tests, Bool-cases, Option-cases, length, get_elem?, set,
  length-append, get_or, take, drop, replicate, length-map, update, All, All-has, All-mono, has,
  update_elim,
}

module _ {ℓ} {A : Type ℓ} where
  -- `m_queue.emplace_back`
  unfoldable pub push : A → List A → List A
  push newValue queue = queue ++ newValue ∷ []

  -- `none`: the queue is empty, so the call waits for the condition variable.
  unfoldable pub wait_and_pop : List A → Option (A × List A)
  wait_and_pop [] = none
  wait_and_pop (value ∷ queue) = some (value, queue)

  -- The result, the reference argument `val` after the call, and the queue.
  unfoldable pub try_pop : A → List A → Bool × A × List A
  try_pop val [] = (false, val, [])
  try_pop val (front ∷ queue) = (true, front, queue)

  -- `wait_and_pop` and `try_pop` split off the oldest item, or find no item at all and change nothing.
  pub wait_and_pop-some :
      (queue : List A) {x : A} {rest : List A}
      → wait_and_pop queue ≡ some (x, rest)
      → queue ≡ x ∷ rest
  unfolding wait_and_pop
  wait_and_pop-some [] e = cc
  wait_and_pop-some (y ∷ queue) e = cc

  pub wait_and_pop-none : (queue : List A) → wait_and_pop queue ≡ none → queue ≡ []
  unfolding wait_and_pop
  wait_and_pop-none [] e = refl
  wait_and_pop-none (y ∷ queue) e = cc

  pub try_pop-true :
      (val : A) (queue : List A) {x : A} {rest : List A}
      → try_pop val queue ≡ (true, x, rest)
      → queue ≡ x ∷ rest
  unfolding try_pop
  try_pop-true val [] e = cc
  try_pop-true val (y ∷ queue) e = ground arith

  pub try_pop-false :
      (val : A) (queue : List A) {x : A} {rest : List A}
      → try_pop val queue ≡ (false, x, rest)
      → (queue ≡ []) × (rest ≡ []) × (x ≡ val)
  unfolding try_pop
  try_pop-false val [] e = ground arith
  try_pop-false val (y ∷ queue) e = cc
