-- ===== src/OptimizedQueue/Pop.antt =====
-- `try_pop` and `wait_and_pop`, and the forms of `try_pop_head` and `wait_pop_head` with a reference.
use concurrencycourse.Prelude.{◌≡◌, refl, true, false, none, some, [], ◌∷◌, arith, update}
use concurrencycourse.OptimizedQueue.Memory.{Ptr, Memory, ok, waits, load, destroy}
use concurrencycourse.OptimizedQueue.Methods.{
  at_tail, pop_head, front, try_pop_head, try_pop_head_value, wait_for_data, wait_pop_head, release,
  wait_pop_head_value, try_pop, wait_and_pop,
}
use concurrencycourse.OptimizedQueue.Chain.{Cells, Holds, IsQueue, Chain-frame, first, has-tail}

module _ {A : Type 0} where
  -- An empty queue has its head at its tail, and no method changes it.
  module _ {m : Memory A} (is : Holds m []) where
    pub at_tail-empty : at_tail m ≡ ok true m
    unfolding at_tail
    at_tail-empty = ground (arith, is.head)

  -- The first node is unlinked and freed, and nothing else changes.
  abbrev pub popped : Ptr → Ptr → A → Memory A → Memory A
  popped p next x m = record m {
    heap = update (update m.heap p (some (record { item = some x; next = none }))) p none;
    head = some next;
  }

  module _ {m : Memory A} {p : Ptr} {x : A} {cells : Cells A} (is : Holds m ((p, x) ∷ cells)) where
    pub at_tail-cons : at_tail m ≡ ok false m
    unfolding at_tail
    at_tail-cons = ground (arith, is.head, is.distinct.0, has-tail cells m.tail)

    abbrev pub unlinked : Memory A
    unlinked = record m {
      heap = update m.heap p (some (record { item = some x; next = none }));
      head = some (first cells m.tail);
    }

    pub pop_head-cons : pop_head m ≡ ok p unlinked
    unfolding pop_head load
    pop_head-cons = ground (arith, is.head, is.chain.0)

    pub front-cons : front m ≡ ok x m
    unfolding front load
    front-cons = ground (arith, is.head, is.chain.0)

    release-cons : release p unlinked ≡ ok (some x) (popped p (first cells m.tail) x m)
    unfolding release load destroy
    release-cons = ground arith

    pub unlinked-Holds : Holds unlinked cells
    unlinked-Holds = record {
      chain = Chain-frame m.heap _ cells m.tail (λ a i. ground (arith, is.distinct.0)) is.chain.1;
      head = refl;
      distinct = is.distinct.1;
    }

    popped-Holds : Holds (popped p (first cells m.tail) x m) cells
    popped-Holds = record {
      chain = Chain-frame m.heap _ cells m.tail (λ a i. ground (arith, is.distinct.0)) is.chain.1;
      head = refl;
      distinct = is.distinct.1;
    }

  module _ {m : Memory A} (is : IsQueue m []) where
    -- On an empty queue `try_pop` returns no item, `try_pop_head(value)` returns no node and leaves
    -- `value`, and `wait_and_pop` and `wait_pop_head(value)` wait; the queue is unchanged.
    pop-empty :
        (try_pop m ≡ ok none m)
        × ((value : A) → try_pop_head_value value m ≡ ok (none, value) m)
        × (wait_and_pop m ≡ waits)
        × (wait_pop_head_value m ≡ waits)
    unfolding try_pop wait_and_pop try_pop_head try_pop_head_value wait_pop_head wait_pop_head_value
        wait_for_data
    pop-empty = (
      rw (at_tail-empty is.holds),
      λ value. rw (at_tail-empty is.holds),
      rw (at_tail-empty is.holds),
      rw (at_tail-empty is.holds),
    )

  module _ {m : Memory A} {p : Ptr} {x : A} {cells : Cells A}
      (is : IsQueue m ((p, x) ∷ cells)) where
    -- On a queue that holds items, `try_pop` and `wait_and_pop` return the oldest one, leave the
    -- others, and free its node; `try_pop_head(value)` and `wait_pop_head(value)` set `value` to the
    -- oldest one and return its node, no longer in the list and not yet freed, with the others left.
    pub pop-cons :
        (m' : Memory A) × (try_pop m ≡ ok (some x) m')
        × (wait_and_pop m ≡ ok (some x) m')
        × IsQueue m' cells
        × (m'.heap p ≡ none)
        × (m'' : Memory A) × ((value : A) → try_pop_head_value value m ≡ ok (some p, x) m'')
        × (wait_pop_head_value m ≡ ok (p, x) m'')
        × Holds m'' cells
        × (m''.heap p ≡ some (record { item = some x; next = none }))
    unfolding try_pop wait_and_pop try_pop_head try_pop_head_value wait_pop_head wait_pop_head_value
        wait_for_data
    pop-cons = (
      popped p (first cells m.tail) x m,
      rw (at_tail-cons is.holds, pop_head-cons is.holds) (release-cons is.holds),
      rw (at_tail-cons is.holds, pop_head-cons is.holds) (release-cons is.holds),
      record { holds = popped-Holds is.holds; no_leak = λ a out. ground (arith, is.no_leak a) },
      ground arith,
      unlinked is.holds,
      λ value. rw (at_tail-cons is.holds, front-cons is.holds, pop_head-cons is.holds),
      rw (at_tail-cons is.holds, front-cons is.holds, pop_head-cons is.holds),
      unlinked-Holds is.holds,
      ground arith,
    )
