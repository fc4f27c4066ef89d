-- ===== src/OptimizedQueue/Methods.antt =====
-- The methods of src/OptimizedThreadSafeQueue.h, each the code between its locks; the threads are in
-- the module `Threads`.
use concurrencycourse.Prelude.{Bool, false, Option, none, some, ◌==◌, if◌then◌else◌, update}
use concurrencycourse.OptimizedQueue.Memory.{
  Ptr, Memory, ok, waits, Cmd, ◌>>=◌, ◌>>◌, pure, the, get_head, set_head, write, load, get_tail,
  destroy,
}

-- `head.get() == get_tail()`
abbrev pub is_tail : Option Ptr → Ptr → Bool
is_tail none tail = false
is_tail (some p) tail = p == tail

module _ {A : Type 0} where
  unfoldable pub pop_head : Cmd A Ptr
  pop_head = do
    old_head ← the (← get_head)
    n ← load old_head
    set_head n.next
    write old_head (some (record n { next = none }))
    pure old_head

  unfoldable pub at_tail : Cmd A Bool
  at_tail = do p ← get_head; tail ← get_tail; pure (is_tail p tail)

  -- `*head->data`
  unfoldable pub front : Cmd A A
  front = do n ← load (← the (← get_head)); the n.item

  unfoldable pub try_pop_head : Cmd A (Option Ptr)
  try_pop_head = do empty ← at_tail; if empty then pure none else do p ← pop_head; pure (some p)

  -- `try_pop_head(T& value)`: also gives `value` after the call.
  unfoldable pub try_pop_head_value : A → Cmd A (Option Ptr × A)
  try_pop_head_value value = do
    empty ← at_tail
    if empty then pure (none, value) else do x ← front; p ← pop_head; pure (some p, x)

  -- `wait_for_data`, by a thread that finds the queue empty or not.
  unfoldable pub wait_for_data : Cmd A (Unit {0})
  wait_for_data = do empty ← at_tail; if empty then (λ _. waits) else pure tt

  unfoldable pub wait_pop_head : Cmd A Ptr
  wait_pop_head = wait_for_data >> pop_head

  unfoldable pub wait_pop_head_value : Cmd A (Ptr × A)
  wait_pop_head_value = do wait_for_data; x ← front; p ← pop_head; pure (p, x)

  -- `optimized_thread_safe_queue()`, where `new` returns `fresh`.
  unfoldable pub construct : Ptr → Memory A
  construct fresh = record {
    heap = update (λ _. none) fresh (some (record { item = none; next = none }));
    head = some fresh;
    tail = fresh;
  }

  -- The rest of the methods let the `unique_ptr` of the old head go at their end. It has no next
  -- node, so the stack need be no deeper than for one node.
  unfoldable pub release : Ptr → Cmd A (Option A)
  release p = do n ← load p; destroy 1 (some p); pure n.item

  -- `std::optional<T> try_pop()`
  unfoldable pub try_pop : Cmd A (Option A)
  try_pop = do old_head ← try_pop_head; elim old_head [ none ↦ pure none | some p ↦ release p ]

  -- `std::optional<T> wait_and_pop()`
  unfoldable pub wait_and_pop : Cmd A (Option A)
  wait_and_pop = do p ← wait_pop_head; release p

  -- `push`, where `new node` returns `fresh`.
  unfoldable pub push : Ptr → A → Cmd A (Unit {0})
  push fresh new_value = do
    write fresh (some (record { item = none; next = none }))
    tail ← get_tail
    n ← load tail
    write tail (some (record n { item = some new_value }))
    n' ← load tail
    write tail (some (record n' { next = some fresh }))
    λ m. ok tt (record m { tail = fresh })
