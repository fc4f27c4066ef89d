-- ===== src/OptimizedQueue/Destructor.antt =====
-- The destructor of src/OptimizedThreadSafeQueue.h.
use concurrencycourse.Prelude.{ℕ, zero, suc, Option, none, some, List, [], ◌∷◌}
use concurrencycourse.OptimizedQueue.Memory.{
  Ptr, fault, Cmd, ◌>>=◌, ◌>>◌, pure, get_head, write, load, destroy,
}

module _ {A : Type 0} where
  -- The loop of the destructor that lists the nodes from the head on; `fuel` bounds its rounds.
  unfoldable pub list_nodes : ℕ → Option Ptr → Cmd A (List Ptr)
  list_nodes zero p = λ _. fault
  list_nodes (suc fuel) none = pure []
  list_nodes (suc fuel) (some p) = do n ← load p; rest ← list_nodes fuel n.next; pure (p ∷ rest)

  -- `(*it)->next.reset()`
  unfoldable pub reset_next : ℕ → Ptr → Cmd A (Unit {0})
  reset_next depth p = do
    n ← load p
    write p (some (record n { next = none }))
    destroy depth n.next

  -- The second loop of the destructor, from the last node to the first.
  unfoldable pub reset_all : ℕ → List Ptr → Cmd A (Unit {0})
  reset_all depth [] = pure tt
  reset_all depth (p ∷ ps) = do reset_all depth ps; reset_next depth p

  -- `~optimized_thread_safe_queue()`, and the destructor of the member `head` behind it. `depth`
  -- bounds the stack of each destruction of nodes.
  unfoldable pub destruct : ℕ → ℕ → Cmd A (Unit {0})
  destruct depth fuel = do
    p ← get_head
    nodes ← list_nodes fuel p
    reset_all depth nodes
    destroy depth p
