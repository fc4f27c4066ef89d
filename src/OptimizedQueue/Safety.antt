-- ===== src/OptimizedQueue/Safety.antt =====
-- What users of the queue can rely on, in every state that its threads can reach.
use concurrencycourse.Prelude.{
  ℕ, ◌≡◌, refl, ◌≢◌, Bool, true, false, none, some, [], ◌∷◌, ◌++◌, arith, update,
}
use concurrencycourse.OptimizedQueue.Memory.{Ptr, Memory, ok, load, destroy}
use concurrencycourse.OptimizedQueue.Methods.{at_tail, front, pop_head, release, push}
use concurrencycourse.OptimizedQueue.Chain.{Cells, Holds, items, tail-dummy}
use concurrencycourse.OptimizedQueue.Push.{push-Pushed}
use concurrencycourse.OptimizedQueue.Pop.{
  at_tail-empty, at_tail-cons, pop_head-cons, front-cons, unlinked,
}
use concurrencycourse.OptimizedQueue.Threads.{
  Pc, System, Reach, pushing, testing, taking, releasing,
}
use concurrencycourse.OptimizedQueue.Invariant.{Flight, Inv}
use concurrencycourse.OptimizedQueue.Reached.{Reach-Inv}

module _ {A : Type 0} where
  -- The code that a thread at this place is about to run returns.
  abbrev pub Returns : Ptr → System A → Pc A → Type 0
  Returns fresh s (testing _) = (empty : Bool) × (at_tail s.memory ≡ ok empty s.memory)
  Returns fresh s taking =
      (x : A) × (p : Ptr) × (m : Memory A) × (front s.memory ≡ ok x s.memory)
      × (pop_head s.memory ≡ ok p m)
  Returns fresh s (releasing p x) = (m : Memory A) × (release p s.memory ≡ ok (some x) m)
  Returns fresh s (pushing v) = (m : Memory A) × (push fresh v s.memory ≡ ok tt m)
  Returns fresh s _ = Unit

  at_tail-ok :
      {m : Memory A} {cells : Cells A} → Holds m cells → (empty : Bool) × (at_tail m ≡ ok empty m)
  at_tail-ok {cells = []} is = (true, at_tail-empty is)
  at_tail-ok {cells = (p, x) ∷ cells} is = (false, at_tail-cons is)

  pop_head-ok :
      {m : Memory A} {cells : Cells A}
      → Holds m cells
      → cells ≢ []
      → (x : A) × (p : Ptr) × (m' : Memory A) × (front m ≡ ok x m) × (pop_head m ≡ ok p m')
  pop_head-ok {cells = []} is full = absurd (full refl)
  pop_head-ok {cells = (p, x) ∷ cells} is full =
      (x, p, unlinked is, front-cons is, pop_head-cons is)

  release-ok :
      {m : Memory A} {cells : Cells A} {p : Ptr} {x : A}
      → Flight m cells p x
      → (m' : Memory A) × (release p m ≡ ok (some x) m')
  unfolding release load destroy
  release-ok {m} {p} f = (record m { heap = update m.heap p none }, ground (arith, f.node))

  Inv-Returns :
      {s : System A} {cells : Cells A} {fresh : Ptr} (i : ℕ) (c : Pc A)
      → Inv s cells
      → s.memory.heap fresh ≡ none
      → s.pc i ≡ c
      → Returns fresh s c
  Inv-Returns i (testing _) inv free e = at_tail-ok inv.holds
  Inv-Returns i taking inv free e = pop_head-ok inv.holds (inv.not_empty i e)
  Inv-Returns i (releasing p x) inv free e = release-ok (inv.flight i p x e)
  Inv-Returns {s} {cells} {fresh} i (pushing v) inv free e =
      let at_dummy = tail-dummy s.memory.heap cells s.memory.tail inv.holds.chain in
      let (m, ran, did) = push-Pushed fresh v s.memory at_dummy free in (m, ran)
  Inv-Returns i _ inv free e = tt

  -- In every reachable state, in any interleaving of pushes and pops, the list is a chain of distinct
  -- nodes with a dummy at its end, and the items pushed so far are those popped, in the order of the
  -- pops, and then those in the list: none is lost, doubled or overtaken.
  pub items_in_order :
      {n : ℕ} {start_at : Ptr} {s : System A}
      → Reach n start_at s
      → (cells : Cells A) × Holds s.memory cells × (s.pushed ≡ s.popped ++ items cells)
  items_in_order r = let (cells, inv) = Reach-Inv r in (cells, inv.holds, inv.fifo)

  -- In every reachable state, whatever a thread is about to do on the nodes returns without a fault:
  -- the comparison of head and tail, reading and unlinking the first node once it was found, freeing
  -- a node that was unlinked, which still holds the item popped with it, and a push with any unused
  -- address from `new`.
  pub no_fault :
      {n : ℕ} {start_at : Ptr} {s : System A} (fresh : Ptr) (i : ℕ)
      → Reach n start_at s
      → s.memory.heap fresh ≡ none
      → Returns fresh s (s.pc i)
  no_fault {s} fresh i r free = Inv-Returns i (s.pc i) (Reach-Inv r).1 free refl
