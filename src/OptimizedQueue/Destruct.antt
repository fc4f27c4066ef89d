-- ===== src/OptimizedQueue/Destruct.antt =====
-- The destructor frees every node, and never more than one node deep.
use concurrencycourse.Prelude.{
  ℕ, zero, suc, ◌+◌, ◌<◌, ◌≡◌, refl, sym, subst, ◌∙◌, ◌≢◌, inl, inr, true, false, Option, none,
  some, [], ◌∷◌, arith, ℕ_discrete, Bool-cases, length, update, has,
}
use concurrencycourse.OptimizedQueue.Memory.{Ptr, Node, Memory, ok, and_then, ◌>>◌, load, destroy}
use concurrencycourse.OptimizedQueue.Destructor.{list_nodes, reset_next, reset_all, destruct}
use concurrencycourse.OptimizedQueue.Chain.{Cells, Chain, IsQueue, Distinct, first, addresses}

module _ {A : Type 0} where
  -- The first loop lists the nodes from the head to the dummy.
  list_nodes-addresses :
      (fuel : ℕ) (m : Memory A) (cells : Cells A) (tail : Ptr)
      → Chain m.heap cells tail
      → length cells + 1 < fuel
      → list_nodes fuel (some (first cells tail)) m ≡ ok (addresses cells tail) m
  unfolding list_nodes load
  list_nodes-addresses zero m cells tail c enough = absurd (omega arith)
  list_nodes-addresses (suc zero) m cells tail c enough = absurd (omega arith)
  list_nodes-addresses (suc (suc fuel)) m [] tail c enough = rw c
  list_nodes-addresses (suc (suc fuel)) m ((p, x) ∷ cells) tail (a, c) enough =
      rw (a, list_nodes-addresses (suc fuel) m cells tail c (omega arith))

  -- The second loop has run over the nodes of `cells`: only the first of them is left, with no
  -- successor, and other addresses are as before.
  record Reset (cells : Cells A) (tail : Ptr) (h h' : Ptr → Option (Node A)) : Type 0 where
    last : Node A
    at_first : h' (first cells tail) ≡ some last
    alone : last.next ≡ none
    freed : (a : Ptr) → has a (addresses cells tail) ≡ true → a ≢ first cells tail → h' a ≡ none
    same : (a : Ptr) → has a (addresses cells tail) ≡ false → h' a ≡ h a

  abbrev at : (Ptr → Option (Node A)) → Memory A → Memory A
  at h m = record m { heap = h }

  destroy-alone :
      (depth : ℕ) (p : Ptr) (n : Node A) (m : Memory A)
      → m.heap p ≡ some n
      → n.next ≡ none
      → destroy (suc depth) (some p) m ≡ ok tt (at (update m.heap p none) m)
  unfolding destroy load
  destroy-alone depth p n m e alone = rw (e, alone)

  -- `reset` of a node whose successor has none.
  reset_next-alone :
      (p q : Ptr) (n l : Node A) (m : Memory A)
      → p ≢ q
      → m.heap p ≡ some n
      → n.next ≡ some q
      → m.heap q ≡ some l
      → l.next ≡ none
      → reset_next 1 p m
        ≡ ok tt (at (update (update m.heap p (some (record n { next = none }))) q none) m)
  unfolding reset_next load
  reset_next-alone p q n l m ne at_p next at_q alone =
      rw (at_p, next) (destroy-alone 0 q l _ (ground arith) alone)

  reset_next_last :
      (p : Ptr) (m : Memory A)
      → m.heap p ≡ some (record { item = none; next = none })
      → reset_next 1 p m
        ≡ ok tt (at (update m.heap p (some (record { item = none; next = none }))) m)
  unfolding reset_next load destroy
  reset_next_last p m e = rw e

  has-first : (cells : Cells A) (tail : Ptr) → has (first cells tail) (addresses cells tail) ≡ true
  has-first [] tail = ground arith
  has-first (_ ∷ cells) tail = ground arith

  module _ (p : Ptr) (x : A) (cells : Cells A) (tail : Ptr) (h h' : Ptr → Option (Node A))
      (apart : p ≢ first cells tail) (did : Reset cells tail h h') where
    -- The memory after the `reset` of `p`.
    abbrev after : Ptr → Option (Node A)
    after =
        update (update h' p (some (record { item = some x; next = none }))) (first cells tail) none

    after-first : (a : Ptr) → a ≢ p → a ≢ first cells tail → after a ≡ h' a
    after-first a ne ne' = ground arith

    after-freed : (a : Ptr) → has a (p ∷ addresses cells tail) ≡ true → a ≢ p → after a ≡ none
    after-freed a i ne = elim (ℕ_discrete a (first cells tail)) [
      | yes e ↦ rw e (ground arith)
      | no ne' ↦ after-first a ne ne' ∙ did.freed a (ground arith) ne'
    ]

    after-same : (a : Ptr) → has a (p ∷ addresses cells tail) ≡ false → after a ≡ h a
    after-same a o =
        after-first a (λ e. ground arith) (λ e. ground (arith, e, has-first cells tail))
        ∙ did.same a (ground arith)

    Reset-cons : Reset ((p, x) ∷ cells) tail h after
    Reset-cons = record {
      last = record { item = some x; next = none };
      at_first = ground arith;
      alone = refl;
      freed = after-freed;
      same = after-same;
    }

  reset_all-Reset :
      (m : Memory A) (cells : Cells A) (tail : Ptr)
      → Chain m.heap cells tail
      → Distinct (addresses cells tail)
      → (h : Ptr → Option (Node A)) × (reset_all 1 (addresses cells tail) m ≡ ok tt (at h m))
        × Reset cells tail m.heap h
  unfolding reset_all
  reset_all-Reset m [] tail c d = (
    update m.heap tail (some (record { item = none; next = none })),
    reset_next_last tail m c,
    record {
      last = record { item = none; next = none };
      at_first = ground arith;
      alone = refl;
      freed = λ a i ne. ground arith;
      same = λ a o. ground arith;
    },
  )
  reset_all-Reset m ((p, x) ∷ cells) tail (at_p, c) (new, d) =
      let (h, ran, did) = reset_all-Reset m cells tail c d in
      let here : h p ≡ some (record { item = some x; next = some (first cells tail) }) =
        did.same p new ∙ at_p in
      let apart : p ≢ first cells tail = λ e. ground (arith, e, has-first cells tail) in
      (
        update (update h p (some (record { item = some x; next = none }))) (first cells tail) none,
        rw ran (
            reset_next-alone p (first cells tail) _ did.last (at h m) apart here refl did.at_first
              did.alone),
        Reset-cons p x cells tail m.heap h apart did,
      )

  -- On a queue with any items the destructor returns and leaves no node in memory, and every
  -- destruction of a `unique_ptr` in it goes one node deep, however long the list is. The fuel bounds
  -- the rounds of the loop that lists the nodes.
  pub destruct-frees :
      (fuel : ℕ) (m : Memory A) {cells : Cells A}
      → IsQueue m cells
      → length cells + 1 < fuel
      → (m' : Memory A) × (destruct 1 fuel m ≡ ok tt m') × ((a : Ptr) → m'.heap a ≡ none)
  unfolding destruct
  destruct-frees fuel m {cells} is enough =
      let (h, ran, did) = reset_all-Reset m cells m.tail is.chain is.distinct in
      (
        at (update h (first cells m.tail) none) m,
        subst
            (λ p.
              and_then (list_nodes fuel p m) (λ nodes. reset_all 1 nodes >> destroy 1 p)
              ≡ ok tt (at (update h (first cells m.tail) none) m))
            (sym is.head)
            (rw (list_nodes-addresses fuel m cells m.tail is.chain enough, ran)
              (destroy-alone 0 (first cells m.tail) did.last (at h m) did.at_first did.alone)),
        λ a. elim (Bool-cases (has a (addresses cells m.tail))) [
          | inl inside ↦ ground (arith, did.freed a inside)
          | inr outside ↦ ground (arith, did.same a outside, is.no_leak a outside)
        ],
      )
