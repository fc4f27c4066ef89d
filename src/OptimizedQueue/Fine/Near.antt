-- ===== src/OptimizedQueue/Fine/Near.antt =====
-- The memory between two writes of a `push`, beside that of `Threads`, in which it has not begun.
use concurrencycourse.Prelude.{
  ℕ, ◌≡◌, refl, sym, ap, subst, ◌∙◌, ◌≢◌, Bool, true, false, Option, none, some, arith, update, has,
}
use concurrencycourse.OptimizedQueue.Memory.{Ptr, Node, Memory}
use concurrencycourse.OptimizedQueue.Push.{dummy}
use concurrencycourse.OptimizedQueue.Threads.{Pc}
use concurrencycourse.OptimizedQueue.Fine.{Place, stands, made, entered, filled, linked, merge}

module _ {A : Type 0} where
  -- The node that a thread in `push` has made and not yet put behind the tail.
  abbrev pub own_node : Place A → Option Ptr
  own_node (stands _) = none
  own_node (made v p) = some p
  own_node (entered v p) = some p
  own_node (filled v p) = some p
  own_node (linked v p) = some p

  abbrev pub has_tail : Place A → Bool
  has_tail (entered _ _) = true
  has_tail (filled _ _) = true
  has_tail (linked _ _) = true
  has_tail _ = false

  -- The node at the tail, as the thread there has left it.
  abbrev pub tail_node : Place A → Node A
  tail_node (filled v p) = record { item = some v; next = none }
  tail_node (linked v p) = record { item = some v; next = some p }
  tail_node _ = dummy

  pub record Near (m : Memory A) (tail_owner : Option ℕ) (place : ℕ → Place A) (mc : Memory A)
      : Type 0 where
    pub head : m.head ≡ mc.head
    pub tail : m.tail ≡ mc.tail
    pub same :
        (a : Ptr) → a ≢ mc.tail → ((i : ℕ) → own_node (place i) ≢ some a) → m.heap a ≡ mc.heap a
    pub hidden :
        (i : ℕ) (a : Ptr)
        → own_node (place i) ≡ some a
        → (mc.heap a ≡ none) × (m.heap a ≡ some dummy)
    pub apart :
        (i j : ℕ) (a : Ptr) → own_node (place i) ≡ some a → own_node (place j) ≡ some a → i ≡ j
    pub idle_tail : tail_owner ≡ none → m.heap mc.tail ≡ some dummy
    pub busy_tail :
        (i : ℕ)
        → tail_owner ≡ some i
        → (has_tail (place i) ≡ true) × (m.heap mc.tail ≡ some (tail_node (place i)))
    pub owner : (i : ℕ) → has_tail (place i) ≡ true → tail_owner ≡ some i

  merge-own_node : (p : Place A) (c : Pc A) → own_node (merge p c) ≡ own_node p
  merge-own_node p c = ground arith

  merge-has_tail : (p : Place A) (c : Pc A) → has_tail (merge p c) ≡ has_tail p
  merge-has_tail p c = ground arith

  merge-tail_node : (p : Place A) (c : Pc A) → tail_node (merge p c) ≡ tail_node p
  merge-tail_node p c = ground arith

  -- Where no thread moves within a `push`.
  pub Near-merge :
      {m mc : Memory A} {tail_owner : Option ℕ} {place : ℕ → Place A} (pc : ℕ → Pc A)
      → Near m tail_owner place mc
      → Near m tail_owner (λ i. merge (place i) (pc i)) mc
  Near-merge {place} pc near = record {
    head = near.head;
    tail = near.tail;
    same =
        λ a ne none_has. near.same a ne (λ i e. none_has i (merge-own_node (place i) (pc i) ∙ e));
    hidden = λ i a e. near.hidden i a (sym (merge-own_node (place i) (pc i)) ∙ e);
    apart = λ i j a e e'.
        near.apart i j a (sym (merge-own_node (place i) (pc i)) ∙ e)
          (sym (merge-own_node (place j) (pc j)) ∙ e');
    idle_tail = near.idle_tail;
    busy_tail = λ i e.
        let (has, at) = near.busy_tail i e in
        (
          merge-has_tail (place i) (pc i) ∙ has,
          at ∙ ap some (sym (merge-tail_node (place i) (pc i))),
        );
    owner = λ i e. near.owner i (sym (merge-has_tail (place i) (pc i)) ∙ e);
  }

  -- A node of the list, or one that was taken off it, is the same in both, and a write there keeps them
  -- near.
  module _ {m mc : Memory A} {tail_owner : Option ℕ} {place : ℕ → Place A}
      (near : Near m tail_owner place mc) where
    pub not_own :
        {p : Ptr} {n : Node A} → mc.heap p ≡ some n → (i : ℕ) → own_node (place i) ≢ some p
    not_own {p} at i e = cc ((near.hidden i p e).0, at)

    pub same_node : {p : Ptr} {n : Node A} → mc.heap p ≡ some n → p ≢ mc.tail → m.heap p ≡ some n
    same_node {p} at ne = near.same p ne (not_own at) ∙ at

    pub Near-write :
        {p : Ptr} {n : Node A} (o : Option (Node A)) (head : Option Ptr)
        → mc.heap p ≡ some n
        → p ≢ mc.tail
        → Near
            (record m { heap = update m.heap p o; head = head })
            tail_owner
            place
            (record mc { heap = update mc.heap p o; head = head })
    Near-write {p} o head at ne = record {
      head = refl;
      tail = near.tail;
      same = λ a ne' none_has. ground (arith, near.same a ne' none_has);
      hidden = λ i a e. ground (arith, near.hidden i a e, not_own at i, e);
      apart = near.apart;
      idle_tail = λ e. ground (arith, ne, near.idle_tail e);
      busy_tail = λ i e. let (has, here) = near.busy_tail i e in (has, ground (arith, ne, here));
      owner = near.owner;
    }

    -- So does freeing it.
    pub freed-Near :
        (p : Ptr) {n : Node A}
        → mc.heap p ≡ some n
        → p ≢ mc.tail
        → Near
            (record m { heap = update m.heap p none })
            tail_owner
            place
            (record mc { heap = update mc.heap p none })
    freed-Near p at ne =
        subst
          (λ h.
            Near (record m { heap = update m.heap p none; head = h }) tail_owner place
              (record mc { heap = update mc.heap p none }))
          (sym near.head) (Near-write none mc.head at ne)

    -- The node at the tail is always in memory.
    pub some_tail : (o : Option ℕ) → tail_owner ≡ o → (n : Node A) × (m.heap mc.tail ≡ some n)
    some_tail none e = (dummy, near.idle_tail e)
    some_tail (some i) e = (tail_node (place i), (near.busy_tail i e).1)

    -- The address of a new node is unused in both memories.
    pub fresh-none :
        {fresh : Ptr}
        → m.heap fresh ≡ none
        → (mc.heap fresh ≡ none) × ((j : ℕ) → own_node (place j) ≢ some fresh) × (fresh ≢ mc.tail)
    fresh-none {fresh} free =
        let ne : fresh ≢ mc.tail = λ e. cc ((some_tail tail_owner refl).1, ap m.heap e, free) in
        let none_has : (j : ℕ) → own_node (place j) ≢ some fresh =
          λ j e. cc ((near.hidden j fresh e).1, free) in
        (sym (near.same fresh ne none_has) ∙ free, none_has, ne)
