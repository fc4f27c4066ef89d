-- ===== src/OptimizedQueue/Invariant.antt =====
-- What holds in every state of the threads of the queue.
use concurrencycourse.Prelude.{
  ℕ, ◌≡◌, refl, sym, ap, subst, ◌∙◌, ◌≢◌, Bool, true, false, Option, none, some, List, [], ◌∷◌,
  ◌++◌, append_assoc, arith, update, has,
}
use concurrencycourse.OptimizedQueue.Memory.{Ptr, Memory, ok}
use concurrencycourse.OptimizedQueue.Methods.{at_tail, front, pop_head}
use concurrencycourse.OptimizedQueue.Chain.{
  Cells, Holds, addresses, items, items-append, tail-dummy, has-append,
}
use concurrencycourse.OptimizedQueue.Push.{Pushed, Pushed-Holds}
use concurrencycourse.OptimizedQueue.Pop.{
  at_tail-empty, at_tail-cons, pop_head-cons, front-cons, unlinked, unlinked-Holds,
}
use concurrencycourse.OptimizedQueue.Threads.{
  Pc, System, pushing, notifying, testing, blocking, taking, releasing,
}

append-ne-nil {ℓ} : {A : Type ℓ} (xs : List A) (x : A) → xs ++ x ∷ [] ≢ []
append-ne-nil [] x e = cc
append-ne-nil (_ ∷ xs) x e = cc

module _ {A : Type 0} where
  abbrev pub has_head : Pc A → Bool
  has_head (testing _) = true
  has_head blocking = true
  has_head taking = true
  has_head _ = false

  -- The node that a thread has taken off the list and not yet freed.
  pub record Flight (m : Memory A) (cells : Cells A) (p : Ptr) (x : A) : Type 0 where
    pub node : m.heap p ≡ some (record { item = some x; next = none })
    pub outside_list : has p (addresses cells m.tail) ≡ false

  pub record Inv (s : System A) (cells : Cells A) : Type 0 where
    pub holds : Holds s.memory cells
    pub fifo : s.pushed ≡ s.popped ++ items cells
    pub holder : (i : ℕ) → has_head (s.pc i) ≡ true → s.head_owner ≡ some i
    pub not_empty : (i : ℕ) → s.pc i ≡ taking → cells ≢ []
    pub flight : (i : ℕ) (p : Ptr) (x : A) → s.pc i ≡ releasing p x → Flight s.memory cells p x
    pub apart :
        (i j : ℕ) (p : Ptr) (x y : A) → s.pc i ≡ releasing p x → s.pc j ≡ releasing p y → i ≡ j

  -- A step of the program counters alone, to places without a node, keeps the invariant if the mutex
  -- allows it.
  pub Inv-pc :
      {s : System A} {cells : Cells A}
      → Inv s cells
      → (pc : ℕ → Pc A) (owner : Option ℕ) → ((i : ℕ) → has_head (pc i) ≡ true → owner ≡ some i)
      → ((i : ℕ) → pc i ≡ taking → cells ≢ [])
      → ((i : ℕ) (p : Ptr) (x : A) → pc i ≡ releasing p x → s.pc i ≡ releasing p x)
      → Inv (record s { head_owner = owner; pc = pc }) cells
  Inv-pc inv pc owner keeps full old = record {
    holds = inv.holds;
    fifo = inv.fifo;
    holder = keeps;
    not_empty = full;
    flight = λ i p x e. inv.flight i p x (old i p x e);
    apart = λ i j p x y e e'. inv.apart i j p x y (old i p x e) (old j p y e');
  }

  -- The list after each kind of step that changes it.
  pub Flight-same :
      {m : Memory A} {cells cells' : Cells A} {x : A} (m' : Memory A) (p : Ptr)
      → m'.heap p ≡ m.heap p
      → has p (addresses cells' m'.tail) ≡ false
      → Flight m cells p x
      → Flight m' cells' p x
  Flight-same m' p same out f = record { node = same ∙ f.node; outside_list = out }

  pub at_tail-same :
      {m m' : Memory A} {cells : Cells A} {empty : Bool}
      → Holds m cells
      → at_tail m ≡ ok empty m'
      → (m' ≡ m) × (empty ≡ true → cells ≡ []) × (empty ≡ false → cells ≢ [])
  at_tail-same {m} {cells = []} is e =
      let q = sym (at_tail-empty is) ∙ e in (cc q, λ h. refl, λ h k. cc q)
  at_tail-same {m} {cells = (p, x) ∷ cells} is e =
      let q = sym (at_tail-cons is) ∙ e in (cc q, λ h. cc q, λ h k. cc k)

  pushes-Flight :
      {m m' : Memory A} {cells : Cells A} {p : Ptr} {x : A} (fresh : Ptr) (v : A)
      → Holds m cells
      → m.heap fresh ≡ none
      → Pushed fresh v m m'
      → Flight m cells p x
      → Flight m' (cells ++ (m.tail, v) ∷ []) p x
  pushes-Flight {m} {m'} {cells} {p} fresh v is free did f =
      let at_dummy = tail-dummy m.heap cells m.tail is.chain in
      Flight-same m' p (did.same p (λ q. cc (q, at_dummy, f.node)) (λ q. cc (q, free, f.node)))
        (rw did.tail
          (ground (arith, has-append p cells m.tail v fresh, f.outside_list, free, f.node)))
        f

  pub pushes-Inv :
      {s : System A} {cells : Cells A} {m : Memory A} (i : ℕ) (v : A) (fresh : Ptr)
      → Inv s cells
      → s.pc i ≡ pushing v
      → s.memory.heap fresh ≡ none
      → Pushed fresh v s.memory m
      → Inv
          (record s { memory = m; pushed = s.pushed ++ v ∷ []; pc = update s.pc i notifying })
          (cells ++ (s.memory.tail, v) ∷ [])
  pushes-Inv {s} {cells} {m} i v fresh inv e free did = record {
    holds = Pushed-Holds fresh v inv.holds free did;
    fifo =
        rw (items-append cells s.memory.tail v, inv.fifo)
          (append_assoc s.popped (items cells) (v ∷ []));
    holder = λ j h. ground (arith, e, inv.holder j);
    not_empty = λ j h q. append-ne-nil cells (s.memory.tail, v) q;
    flight = λ j p x h.
        pushes-Flight fresh v inv.holds free did (inv.flight j p x (ground (arith, e, h)));
    apart = λ j k p x y h h'. ground (arith, inv.apart j k p x y);
  }

  -- What `front` and `pop_head` do to a list that is not empty.
  pub record Taken (m m' : Memory A) (p : Ptr) (x : A) (cells rest : Cells A) : Type 0 where
    pub split : cells ≡ (p, x) ∷ rest
    pub after : Holds m' rest
    pub tail : m'.tail ≡ m.tail
    pub at_node : m'.heap p ≡ some (record { item = some x; next = none })
    pub node_outside : has p (addresses rest m'.tail) ≡ false
    pub elsewhere : (a : Ptr) → a ≢ p → m'.heap a ≡ m.heap a

  pub pop_head-Taken :
      {m m₁ m' : Memory A} {p : Ptr} {x : A} {cells : Cells A}
      → Holds m cells
      → cells ≢ []
      → front m ≡ ok x m₁
      → pop_head m₁ ≡ ok p m'
      → (rest : Cells A) × Taken m m' p x cells rest
  pop_head-Taken {cells = []} is full e e' = absurd (full refl)
  pop_head-Taken {m} {m₁} {m'} {p} {x} {cells = (q, y) ∷ rest} is full e e' =
      let reads : ok y m ≡ ok x m₁ = sym (front-cons is) ∙ e in
      let same : m₁ ≡ m = cc reads in
      let unlinks : ok q (unlinked is) ≡ ok p m' =
        sym (pop_head-cons is) ∙ ap pop_head (sym same) ∙ e' in
      let at_q : q ≡ p = cc unlinks in
      let is_m : unlinked is ≡ m' = cc unlinks in
      let is_x : y ≡ x = cc reads in
      let here : Taken m (unlinked is) q y ((q, y) ∷ rest) rest = record {
        split = refl;
        after = unlinked-Holds is;
        tail = refl;
        at_node = ground arith;
        node_outside = is.distinct.0;
        elsewhere = λ a ne. ground arith;
      } in
      let at_x = subst (λ z. Taken m (unlinked is) q z ((q, y) ∷ rest) rest) is_x here in
      let at_p = subst (λ r. Taken m (unlinked is) r x ((q, y) ∷ rest) rest) at_q at_x in
      (rest, subst (λ r. Taken m r p x ((q, y) ∷ rest) rest) is_m at_p)
