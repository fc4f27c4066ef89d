-- ===== src/OptimizedQueue/Steps.antt =====
-- Taking a node off the list, and freeing it, keep the invariant.
use concurrencycourse.Prelude.{
  ℕ, ◌≡◌, sym, ap, subst, ◌∙◌, ◌≢◌, false, ◌||◌, Option, none, [], ◌∷◌, ◌++◌, append_assoc, arith,
  ◌==◌, update, has, update_elim,
}
use concurrencycourse.OptimizedQueue.Memory.{Ptr, Memory, ok, load, destroy}
use concurrencycourse.OptimizedQueue.Methods.{release}
use concurrencycourse.OptimizedQueue.Chain.{Cells, Chain-frame, addresses, items}
use concurrencycourse.OptimizedQueue.Threads.{System, outside, taking, releasing}
use concurrencycourse.OptimizedQueue.Invariant.{Flight, Inv, Flight-same, Taken}

module _ {A : Type 0} where
  -- The address of a node that another thread has taken off the list.
  Flight-rest :
      {m m' : Memory A} {cells rest : Cells A} {p q : Ptr} {x y : A}
      → Taken m m' p x cells rest
      → Flight m cells q y
      → (q ≢ p) × Flight m' rest q y
  Flight-rest {m} {m'} {cells} {rest} {p} {q} took f =
      let out : ((p == q) || has q (addresses rest m.tail)) ≡ false =
        sym (ap (λ c. has q (addresses c m.tail)) took.split) ∙ f.outside_list in
      let ne : q ≢ p = λ same. ground (arith, out) in
      (ne, Flight-same m' q (took.elsewhere q ne) (rw took.tail (ground (arith, out))) f)

  pub takes-Inv :
      {s : System A} {cells rest : Cells A} {m' : Memory A} {p : Ptr} {x : A} (i : ℕ)
      → Inv s cells
      → s.pc i ≡ taking
      → Taken s.memory m' p x cells rest
      → Inv
          (record s {
            memory = m';
            head_owner = none;
            popped = s.popped ++ x ∷ [];
            pc = update s.pc i (releasing p x);
          })
          rest
  takes-Inv {s} {cells} {rest} {m'} {p} {x} i inv e took =
      let mine : Flight m' rest p x = record {
        node = took.at_node;
        outside_list = took.node_outside;
      } in
      let others : (k : ℕ) (q : Ptr) (y : A) → s.pc k ≡ releasing q y → q ≢ p =
        λ k q y h. (Flight-rest took (inv.flight k q y h)).0 in
      record {
        holds = took.after;
        fifo =
            inv.fifo
            ∙ ap (λ c. s.popped ++ items c) took.split
            ∙ sym (append_assoc s.popped (x ∷ []) (items rest));
        holder = λ j h. ground (arith, e, inv.holder j, inv.holder i);
        not_empty = λ j h q. ground (arith, e, inv.holder j, inv.holder i);
        flight = λ j q y.
            update_elim (λ _ c. c ≡ releasing q y → Flight m' rest q y) s.pc i (releasing p x)
              (λ h. subst (λ r. Flight m' rest r y) (cc h) (subst (Flight m' rest p) (cc h) mine))
              (λ k _ h. (Flight-rest took (inv.flight k q y h)).1) j;
        apart = λ j k q y z h h'. ground (arith, others j q y, others k q z, inv.apart j k q y z);
      }

  pub release-Flight :
      {m m' : Memory A} {cells : Cells A} {p : Ptr} {x : A} {item : Option A}
      → Flight m cells p x
      → release p m ≡ ok item m'
      → m' ≡ record m { heap = update m.heap p none }
  unfolding release load destroy
  release-Flight f e = ground (arith, f.node, e)

  pub releases-Inv :
      {s : System A} {cells : Cells A} {p : Ptr} {x : A} (i : ℕ)
      → Inv s cells
      → s.pc i ≡ releasing p x
      → Inv
          (record s {
            memory = record (s.memory) { heap = update s.memory.heap p none };
            pc = update s.pc i outside;
          })
          cells
  releases-Inv {s} {cells} {p} {x} i inv e =
      let mine = inv.flight i p x e in
      record {
        holds = record {
          chain =
              Chain-frame s.memory.heap _ cells s.memory.tail
                (λ a h. ground (arith, mine.outside_list)) inv.holds.chain;
          head = inv.holds.head;
          distinct = inv.holds.distinct;
        };
        fifo = inv.fifo;
        holder = λ j h. ground (arith, inv.holder j);
        not_empty = λ j h. inv.not_empty j (ground (arith, h));
        flight = λ j q y h.
            let f = inv.flight j q y (ground (arith, h)) in
            Flight-same _ q (ground (arith, inv.apart i j p x y)) f.outside_list f;
        apart = λ j k q y z h h'. ground (arith, inv.apart j k q y z);
      }
