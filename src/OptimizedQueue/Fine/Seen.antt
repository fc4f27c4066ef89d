-- ===== src/OptimizedQueue/Fine/Seen.antt =====
-- The state of `Threads` beside one in which calls of `push` are under way, and the steps of the other
-- calls.
use concurrencycourse.Prelude.{
  ℕ, ◌<◌, ◌≡◌, refl, sym, ap, subst, ◌∙◌, fun_ext, ◌≢◌, Bool, Option, none, some, [], ◌∷◌, ◌++◌,
  arith, update,
}
use concurrencycourse.OptimizedQueue.Memory.{Ptr, Memory, ok}
use concurrencycourse.OptimizedQueue.Methods.{at_tail, front, pop_head, release}
use concurrencycourse.OptimizedQueue.Chain.{Cells, Holds, first, tail-dummy, has-tail}
use concurrencycourse.OptimizedQueue.Push.{dummy}
use concurrencycourse.OptimizedQueue.Threads.{
  Pc, System, Step, Reach, later, outside, testing, taking, releasing, compares, takes, releases,
  Take, owner_after_test, after_test,
}
use concurrencycourse.OptimizedQueue.Invariant.{Inv}
use concurrencycourse.OptimizedQueue.Reached.{Reach-Inv}
use concurrencycourse.OptimizedQueue.Fine.{Fine, pc_of, plain, with_plain, Allowed}
use concurrencycourse.OptimizedQueue.Fine.Near.{Near, Near-merge, Near-write, freed-Near, same_node}
use concurrencycourse.OptimizedQueue.Fine.Calls.{
  without, freed, take_lem, release_lem, at_tail_lem, keeps_push, pc_of-merge,
}

module _ {A : Type 0} where
  -- The state of `Threads` with this memory, in which no `push` under way has begun.
  abbrev pub seen : Fine A → Memory A → System A
  seen s mc = record (plain s) { memory = mc }

  pub record Seen (n : ℕ) (fresh : Ptr) (s : Fine A) : Type 0 where
    pub memory : Memory A
    pub reached : Reach n fresh (seen s memory)
    pub near : Near s.memory s.tail_owner s.place memory

module _ {A : Type 0} {n : ℕ} {fresh : Ptr} where
  -- A step of a call that is no `push`.
  pub settle :
      (s : Fine A) {t : System A} (mc : Memory A) (st : Step n (plain s) t)
      → Allowed s.tail_owner st
      → Reach n fresh (record t { memory = mc })
      → Near t.memory s.tail_owner s.place mc
      → Seen n fresh (with_plain s t)
  settle s {t} mc st may r near = record {
    memory = mc;
    reached =
        subst (λ (pc : ℕ → Pc A). Reach n fresh (record t { memory = mc; pc = pc }))
          (sym (fun_ext (λ j. pc_of-merge (s.place j) (t.pc j) (keeps_push s.tail_owner st may j))))
          r;
    near = Near-merge t.pc near;
  }

  module _ {s : Fine A} (is : Seen n fresh s) where
    pub here_Inv : (cells : Cells A) × Inv (seen s is.memory) cells
    here_Inv = Reach-Inv is.reached

    pub at_dummy : is.memory.heap is.memory.tail ≡ some dummy
    at_dummy =
        let (cells, inv) = here_Inv in
        tail-dummy is.memory.heap cells is.memory.tail inv.holds.chain

    -- The head's node, where the queue is not empty.
    pub head_node :
        (cells : Cells A)
        → Holds is.memory cells
        → cells ≢ []
        → (p : Ptr) × (x : A) × (next : Option Ptr) × (is.memory.head ≡ some p)
          × (is.memory.heap p ≡ some (record { item = some x; next = next }))
          × (p ≢ is.memory.tail)
    head_node [] holds full = absurd (full refl)
    head_node ((p, x) ∷ cells) holds full = (
      p,
      x,
      some (first cells is.memory.tail),
      holds.head,
      holds.chain.0,
      λ e. ground (arith, e, holds.distinct.0, has-tail cells is.memory.tail),
    )

    -- The state after a take.
    abbrev pub taken : ℕ → A → Ptr → Memory A → Fine A
    taken i x p m = with_plain s (record (plain s) {
      memory = m;
      head_owner = none;
      popped = s.popped ++ x ∷ [];
      pc = update (λ j. pc_of (s.place j)) i (releasing p x);
    })

    pub takes-Seen :
        (i : ℕ) {x : A} {p : Ptr} {m m' : Memory A}
        → i < n
        → pc_of (s.place i) ≡ taking
        → front s.memory ≡ ok x m
        → pop_head m ≡ ok p m'
        → Seen n fresh (taken i x p m')
    takes-Seen i {x} {p} {m} {m'} lt e reads unlinks =
        let (cells, inv) = here_Inv in
        let (q, y, next, at_head, at, ne) = head_node cells inv.holds (inv.not_empty i e) in
        let (reads_c, unlinks_c) = take_lem is.memory q y next at_head at in
        let (reads_f, unlinks_f) =
          take_lem s.memory q y next (is.near.head ∙ at_head) (same_node is.near at ne) in
        let did : Seen n fresh (taken i y q (without s.memory q y next)) =
          settle s (without is.memory q y next) (takes i lt e reads_f unlinks_f) tt
            (later is.reached (takes i lt e reads_c unlinks_c))
            (Near-write is.near (some (record { item = some y; next = none })) next at ne) in
        let read : ok y s.memory ≡ ok x m = sym reads_f ∙ reads in
        let same : m ≡ s.memory = cc read in
        let unlinked : ok q (without s.memory q y next) ≡ ok p m' =
          sym unlinks_f ∙ ap pop_head (sym same) ∙ unlinks in
        subst (λ z. Seen n fresh (taken i z p m')) (cc read)
          (subst (λ r. Seen n fresh (taken i y r m')) (cc unlinked)
            (subst (λ r. Seen n fresh (taken i y q r)) (cc unlinked) did))

    pub releases-Seen :
        (i : ℕ) (p : Ptr) (x : A) {item : Option A} {m : Memory A}
        → i < n
        → pc_of (s.place i) ≡ releasing p x
        → release p s.memory ≡ ok item m
        → Seen n fresh (
            with_plain s
              (record (plain s) { memory = m; pc = update (λ j. pc_of (s.place j)) i outside }))
    releases-Seen i p x {item} {m} lt e frees =
        let (cells, inv) = here_Inv in
        let flight = inv.flight i p x e in
        let ne : p ≢ is.memory.tail =
          λ q. ground (arith, q, flight.outside_list, has-tail cells is.memory.tail) in
        let frees_f = release_lem s.memory p x (same_node is.near flight.node ne) in
        let did =
          settle s (freed is.memory p) (releases i p x lt e frees_f) tt
            (later is.reached (releases i p x lt e (release_lem is.memory p x flight.node)))
            (freed-Near is.near p flight.node ne) in
        let freed_same : ok (some x) (freed s.memory p) ≡ ok item m = sym frees_f ∙ frees in
        subst
          (λ r. Seen n fresh (
            with_plain s
              (record (plain s) { memory = r; pc = update (λ j. pc_of (s.place j)) i outside })))
          (cc freed_same) did

    pub compares-Seen :
        (i : ℕ) (c : Take) {empty : Bool} {m : Memory A}
        → i < n
        → pc_of (s.place i) ≡ testing c
        → at_tail s.memory ≡ ok empty m
        → s.tail_owner ≡ none
        → Seen n fresh (
            with_plain s (record (plain s) {
              memory = m;
              head_owner = owner_after_test c empty i;
              pc = update (λ j. pc_of (s.place j)) i (after_test c empty);
            }))
    compares-Seen i c {empty} {m} lt e test free =
        let (test_c, same) = at_tail_lem is.near.head is.near.tail test in
        settle s is.memory (compares i c lt e test) free
          (later is.reached (compares i c lt e test_c))
          (subst (λ r. Near r s.tail_owner s.place is.memory) (sym same) is.near)
