-- ===== src/OptimizedQueue/Fine/Refines.antt =====
-- Every run in which `push` is made write by write is one of `Threads`, in which it is one step.
use concurrencycourse.Prelude.{
  ℕ, ◌<◌, ◌≡◌, refl, sym, ap, subst, ◌∙◌, fun_ext, true, Option, none, some, [], ◌∷◌, ◌++◌, arith,
  ==_iff, update, has,
}
use concurrencycourse.OptimizedQueue.Memory.{Ptr, Memory, ok, load}
use concurrencycourse.OptimizedQueue.Methods.{construct}
use concurrencycourse.OptimizedQueue.Push.{dummy, push-Pushed}
use concurrencycourse.OptimizedQueue.Threads.{
  Pc, System, Step, Reach, start, later, pushing, notifying, calls_push, pushes, notifies,
  notifies_nobody, calls_take, locks, compares, sleeps, wakes_up, relocks, takes, releases,
}
use concurrencycourse.OptimizedQueue.Fine.{
  Place, stands, made, entered, filled, linked, Fine, pc_of, plain, with_plain, Allowed, FineStep,
  FineReach, others, makes, locks_tail, sets_data, sets_next, sets_tail, begin, after, new_node,
  set_data, set_next,
}
use concurrencycourse.OptimizedQueue.Fine.Near.{own_node, has_tail, tail_node, Near}
use concurrencycourse.OptimizedQueue.Fine.Pushing.{
  makes-Near, locks_tail-Near, writes-Near, sets_tail-Near,
}
use concurrencycourse.OptimizedQueue.Fine.Seen.{
  Seen, settle, at_dummy, takes-Seen, releases-Seen, compares-Seen,
}

module _ {A : Type 0} where
  abbrev written : Memory A → Ptr → Place A → Memory A
  written m p q = record m { heap = update m.heap p (some (tail_node q)) }

  set_data_lem :
      (m : Memory A) {m' : Memory A} (v : A) (p : Ptr)
      → m.heap m.tail ≡ some dummy
      → set_data v m ≡ ok tt m'
      → m' ≡ written m m.tail (filled v p)
  unfolding set_data load
  set_data_lem m v p at e = ground (arith, at, e)

  set_next_lem :
      (m : Memory A) {m' : Memory A} (v : A) (p : Ptr)
      → m.heap m.tail ≡ some (tail_node (filled v p))
      → set_next p m ≡ ok tt m'
      → m' ≡ written m m.tail (linked v p)
  unfolding set_next load
  set_next_lem m v p at e = ground (arith, at, e)

  new_node_lem :
      (m : Memory A) {m' : Memory A} (fresh : Ptr)
      → new_node fresh m ≡ ok tt m'
      → m' ≡ record m { heap = update m.heap fresh (some dummy) }
  unfolding new_node
  new_node_lem m fresh e = ground (arith, e)

module _ {A : Type 0} {n : ℕ} {fresh : Ptr} {s : Fine A} (is : Seen n fresh s) (i : ℕ) where
  -- Thread `i` goes on within its `push`, which has not begun in `Threads`.
  goes_on :
      {v : A} (m : Memory A) (tail_owner : Option ℕ) (p : Place A)
      → pc_of (s.place i) ≡ pushing v
      → pc_of p ≡ pushing v
      → Near m tail_owner (update s.place i p) is.memory
      → Seen n fresh (record s { memory = m; tail_owner = tail_owner; place = update s.place i p })
  goes_on m tail_owner p at at' near = record {
    memory = is.memory;
    reached =
        subst (λ (pc : ℕ → Pc A). Reach n fresh (record (plain s) { memory = is.memory; pc = pc }))
          (fun_ext (λ j. ground (arith, at, at', ==_iff i j))) is.reached;
    near = near;
  }

  writes :
      {v : A} {m : Memory A} (p : Place A)
      → pc_of (s.place i) ≡ pushing v
      → pc_of p ≡ pushing v
      → has_tail (s.place i) ≡ true
      → has_tail p ≡ true
      → own_node p ≡ own_node (s.place i)
      → m ≡ written s.memory s.memory.tail p
      → Seen n fresh (record s { memory = m; place = update s.place i p })
  writes p at at' has has' own did = goes_on _ s.tail_owner p at at' (
      subst (λ (r : Memory A). Near r s.tail_owner (update s.place i p) is.memory)
        (sym (did ∙ ap (λ (q : Ptr). written s.memory q p) is.near.tail))
        (writes-Near is.near (at_dummy is) i p has has' own))

  -- What the thread with `tail_mutex` finds at the tail.
  at_tail_node :
      has_tail (s.place i) ≡ true → s.memory.heap s.memory.tail ≡ some (tail_node (s.place i))
  at_tail_node has = ap s.memory.heap is.near.tail ∙ (is.near.busy_tail i (is.near.owner i has)).1

  pushes-Seen :
      {v : A} {p : Ptr}
      → i < n
      → s.place i ≡ linked v p
      → Seen n fresh (record s {
        memory = record (s.memory) { tail = p };
        tail_owner = none;
        pushed = s.pushed ++ v ∷ [];
        place = update s.place i (stands notifying);
      })
  pushes-Seen {v} {p} lt at =
      let free = (is.near.hidden i p (ground (arith, at))).0 in
      let (m, ran, did) = push-Pushed p v is.memory (at_dummy is) free in
      record {
        memory = m;
        reached =
            subst
              (λ (pc : ℕ → Pc A).
                Reach n fresh
                  (record (plain s) { memory = m; pushed = s.pushed ++ v ∷ []; pc = pc }))
              (fun_ext (λ j. ground (arith, ==_iff i j)))
              (later is.reached (pushes i v p lt (ap pc_of at) free ran));
        near = sets_tail-Near is.near (at_dummy is) i at did;
      }

module _ {A : Type 0} {n : ℕ} {fresh : Ptr} where
  others-Seen :
      {s : Fine A} {t : System A} (st : Step n (plain s) t)
      → Allowed s.tail_owner st
      → Seen n fresh s
      → Seen n fresh (with_plain s t)
  others-Seen (pushes i v p lt e free ran) may is = absurd may
  others-Seen (compares i c lt e test) may is = compares-Seen is i c lt e test may
  others-Seen (takes i lt e reads unlinks) may is = takes-Seen is i lt e reads unlinks
  others-Seen (releases i p x lt e frees) may is = releases-Seen is i p x lt e frees
  others-Seen {s} (calls_push i v lt e) may is =
      settle s is.memory (calls_push i v lt e) may (later is.reached (calls_push i v lt e)) is.near
  others-Seen {s} (notifies i j lt lt' e e') may is =
      settle s is.memory (notifies i j lt lt' e e') may
        (later is.reached (notifies i j lt lt' e e')) is.near
  others-Seen {s} (notifies_nobody i lt e nobody) may is =
      settle s is.memory (notifies_nobody i lt e nobody) may
        (later is.reached (notifies_nobody i lt e nobody)) is.near
  others-Seen {s} (calls_take i c lt e) may is =
      settle s is.memory (calls_take i c lt e) may (later is.reached (calls_take i c lt e)) is.near
  others-Seen {s} (locks i c lt e free) may is =
      settle s is.memory (locks i c lt e free) may (later is.reached (locks i c lt e free)) is.near
  others-Seen {s} (sleeps i lt e) may is =
      settle s is.memory (sleeps i lt e) may (later is.reached (sleeps i lt e)) is.near
  others-Seen {s} (wakes_up i lt e) may is =
      settle s is.memory (wakes_up i lt e) may (later is.reached (wakes_up i lt e)) is.near
  others-Seen {s} (relocks i lt e free) may is =
      settle s is.memory (relocks i lt e free) may (later is.reached (relocks i lt e free)) is.near

  Step-Seen : {s t : Fine A} → FineStep n s t → Seen n fresh s → Seen n fresh t
  Step-Seen (others st may) is = others-Seen st may is
  Step-Seen {s} (makes i v p lt at free did) is =
      goes_on is i _ s.tail_owner (made v p) (ap pc_of at) refl (
        subst (λ (r : Memory A). Near r s.tail_owner (update s.place i (made v p)) is.memory)
          (sym (new_node_lem s.memory p did))
          (makes-Near is.near (at_dummy is) i v (ap own_node at) (ap has_tail at) free))
  Step-Seen {s} (locks_tail i v p lt at free) is =
      goes_on is i s.memory (some i) (entered v p) (ap pc_of at) refl
        (locks_tail-Near is.near (at_dummy is) i at free)
  Step-Seen {s} (sets_data i v p lt at did) is =
      writes is i (filled v p) (ap pc_of at) refl (ap has_tail at) refl (sym (ap own_node at)) (
        set_data_lem s.memory v p
          (at_tail_node is i (ap has_tail at) ∙ ap (λ q. some (tail_node q)) at) did)
  Step-Seen {s} (sets_next i v p lt at did) is =
      writes is i (linked v p) (ap pc_of at) refl (ap has_tail at) refl (sym (ap own_node at)) (
        set_next_lem s.memory v p
          (at_tail_node is i (ap has_tail at) ∙ ap (λ q. some (tail_node q)) at) did)
  Step-Seen (sets_tail i v p lt at) is = pushes-Seen is i lt at

  -- A `push` that is made write by write, under `tail_mutex`, cannot be told from one that is made in
  -- one step: in every reachable state, in any interleaving, a state with the same mutex, history and
  -- places of the threads can be reached by such pushes, in which each `push` that is under way has not
  -- begun. The memory is the same but for the new nodes of these pushes and the node at the tail.
  pub fine-Refines : {s : Fine A} → FineReach n fresh s → Seen n fresh s
  unfolding construct
  fine-Refines begin = record {
    memory = construct fresh;
    reached = start;
    near = record {
      head = refl;
      tail = refl;
      same = λ a ne all. refl;
      hidden = λ i a e. cc e;
      apart = λ i j a e. cc e;
      idle_tail = λ e. ground arith;
      busy_tail = λ i e. cc e;
      owner = λ i e. cc e;
    };
  }
  fine-Refines (after r st) = Step-Seen st (fine-Refines r)
