-- ===== src/OptimizedQueue/Fine.antt =====
-- `push` of src/OptimizedThreadSafeQueue.h write by write, with `tail_mutex` explicit. The other calls
-- go on as in `Threads`, and `get_tail` waits for the mutex.
pub mod Near
pub mod Pushing
pub mod Calls
pub mod Seen
pub mod Refines
pub mod Races
pub mod Writes
pub mod Progress
use concurrencycourse.Prelude.{
  ℕ, zero, suc, ◌+◌, ◌-◌, ◌*◌, ◌/◌, ◌%◌, ◌^◌, ◌≤◌, ◌<◌, ◌≡◌, refl, sym, ap, subst, ◌∙◌, fun_ext,
  ◌≢◌, ◌↔◌, ◌⊎◌, inl, inr, Bool, true, false, not, ◌&&◌, ◌||◌, Option, none, some, List, [], ◌∷◌,
  ◌++◌, map, append_assoc, append-nil, arith, dec_lt, ℕ_discrete, ltb, leb, ◌==◌, if◌then◌else◌,
  ltb→lt, lt→ltb, leb→le, ==_iff, tests, Bool-cases, Option-cases, length, get_elem?, set,
  length-append, get_or, take, drop, replicate, length-map, update, All, All-has, All-mono, has,
  update_elim, update_ext, length-set, get_elem?-set_self, get_elem?-set_ne,
}
use concurrencycourse.OptimizedQueue.Memory.{
  Ptr, Memory, ok, Cmd, ◌>>=◌, ◌>>◌, write, load, get_tail,
}
use concurrencycourse.OptimizedQueue.Methods.{construct}
use concurrencycourse.OptimizedQueue.Threads.{
  Pc, System, Step, outside, pushing, notifying, calls_push, pushes, notifies, notifies_nobody,
  calls_take, locks, compares, sleeps, wakes_up, relocks, takes, releases,
}

module _ {A : Type 0} where
  -- `std::unique_ptr<node> p(new node)`, where `new` returns `fresh`
  unfoldable pub new_node : Ptr → Cmd A (Unit {0})
  new_node fresh = write fresh (some (record { item = none; next = none }))

  -- `tail->data = std::move(new_value)`
  unfoldable pub set_data : A → Cmd A (Unit {0})
  set_data new_value = do
    tail ← get_tail
    n ← load tail
    write tail (some (record n { item = some new_value }))

  -- `tail->next = std::move(p)`
  unfoldable pub set_next : Ptr → Cmd A (Unit {0})
  set_next p = do tail ← get_tail; n ← load tail; write tail (some (record n { next = some p }))

module _ (A : Type 0) where
  -- Where a thread stands; a thread in `push` has the item and the new node.
  pub data Place : Type 0 where
    stands : Pc A → Place
    made : A → Ptr → Place  -- before the lock of `tail_mutex`
    entered : A → Ptr → Place  -- has the mutex, before the write of `data`
    filled : A → Ptr → Place  -- before the write of `next`
    linked : A → Ptr → Place  -- before the write of `tail`

  pub record Fine : Type 0 where
    pub memory : Memory A
    pub head_owner : Option ℕ
    pub tail_owner : Option ℕ
    pub pushed : List A
    pub popped : List A
    pub place : ℕ → Place

module _ {A : Type 0} where
  -- The counter of `Threads`, for which a `push` is one step at its end.
  abbrev pub pc_of : Place A → Pc A
  pc_of (stands c) = c
  pc_of (made v p) = pushing v
  pc_of (entered v p) = pushing v
  pc_of (filled v p) = pushing v
  pc_of (linked v p) = pushing v

  abbrev pub plain : Fine A → System A
  plain s = record {
    memory = s.memory;
    head_owner = s.head_owner;
    pushed = s.pushed;
    popped = s.popped;
    pc = λ i. pc_of (s.place i);
  }

  -- A thread in `push` stays where it is.
  abbrev pub merge : Place A → Pc A → Place A
  merge (stands _) c = stands c
  merge p c = p

  abbrev pub with_plain : Fine A → System A → Fine A
  with_plain s t = record {
    memory = t.memory;
    head_owner = t.head_owner;
    tail_owner = s.tail_owner;
    pushed = t.pushed;
    popped = t.popped;
    place = λ i. merge (s.place i) (t.pc i);
  }

  -- Which steps of `Threads` are steps here: none that pushes, and `get_tail` locks `tail_mutex`.
  abbrev pub Allowed : {n : ℕ} {s t : System A} → Option ℕ → Step n s t → Type 0
  Allowed tail_owner (pushes i v fresh lt e free ran) = ⊥
  Allowed tail_owner (compares i c lt e test) = tail_owner ≡ none
  Allowed tail_owner _ = Unit

  pub data FineStep (n : ℕ) (s : Fine A) : Fine A → Type 0 where
    others :
        {t : System A} (st : Step n (plain s) t)
        → Allowed s.tail_owner st
        → FineStep n s (with_plain s t)
    makes :
        (i : ℕ) (v : A) (fresh : Ptr) {m : Memory A}
        → i < n
        → s.place i ≡ stands (pushing v)
        → s.memory.heap fresh ≡ none
        → new_node fresh s.memory ≡ ok tt m
        → FineStep n s (record s { memory = m; place = update s.place i (made v fresh) })
    locks_tail :
        (i : ℕ) (v : A) (p : Ptr)
        → i < n
        → s.place i ≡ made v p
        → s.tail_owner ≡ none
        → FineStep n s (record s { tail_owner = some i; place = update s.place i (entered v p) })
    sets_data :
        (i : ℕ) (v : A) (p : Ptr) {m : Memory A}
        → i < n
        → s.place i ≡ entered v p
        → set_data v s.memory ≡ ok tt m
        → FineStep n s (record s { memory = m; place = update s.place i (filled v p) })
    sets_next :
        (i : ℕ) (v : A) (p : Ptr) {m : Memory A}
        → i < n
        → s.place i ≡ filled v p
        → set_next p s.memory ≡ ok tt m
        → FineStep n s (record s { memory = m; place = update s.place i (linked v p) })
    sets_tail :
        (i : ℕ) (v : A) (p : Ptr)
        → i < n
        → s.place i ≡ linked v p
        → FineStep n s (record s {
          memory = record (s.memory) { tail = p };
          tail_owner = none;
          pushed = s.pushed ++ v ∷ [];
          place = update s.place i (stands notifying);
        })

  abbrev pub fine_init : Ptr → Fine A
  fine_init fresh = record {
    memory = construct fresh;
    head_owner = none;
    tail_owner = none;
    pushed = [];
    popped = [];
    place = λ _. stands outside;
  }

  pub data FineReach (n : ℕ) (fresh : Ptr) : Fine A → Type 0 where
    begin : FineReach n fresh (fine_init fresh)
    after : {s t : Fine A} → FineReach n fresh s → FineStep n s t → FineReach n fresh t
