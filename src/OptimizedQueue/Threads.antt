-- ===== src/OptimizedQueue/Threads.antt =====
-- Threads that call the methods of one queue, in any interleaving. `head_mutex` and `data_cond` are
-- explicit. A body under `tail_mutex` (that of `push`, or of `get_tail`) is one step; `Fine` has `push`
-- write by write.
use concurrencycourse.Prelude.{
  ℕ, ◌<◌, ◌≡◌, ◌≢◌, Bool, true, false, Option, none, some, List, [], ◌∷◌, ◌++◌, update,
}
use concurrencycourse.OptimizedQueue.Memory.{Ptr, Memory, ok}
use concurrencycourse.OptimizedQueue.Methods.{at_tail, front, pop_head, release, push, construct}

-- A call that takes an item: `try_pop` or `wait_and_pop`.
pub data Take : Type 0 where
  tries : Take
  waits : Take

-- A `try_pop` that finds the queue empty gives the mutex back as it returns.
abbrev pub owner_after_test : Take → Bool → ℕ → Option ℕ
owner_after_test tries true i = none
owner_after_test waits true i = some i
owner_after_test _ false i = some i

module _ (A : Type 0) where
  -- Where a thread stands.
  pub data Pc : Type 0 where
    outside : Pc
    pushing : A → Pc  -- before the lock of `tail_mutex`
    notifying : Pc  -- in `push`, without a mutex, before `notify_one`
    locking : Take → Pc  -- before the lock of `head_mutex`
    testing : Take → Pc  -- has `head_mutex`, before `head.get() == get_tail()`
    blocking : Pc  -- has `head_mutex`; the predicate of `wait` was false
    sleeping : Pc  -- in `wait`, without the mutex
    woken : Pc  -- in `wait`, waits for the mutex
    taking : Pc  -- has `head_mutex`; the queue was not empty
    -- without the mutex; has the old head, whose item `try_pop_head(value)` has copied
    releasing : Ptr → A → Pc

  -- `head_owner` is the state of `head_mutex`; the items pushed and popped are kept as a history.
  pub record System : Type 0 where
    pub memory : Memory A
    pub head_owner : Option ℕ
    pub pushed : List A
    pub popped : List A
    pub pc : ℕ → Pc

module _ {A : Type 0} where
  abbrev pub at_pc : System A → ℕ → Pc A → System A
  at_pc s i p = record s { pc = update s.pc i p }

  abbrev pub after_test : Take → Bool → Pc A
  after_test tries true = outside
  after_test waits true = blocking
  after_test _ false = taking

  pub data Step (n : ℕ) (s : System A) : System A → Type 0 where
    calls_push : (i : ℕ) (v : A) → i < n → s.pc i ≡ outside → Step n s (at_pc s i (pushing v))
    pushes :
        (i : ℕ) (v : A) (fresh : Ptr) {m : Memory A}
        → i < n
        → s.pc i ≡ pushing v
        → s.memory.heap fresh ≡ none
        → push fresh v s.memory ≡ ok tt m
        → Step n s
            (record s { memory = m; pushed = s.pushed ++ v ∷ []; pc = update s.pc i notifying })
    notifies :
        (i j : ℕ)
        → i < n
        → j < n
        → s.pc i ≡ notifying
        → s.pc j ≡ sleeping
        → Step n s (record s { pc = update (update s.pc i outside) j woken })
    notifies_nobody :
        (i : ℕ)
        → i < n
        → s.pc i ≡ notifying
        → ((j : ℕ) → j < n → s.pc j ≢ sleeping)
        → Step n s (at_pc s i outside)
    calls_take : (i : ℕ) (c : Take) → i < n → s.pc i ≡ outside → Step n s (at_pc s i (locking c))
    locks :
        (i : ℕ) (c : Take)
        → i < n
        → s.pc i ≡ locking c
        → s.head_owner ≡ none
        → Step n s (record s { head_owner = some i; pc = update s.pc i (testing c) })
    compares :
        (i : ℕ) (c : Take) {empty : Bool} {m : Memory A}
        → i < n
        → s.pc i ≡ testing c
        → at_tail s.memory ≡ ok empty m
        → Step n s (record s {
          memory = m;
          head_owner = owner_after_test c empty i;
          pc = update s.pc i (after_test c empty);
        })
    sleeps :
        (i : ℕ)
        → i < n
        → s.pc i ≡ blocking
        → Step n s (record s { head_owner = none; pc = update s.pc i sleeping })
    wakes_up : (i : ℕ) → i < n → s.pc i ≡ sleeping → Step n s (at_pc s i woken)  -- spurious
    relocks :
        (i : ℕ)
        → i < n
        → s.pc i ≡ woken
        → s.head_owner ≡ none
        → Step n s (record s { head_owner = some i; pc = update s.pc i (testing waits) })
    takes :
        (i : ℕ) {x : A} {p : Ptr} {m m' : Memory A}
        → i < n
        → s.pc i ≡ taking
        → front s.memory ≡ ok x m
        → pop_head m ≡ ok p m'
        → Step n s (record s {
          memory = m';
          head_owner = none;
          popped = s.popped ++ x ∷ [];
          pc = update s.pc i (releasing p x);
        })
    releases :
        (i : ℕ) (p : Ptr) (x : A) {item : Option A} {m : Memory A}
        → i < n
        → s.pc i ≡ releasing p x
        → release p s.memory ≡ ok item m
        → Step n s (record s { memory = m; pc = update s.pc i outside })

  abbrev pub init : Ptr → System A
  init fresh = record {
    memory = construct fresh;
    head_owner = none;
    pushed = [];
    popped = [];
    pc = λ _. outside;
  }

  pub data Reach (n : ℕ) (fresh : Ptr) : System A → Type 0 where
    start : Reach n fresh (init fresh)
    later : {s t : System A} → Reach n fresh s → Step n s t → Reach n fresh t
