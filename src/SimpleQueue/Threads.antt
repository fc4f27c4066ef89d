-- ===== src/SimpleQueue/Threads.antt =====
-- Threads that call the methods of one `SimpleThreadSafeQueue`, in any interleaving. `m_mutex` and
-- `m_condVariable` are explicit: a thread waits for the mutex, runs its body, and may sleep.
use concurrencycourse.Prelude.{
  ℕ, ◌<◌, ◌≡◌, ◌≢◌, true, false, Option, none, some, List, [], ◌∷◌, ◌++◌, update,
}
use concurrencycourse.SimpleQueue.{push, wait_and_pop, try_pop}

module _ (A : Type 0) where
  pub data Call : Type 0 where
    pushes : A → Call
    waits_and_pops : Call
    tries_to_pop : A → Call

  -- Where a thread stands.
  pub data Pc : Type 0 where
    outside : Pc
    calling : Call → Pc  -- before the lock
    inside : Call → Pc  -- has the mutex, before the body
    notifying : Pc  -- in `push`, before `notify_one`
    sleeping : Pc  -- in `wait`, without the mutex
    woken : Pc  -- in `wait`, waits for the mutex
    rechecking : Pc  -- in `wait`, has the mutex, before the predicate
    leaving : Pc  -- the body is done, the mutex not yet given back

  -- `owner` is the state of `m_mutex`. All items ever pushed, and all that were popped, are kept as
  -- a history.
  pub record Shared : Type 0 where
    pub queue : List A
    pub owner : Option ℕ
    pub pushed : List A
    pub popped : List A

  pub record System : Type 0 where
    pub shared : Shared
    pub pc : ℕ → Pc

module _ {A : Type 0} where
  abbrev pub lock_by : ℕ → Shared A → Shared A
  lock_by i m = record m { owner = some i }

  abbrev pub unlocked : Shared A → Shared A
  unlocked m = record m { owner = none }

  abbrev pub after_push : A → Shared A → Shared A
  after_push v m = record m { queue = push v m.queue; pushed = m.pushed ++ v ∷ [] }

  abbrev pub after_pop : A → List A → Shared A → Shared A
  after_pop x queue m = record m { queue = queue; popped = m.popped ++ x ∷ [] }

  -- What thread `i` can do alone.
  pub data Move (i : ℕ) (m : Shared A) : Pc A → Shared A → Pc A → Type 0 where
    call : (c : Call A) → Move i m outside m (calling c)
    enter : {c : Call A} → m.owner ≡ none → Move i m (calling c) (lock_by i m) (inside c)
    push_back : {v : A} → Move i m (inside (pushes v)) (after_push v m) notifying
    pop_at_once :
        {x : A} {queue : List A}
        → wait_and_pop m.queue ≡ some (x, queue)
        → Move i m (inside waits_and_pops) (after_pop x queue m) leaving
    sleep : wait_and_pop m.queue ≡ none → Move i m (inside waits_and_pops) (unlocked m) sleeping
    wake_up : Move i m sleeping m woken  -- spurious
    reenter : m.owner ≡ none → Move i m woken (lock_by i m) rechecking
    pop_awake :
        {x : A} {queue : List A}
        → wait_and_pop m.queue ≡ some (x, queue)
        → Move i m rechecking (after_pop x queue m) leaving
    sleep_again : wait_and_pop m.queue ≡ none → Move i m rechecking (unlocked m) sleeping
    try_success :
        {val x : A} {queue : List A}
        → try_pop val m.queue ≡ (true, x, queue)
        → Move i m (inside (tries_to_pop val)) (after_pop x queue m) leaving
    try_failure :
        {val x : A} {queue : List A}
        → try_pop val m.queue ≡ (false, x, queue)
        → Move i m (inside (tries_to_pop val)) (record m { queue = queue }) leaving
    leave : Move i m leaving (unlocked m) outside

  -- A step of one of `n` threads; `notify_one` wakes any one of those that sleep.
  pub data Step (n : ℕ) (s : System A) : System A → Type 0 where
    moves :
        (i : ℕ) {m : Shared A} {p : Pc A}
        → i < n
        → Move i s.shared (s.pc i) m p
        → Step n s (record { shared = m; pc = update s.pc i p })
    notifies :
        (i j : ℕ)
        → i < n
        → j < n
        → s.pc i ≡ notifying
        → s.pc j ≡ sleeping
        → Step n s (record s { pc = update (update s.pc i leaving) j woken })
    notifies_nobody :
        (i : ℕ)
        → i < n
        → s.pc i ≡ notifying
        → ((j : ℕ) → j < n → s.pc j ≢ sleeping)
        → Step n s (record s { pc = update s.pc i leaving })

  abbrev pub init : System A
  init = record {
    shared = record { queue = []; owner = none; pushed = []; popped = [] };
    pc = λ _. outside;
  }

  pub data Reach (n : ℕ) : System A → Type 0 where
    start : Reach n init
    later : {s t : System A} → Reach n s → Step n s t → Reach n t
