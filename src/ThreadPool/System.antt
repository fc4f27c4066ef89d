-- ===== src/ThreadPool/System.antt =====
-- The threads of src/ThreadPool.h in any interleaving: `n` workers, and `k` clients that call `submit`
-- and `wait_all`. A task that itself submits tasks is one more client. The work queue is a
-- `SimpleThreadSafeQueue`, each call of which is one step, and so is an access to an atomic.
use concurrencycourse.Prelude.{
  ℕ, ◌+◌, ◌-◌, ◌%◌, ◌^◌, ◌<◌, ◌≡◌, ◌≢◌, Bool, true, false, Option, none, some, List, [], ◌∷◌, ◌++◌,
  update,
}
use concurrencycourse.SimpleQueue
use concurrencycourse.SimpleQueue.{try_pop}

-- `m_taskCount` is an `unsigned` of 32 bits; `fetch_add(1)` and `fetch_sub(1)` wrap around.
abbrev pub count_limit : ℕ
count_limit = 2 ^ 32

unfoldable pub fetch_add : ℕ → ℕ
fetch_add count = (count + 1) % count_limit

unfoldable pub fetch_sub : ℕ → ℕ
fetch_sub count = (count + count_limit - 1) % count_limit

module _ (A : Type 0) where
  -- Where a worker stands in `worker_thread`.
  pub data Worker : Type 0 where
    at_loop : Worker  -- before the test of `done`
    polling : Worker  -- before `try_pop`
    running : A → Worker
    finished : Worker  -- the task has returned; before `fetch_sub`
    notifying : Worker  -- it was the last task; before the lock and `notify_all`
    exited : Worker

  -- Where a client stands.
  pub data Client : Type 0 where
    outside : Client
    counted : A → Client  -- in `submit`, between `fetch_add` and `push`
    locking : Client  -- in `wait_all`, before the lock
    checking : Client  -- has the mutex, before the predicate
    blocking : Client  -- has the mutex, and the predicate was false
    sleeping : Client  -- in `wait`, without the mutex
    woken : Client  -- in `wait`, waits for the mutex

  -- The members, and a history: the tasks in the order of their pushes and of their starts, and those
  -- that have returned. `owner` is the client that has `m_tasksCompleteMutex`.
  pub record Pool : Type 0 where
    pub done : Bool
    pub work_queue : List A
    pub task_count : ℕ
    pub owner : Option ℕ
    pub pushed : List A
    pub started : List A
    pub completed : List A

  pub record System : Type 0 where
    pub pool : Pool
    pub workers : ℕ → Worker
    pub clients : ℕ → Client

module _ {A : Type 0} where
  -- A step of a worker in `worker_thread` that concerns no client.
  pub data Work (p : Pool A) : Worker A → Pool A → Worker A → Type 0 where
    go_on : p.done ≡ false → Work p at_loop p polling
    stop : p.done ≡ true → Work p at_loop p exited
    pop :
        (val : A) {task : A} {rest : List A}
        → try_pop val p.work_queue ≡ (true, task, rest)
        → Work p polling
            (record p { work_queue = rest; started = p.started ++ task ∷ [] })
            (running task)
    yield :
        (val : A) {task : A} {rest : List A}
        → try_pop val p.work_queue ≡ (false, task, rest)
        → Work p polling (record p { work_queue = rest }) at_loop
    run :
        {task : A}
        → Work p (running task) (record p { completed = p.completed ++ task ∷ [] }) finished
    last :
        p.task_count ≡ 1
        → Work p finished (record p { task_count = fetch_sub p.task_count }) notifying
    not_last :
        p.task_count ≢ 1
        → Work p finished (record p { task_count = fetch_sub p.task_count }) at_loop

  -- A step of client `j`. No more tasks are submitted at a time than the count can tell apart.
  pub data Move (j : ℕ) (p : Pool A) : Client A → Pool A → Client A → Type 0 where
    submit :
        (task : A)
        → p.task_count + 1 < count_limit
        → Move j p outside (record p { task_count = fetch_add p.task_count }) (counted task)
    push :
        {task : A}
        → Move j p
            (counted task)
            (record p {
              work_queue = SimpleQueue.push task p.work_queue;
              pushed = p.pushed ++ task ∷ [];
            })
            outside
    wait_all : Move j p outside p locking
    lock : p.owner ≡ none → Move j p locking (record p { owner = some j }) checking
    relock : p.owner ≡ none → Move j p woken (record p { owner = some j }) checking
    complete : p.task_count ≡ 0 → Move j p checking (record p { owner = none }) outside
    incomplete : p.task_count ≢ 0 → Move j p checking p blocking
    sleep : Move j p blocking (record p { owner = none }) sleeping
    wake_up : Move j p sleeping p woken  -- spurious

  -- `notify_all`
  abbrev pub wake : Client A → Client A
  wake sleeping = woken
  wake c = c

  pub data Step (n k : ℕ) (s : System A) : System A → Type 0 where
    works :
        (i : ℕ) {p : Pool A} {w : Worker A}
        → i < n
        → Work s.pool (s.workers i) p w
        → Step n k s (record s { pool = p; workers = update s.workers i w })
    notifies :
        (i : ℕ)
        → i < n
        → s.workers i ≡ notifying
        → s.pool.owner ≡ none
        → Step n k s
            (record s { workers = update s.workers i at_loop; clients = λ j. wake (s.clients j) })
    moves :
        (j : ℕ) {p : Pool A} {c : Client A}
        → j < k
        → Move j s.pool (s.clients j) p c
        → Step n k s (record s { pool = p; clients = update s.clients j c })
    -- The destructor, or the constructor when a thread cannot be started.
    stops : Step n k s (record s { pool = record (s.pool) { done = true } })

  -- After the constructor, with a worker for each unit of `hardware_concurrency`.
  abbrev pub init : System A
  init = record {
    pool = record {
      done = false;
      work_queue = [];
      task_count = 0;
      owner = none;
      pushed = [];
      started = [];
      completed = [];
    };
    workers = λ _. at_loop;
    clients = λ _. outside;
  }

  pub data Reach (n k : ℕ) : System A → Type 0 where
    start : Reach n k init
    later : {s t : System A} → Reach n k s → Step n k s t → Reach n k t
