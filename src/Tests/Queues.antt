-- ===== src/Tests/Queues.antt =====
-- Runs of the two queues.
use concurrencycourse.Prelude.{
  ℕ, ◌≤◌, ◌<◌, ◌≡◌, refl, Option, none, some, [], ◌∷◌, ◌++◌, arith, length, update,
}
use concurrencycourse.Prelude.Threads.{total}
use concurrencycourse.SimpleQueue
use concurrencycourse.SimpleQueue.Threads.{
  System, Reach, start, later, moves, pushes, waits_and_pops, call, enter, push_back, sleep,
}
use concurrencycourse.SimpleQueue.Invariant.{awake}
use concurrencycourse.SimpleQueue.Safety.{no_lost_wakeup, popped-pushed}
use concurrencycourse.OptimizedQueue.Memory.{Memory, Node, ok}
use concurrencycourse.OptimizedQueue.Methods.{
  try_pop, try_pop_head_value, wait_pop_head_value, wait_and_pop,
}
use concurrencycourse.OptimizedQueue.Destructor.{destruct}
use concurrencycourse.OptimizedQueue.Chain.{IsQueue, Holds, Cells}
use concurrencycourse.OptimizedQueue.Pop.{pop-cons}
use concurrencycourse.OptimizedQueue.Destruct.{destruct-frees}

zero-lt : 0 < 2
zero-lt = omega arith

one-lt : 1 < 2
one-lt = omega arith

-- Thread 0 sleeps in `wait_and_pop`; thread 1 has pushed 5 and is about to notify.
abbrev pushed : (s : System ℕ) × Reach 2 s
unfolding SimpleQueue.wait_and_pop SimpleQueue.push
pushed = (
  _,
  later
      (later
        (later
          (later
            (later (later start (moves 0 zero-lt (call waits_and_pops)))
              (moves 0 zero-lt (enter refl)))
            (moves 0 zero-lt (sleep refl)))
          (moves 1 one-lt (call (pushes 5))))
        (moves 1 one-lt (enter refl)))
      (moves 1 one-lt push_back),
)

no_lost_wakeup_example :
    (length pushed.0.shared.queue ≤ total awake 2 pushed.0.pc)
    × ((i : ℕ) × (i < 2) × (awake (pushed.0.pc i) ≡ 1))
unfolding pushed
no_lost_wakeup_example = no_lost_wakeup 0 pushed.1 zero-lt refl (λ e. cc)

popped-pushed_example : pushed.0.shared.pushed ≡ pushed.0.shared.popped ++ pushed.0.shared.queue
popped-pushed_example = popped-pushed pushed.1

-- Items 10 and 20 in the nodes 1 and 2; the dummy is node 3.
abbrev nodes : ℕ → Option (Node ℕ)
nodes =
    update
      (update (update (λ _. none) 1 (some (record { item = some 10; next = some 2 }))) 2
        (some (record { item = some 20; next = some 3 })))
      3 (some (record { item = none; next = none }))

abbrev two_items : Memory ℕ
two_items = record { heap = nodes; head = some 1; tail = 3 }

abbrev two_cells : Cells ℕ
two_cells = (1, 10) ∷ (2, 20) ∷ []

two_items-IsQueue : IsQueue two_items two_cells
two_items-IsQueue = record {
  holds = record {
    chain = (refl, (refl, refl));
    head = refl;
    distinct = (refl, (refl, (refl, tt)));
  };
  no_leak = λ a out. ground arith;
}

pop-cons_example :
    (m' : Memory ℕ) × (try_pop two_items ≡ ok (some 10) m')
    × (wait_and_pop two_items ≡ ok (some 10) m')
    × IsQueue m' ((2, 20) ∷ [])
    × (m'.heap 1 ≡ none)
    × (m'' : Memory ℕ) × ((value : ℕ) → try_pop_head_value value two_items ≡ ok (some 1, 10) m'')
    × (wait_pop_head_value two_items ≡ ok (1, 10) m'')
    × Holds m'' ((2, 20) ∷ [])
    × (m''.heap 1 ≡ some (record { item = some 10; next = none }))
pop-cons_example = pop-cons two_items-IsQueue

destruct-frees_example :
    (m' : Memory ℕ) × (destruct 1 4 two_items ≡ ok tt m') × ((a : ℕ) → m'.heap a ≡ none)
destruct-frees_example = destruct-frees 4 two_items two_items-IsQueue (omega arith)
