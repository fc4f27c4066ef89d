-- ===== src/Tests/SharedLists.antt =====
-- Two threads that share a queue of src/OptimizedThreadSafeQueue.h.
use concurrencycourse.Prelude.{ℕ, ◌<◌, ◌≡◌, refl, some, ◌++◌, arith}
use concurrencycourse.OptimizedQueue.Memory.{Memory, ok, load}
use concurrencycourse.OptimizedQueue.Methods.{at_tail, front, pop_head, push, construct, release}
use concurrencycourse.OptimizedQueue.Chain.{Holds, Cells, items}
use concurrencycourse.OptimizedQueue.Threads.{
  System, Reach, start, later, tries, calls_push, pushes, calls_take, locks, compares, takes,
}
use concurrencycourse.OptimizedQueue.Safety.{items_in_order, no_fault}

one : 0 < 2
one = omega arith

other : 1 < 2
other = omega arith

-- Thread 1 has pushed 5, and thread 0 has unlinked the node that holds it.
abbrev unlinking : (s : System ℕ) × Reach 2 1 s
unfolding construct push load at_tail front pop_head
unlinking = (
  _,
  later
      (later
        (later
          (later
            (later (later start (calls_push 1 5 other refl)) (pushes 1 5 2 other refl refl refl))
            (calls_take 0 tries one refl))
          (locks 0 tries one refl refl))
        (compares 0 tries one refl refl))
      (takes 0 one refl refl refl),
)

items_in_order_example :
    (cells : Cells ℕ) × Holds unlinking.0.memory cells
    × (unlinking.0.pushed ≡ unlinking.0.popped ++ items cells)
items_in_order_example = items_in_order unlinking.1

no_fault_example : (m : Memory ℕ) × (release 1 unlinking.0.memory ≡ ok (some 5) m)
unfolding unlinking construct push load at_tail front pop_head
no_fault_example = no_fault 3 0 unlinking.1 refl
