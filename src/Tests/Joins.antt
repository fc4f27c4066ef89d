-- ===== src/Tests/Joins.antt =====
-- A program with two objects of src/JoinableThread.h.
use concurrencycourse.Prelude.{
  ℕ, ◌≤◌, ◌≡◌, refl, ◌⊎◌, true, false, not, ◌||◌, some, arith, if◌then◌else◌, update,
}
use concurrencycourse.JoinableThread.{
  World, ok, terminated, system_error, thread_move, is_own, construct, joinable, join, assign,
  destroy, assign_thread, join_if_joinable,
}
use concurrencycourse.JoinableThread.Programs.{
  Reach, start, later, constructs, assigns, destroys, emptied, assign-joins,
}
use concurrencycourse.JoinableThread.Ownership.{all_joined}

-- Object 0 had thread 0, which was joined as it took over thread 1 from object 1.
abbrev moved : (w : World) × Reach (ok w)
unfolding construct assign assign_thread join_if_joinable
moved = (
  _,
  later (later (later start (constructs 0 refl)) (constructs 1 refl)) (assigns 0 1 refl refl refl),
)

-- Then both objects are destroyed.
abbrev over : (w : World) × Reach (ok w)
unfolding moved destroy join_if_joinable
over = (_, later (later moved.1 (destroys 1 refl refl)) (destroys 0 refl refl))

assign-joins_example :
    (assign 0 1 moved.0 ≡ (
      if is_own (moved.0.handle 0) moved.0.caller
      then system_error
      else ok (thread_move 0 1 (emptied 0 moved.0))))
    × (assign 0 0 moved.0 ≡ ok moved.0)
    × (join 0 moved.0 ≡ (
        if not (joinable 0 moved.0) || is_own (moved.0.handle 0) moved.0.caller
        then system_error
        else ok (emptied 0 moved.0)))
    × (destroy 0 moved.0 ≡ (
        if is_own (moved.0.handle 0) moved.0.caller
        then terminated
        else ok (record (emptied 0 moved.0) { live = update moved.0.live 0 false })))
assign-joins_example = assign-joins 0 1 moved.0 (λ e. omega (arith, e))

all_joined_example :
    (w : World) × (ok over.0 ≡ ok w)
    × ((w.started ≤ 1)
        ⊎ (w.joined 1 ≡ true)
        ⊎ ((x : ℕ) × (w.live x ≡ true) × (w.handle x ≡ some 1) × (w.joined 1 ≡ false)))
all_joined_example = all_joined 1 over.1

-- A thread that destroys its own object joins itself.
destroy_own : destroy 0 (record moved.0 { caller = some 1 }) ≡ terminated
unfolding moved destroy join_if_joinable
destroy_own = refl
