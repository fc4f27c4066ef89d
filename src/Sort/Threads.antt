-- ===== src/Sort/Threads.antt =====
-- The threads of `multithreaded_sort`: each divides its range, starts a thread for the left part, goes
-- on with the right part itself, and joins the other at the end of its scope.
use concurrencycourse.Prelude.{ℕ, suc, ◌+◌, ◌≤◌, ◌<◌}
use concurrencycourse.Sort.{Container, distance, divide_point}

-- A call of `multithreaded_sort`, with the thread that it has started.
pub data Call : Type 0 where
  sorting : ℕ → ℕ → Call  -- at the start, with its range
  divided : Call → Call → Call  -- the call of `asyncTask`, and the own one of the right part
  returned : Call

module _ (nth_element : ℕ → ℕ → ℕ → Container → Container) where
  -- The container is shared. No other thread uses the range of a call, so its `nth_element` is one step.
  pub data Step (xs : Container) : Call → Container → Call → Type 0 where
    returns_at_once : {b e : ℕ} → distance b e ≤ 1 → Step xs (sorting b e) xs returned
    divides :
        {b e : ℕ}
        → 1 < distance b e
        → Step xs
            (sorting b e)
            (nth_element b (divide_point b e) e xs)
            (divided (sorting b (divide_point b e)) (sorting (divide_point b e + 1) e))
    async :
        {c c' own : Call} {ys : Container}
        → Step xs c ys c'
        → Step xs (divided c own) ys (divided c' own)
    own :
        {task c c' : Call} {ys : Container}
        → Step xs c ys c'
        → Step xs (divided task c) ys (divided task c')
    joins : Step xs (divided returned returned) xs returned

  -- A run of so many steps, in any order.
  pub data Run : ℕ → Container → Call → Container → Call → Type 0 where
    here : {xs : Container} {c : Call} → Run 0 xs c xs c
    next :
        {n : ℕ} {xs ys zs : Container} {c c' c'' : Call}
        → Step xs c ys c'
        → Run n ys c' zs c''
        → Run (suc n) xs c zs c''
