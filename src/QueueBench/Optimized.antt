-- ===== src/QueueBench/Optimized.antt =====
-- The benchmark with `optimized_thread_safe_queue<int>`, and one run of it for every range.
use concurrencycourse.Prelude.{
  ℕ, zero, suc, ◌+◌, ◌≤◌, ◌<◌, ◌≡◌, refl, ap, ◌∙◌, fun_ext, false, none, some, [], ◌∷◌, ◌++◌, arith,
  length, length-append, update,
}
use concurrencycourse.OptimizedQueue.Memory.{Ptr, Memory, ok}
use concurrencycourse.OptimizedQueue.Methods.{at_tail, construct}
use concurrencycourse.OptimizedQueue.Chain.{Cells, Holds, tail-dummy}
use concurrencycourse.OptimizedQueue.Push.{push-Pushed, Pushed-Holds, construct-IsQueue}
use concurrencycourse.OptimizedQueue.Pop.{at_tail-empty, at_tail-cons}
use concurrencycourse.OptimizedQueue.Threads
use concurrencycourse.OptimizedQueue.Threads.{
  System, Pc, outside, pushing, locking, testing, blocking, sleeping, woken, waits, calls_push,
  pushes, notifies, notifies_nobody, calls_take, locks, compares, sleeps, wakes_up, relocks, takes,
  releases,
}
use concurrencycourse.QueueBench.{
  first_values, Queue, Bench, Step, produces, consumes, goes_on, Reach, start, later,
}

-- `optimized_thread_safe_queue<int>` and the two threads that use it; its constructor's `new` returns
-- `fresh`.
abbrev pub optimized : {A : Type 0} → Ptr → Queue A
optimized {A} fresh = record {
  State = System A;
  Place = Pc A;
  place = λ s. s.pc;
  at_place = λ s i p. record s { pc = update s.pc i p };
  Moves = Threads.Step 2;
  fresh = Threads.init fresh;
  outside = outside;
  sleeping = sleeping;
  pushing = pushing;
  popping = locking waits;
}

module _ {A : Type 0} (fresh : Ptr) (range : ℕ) (rand : ℕ → A) where
  -- The producer is outside after `k` pushes, and the consumer is at `p`, in its first round.
  record Ahead (k : ℕ) (p : Pc A) (s : Bench (optimized fresh)) : Type 0 where
    reached : Reach (optimized fresh) range rand s
    pc : s.system.pc ≡ update (λ _. outside) 1 p
    owner : s.system.head_owner ≡ some 1
    produced : s.produced ≡ k
    consumed : s.consumed ≡ 1
    pushed : s.system.pushed ≡ first_values rand k
    popped : s.system.popped ≡ []
    cells : Cells A
    holds : Holds s.system.memory cells
    filled : length cells ≡ k
    next : Ptr
    unused : (a : Ptr) → next ≤ a → s.system.memory.heap a ≡ none

  Ahead-at_first : 0 < range → (s : Bench (optimized fresh)) × Ahead 0 blocking s
  unfolding construct
  Ahead-at_first lt = (
    _,
    record {
      reached =
          later
            (later (later start (consumes lt refl))
              (goes_on (locks 1 waits (omega arith) refl refl) (λ i out. ground (arith, out))))
            (goes_on
              (compares 1 waits (omega arith) refl (at_tail-empty (construct-IsQueue fresh).holds))
              (λ i out. ground (arith, out)));
      pc = fun_ext (λ i. ground arith);
      owner = refl;
      produced = refl;
      consumed = refl;
      pushed = refl;
      popped = refl;
      cells = [];
      holds = (construct-IsQueue fresh).holds;
      filled = refl;
      next = fresh + 1;
      unused = λ a le. ground arith;
    },
  )

  Ahead-again :
      {k : ℕ} {s : Bench (optimized fresh)}
      → k < range
      → Ahead k blocking s
      → (t : Bench (optimized fresh)) × Ahead (suc k) blocking t
  Ahead-again {k} {s} lt is =
      let at : (i : ℕ) → s.system.pc i ≡ update (λ _. outside) 1 blocking i =
        λ i. ap (λ f. f i) is.pc in
      let unused = is.unused is.next (omega arith) in
      let (m, ran, did) =
        push-Pushed is.next (rand s.produced) s.system.memory
          (tail-dummy s.system.memory.heap is.cells s.system.memory.tail is.holds.chain) unused in
      (
        _,
        record {
          reached =
              later
                (later (later is.reached (produces (omega (arith, lt, is.produced)) (at 0))) (
                  goes_on (pushes 0 (rand s.produced) is.next (omega arith) refl unused ran)
                    (λ i out. ground (arith, out, at i))))
                (goes_on
                  (notifies_nobody 0 (omega arith) refl (λ i lt'' q. ground (arith, at i, q)))
                  (λ i out. ground (arith, out, at i)));
          pc = fun_ext (λ i. ground (arith, at i));
          owner = is.owner;
          produced = omega (arith, is.produced);
          consumed = is.consumed;
          pushed =
              ap (λ xs. xs ++ rand s.produced ∷ []) is.pushed
              ∙ ap (λ i. first_values rand k ++ rand i ∷ []) is.produced;
          popped = is.popped;
          cells = is.cells ++ (s.system.memory.tail, rand s.produced) ∷ [];
          holds = Pushed-Holds is.next (rand s.produced) is.holds unused did;
          filled = omega (
            arith,
            length-append is.cells ((s.system.memory.tail, rand s.produced) ∷ []),
            is.filled,
          );
          next = is.next + 1;
          unused = λ a le. ground (
            arith,
            did.same a,
            unused,
            is.unused a,
            tail-dummy s.system.memory.heap is.cells s.system.memory.tail is.holds.chain,
          );
        },
      )

  Ahead-of : 0 < range → (k : ℕ) → k ≤ range → (s : Bench (optimized fresh)) × Ahead k blocking s
  Ahead-of some_left zero le = Ahead-at_first some_left
  Ahead-of some_left (suc k) le =
      Ahead-again (omega (arith, le)) (Ahead-of some_left k (omega (arith, le))).1

  -- The producer is done, the consumer sleeps though every item is in the queue, and no step is left
  -- but a spurious wakeup.
  pub record Hangs (s : Bench (optimized fresh)) : Type 0 where
    pub produced : s.produced ≡ range
    pub producer : s.system.pc 0 ≡ outside
    pub consumer : s.system.pc 1 ≡ sleeping
    pub pushed : s.system.pushed ≡ first_values rand range
    pub popped : s.system.popped ≡ []
    pub has_items : at_tail s.system.memory ≡ ok false s.system.memory
    pub stuck :
        (t : Bench (optimized fresh))
        → Step (optimized fresh) range rand s t
        → t.system.pc 1 ≡ woken

  filled_at_tail :
      {m : Memory A} (cells : Cells A) → Holds m cells → 0 < length cells → at_tail m ≡ ok false m
  filled_at_tail [] is some_left = absurd (omega (arith, some_left))
  filled_at_tail (_ ∷ cells) is some_left = at_tail-cons is

  only_wakes :
      {s t : System A}
      → ((i : ℕ) → s.pc i ≡ update (λ _. outside) 1 sleeping i)
      → Threads.Step 2 s t
      → ((i : ℕ) → s.pc i ≡ outside → t.pc i ≡ outside)
      → t.pc 1 ≡ woken
  only_wakes at (calls_push i v lt at_i) begun = ground (arith, at i, at_i, begun i)
  only_wakes at (calls_take i c lt at_i) begun = ground (arith, at i, at_i, begun i)
  only_wakes at (wakes_up i lt at_i) begun = ground (arith, at i, at_i)
  only_wakes at (pushes i v new lt at_i free ran) begun = ground (arith, at i, at_i)
  only_wakes at (notifies i j lt lt' at_i at_j) begun = ground (arith, at i, at_i)
  only_wakes at (notifies_nobody i lt at_i nobody) begun = ground (arith, at i, at_i)
  only_wakes at (locks i c lt at_i free) begun = ground (arith, at i, at_i)
  only_wakes at (compares i c lt at_i ran) begun = ground (arith, at i, at_i)
  only_wakes at (sleeps i lt at_i) begun = ground (arith, at i, at_i)
  only_wakes at (relocks i lt at_i free) begun = ground (arith, at i, at_i)
  only_wakes at (takes i lt at_i ran ran') begun = ground (arith, at i, at_i)
  only_wakes at (releases i p x lt at_i ran) begun = ground (arith, at i, at_i)

  stuck :
      {s t : Bench (optimized fresh)}
      → s.produced ≡ range
      → ((i : ℕ) → s.system.pc i ≡ update (λ _. outside) 1 sleeping i)
      → Step (optimized fresh) range rand s t
      → t.system.pc 1 ≡ woken
  stuck done at (produces lt out) = absurd (omega (arith, lt, done))
  stuck done at (consumes lt out) = ground (arith, at 1, out)
  stuck done at (goes_on st begun) = only_wakes at st begun

  falls_asleep :
      {s : Bench (optimized fresh)}
      → 0 < range
      → Ahead range blocking s
      → (t : Bench (optimized fresh)) × Reach (optimized fresh) range rand t × Hangs t
  falls_asleep {s} some_left is =
      let at : (i : ℕ) → s.system.pc i ≡ update (λ _. outside) 1 blocking i =
        λ i. ap (λ f. f i) is.pc in
      (
        _,
        later is.reached
            (goes_on (sleeps 1 (omega arith) (at 1)) (λ i out. ground (arith, out, at i))),
        record {
          produced = is.produced;
          producer = at 0;
          consumer = refl;
          pushed = is.pushed;
          popped = is.popped;
          has_items = filled_at_tail is.cells is.holds (omega (arith, some_left, is.filled));
          stuck = λ t st. stuck is.produced (λ i. ground (arith, at i)) st;
        },
      )

  -- With `optimized_thread_safe_queue<int>`, for every range but 0, whatever `rand` returns: the
  -- benchmark reaches a state in which `t1` has pushed all its values, all of them are in the queue,
  -- and `t2` sleeps in its first `wait_and_pop`; from there no step is possible but a spurious wakeup.
  pub hangs :
      0 < range → (s : Bench (optimized fresh)) × Reach (optimized fresh) range rand s × Hangs s
  hangs some_left = falls_asleep some_left (Ahead-of some_left range (omega arith)).1
