-- ===== src/OptimizedQueue/Reached.antt =====
-- Each step of the threads keeps the invariant.
use concurrencycourse.Prelude.{
  ℕ, ◌≡◌, refl, sym, subst, ◌∙◌, ◌≢◌, Bool, true, false, none, some, [], arith, ==_iff, update,
}
use concurrencycourse.OptimizedQueue.Memory.{Ptr, ok}
use concurrencycourse.OptimizedQueue.Chain.{Cells, tail-dummy}
use concurrencycourse.OptimizedQueue.Push.{Pushed, push-Pushed, construct-IsQueue}
use concurrencycourse.OptimizedQueue.Threads.{
  Take, tries, waits, Pc, System, Step, Reach, start, later, outside, pushing, locking, testing,
  blocking, sleeping, woken, taking, releasing, calls_push, pushes, notifies, notifies_nobody,
  calls_take, locks, compares, sleeps, wakes_up, relocks, takes, releases, after_test,
  owner_after_test,
}
use concurrencycourse.OptimizedQueue.Invariant.{
  has_head, Inv, Inv-pc, at_tail-same, pushes-Inv, pop_head-Taken,
}
use concurrencycourse.OptimizedQueue.Steps.{takes-Inv, releases-Inv, release-Flight}

module _ {A : Type 0} {s : System A} {cells : Cells A} (inv : Inv s cells) (i : ℕ) where
  -- Thread `i` goes to a place without a mutex and a node.
  quiet :
      (c : Pc A)
      → has_head c ≡ false
      → ((p : Ptr) (x : A) → c ≢ releasing p x)
      → Inv (record s { pc = update s.pc i c }) cells
  quiet c free_of bare =
      Inv-pc inv (update s.pc i c) s.head_owner (λ j h. ground (arith, free_of, inv.holder j))
        (λ j h. inv.not_empty j (ground (arith, free_of, h)))
        (λ j p x h. ground (arith, bare p x, h))

  takes_lock :
      (k : Take)
      → s.head_owner ≡ none
      → Inv (record s { head_owner = some i; pc = update s.pc i (testing k) }) cells
  takes_lock k free =
      Inv-pc inv (update s.pc i (testing k)) (some i)
        (λ j h. ground (arith, free, inv.holder j, ==_iff i j))
        (λ j h. inv.not_empty j (ground (arith, h))) (λ j p x h. ground (arith, h))

  gives_lock :
      (c : Pc A)
      → has_head (s.pc i) ≡ true
      → has_head c ≡ false
      → ((p : Ptr) (x : A) → c ≢ releasing p x)
      → Inv (record s { head_owner = none; pc = update s.pc i c }) cells
  gives_lock c had free_of bare =
      Inv-pc inv (update s.pc i c) none
        (λ j h. ground (arith, had, free_of, inv.holder j, inv.holder i))
        (λ j h. inv.not_empty j (ground (arith, free_of, h)))
        (λ j p x h. ground (arith, bare p x, h))

  compared :
      (k : Take) (empty : Bool)
      → s.pc i ≡ testing k
      → (empty ≡ false → cells ≢ [])
      → Inv
          (record s {
            head_owner = owner_after_test k empty i;
            pc = update s.pc i (after_test k empty);
          })
          cells
  compared tries true e full = gives_lock outside (ground (arith, e)) refl (λ p x q. cc q)
  compared waits true e full =
      Inv-pc inv (update s.pc i blocking) (some i)
        (λ j h. ground (arith, e, inv.holder i, inv.holder j))
        (λ j h. inv.not_empty j (ground (arith, h))) (λ j p x h. ground (arith, h))
  compared k false e full =
      Inv-pc inv (update s.pc i taking) (some i)
        (λ j h. ground (arith, e, inv.holder i, inv.holder j)) (λ j h. full refl)
        (λ j p x h. ground (arith, h))

module _ {A : Type 0} {n : ℕ} where
  Step-Inv :
      {s t : System A} {cells : Cells A} → Step n s t → Inv s cells → (rest : Cells A) × Inv t rest
  Step-Inv {cells} (calls_push i v lt e) inv = (cells, quiet inv i (pushing v) refl (λ p x q. cc q))
  Step-Inv {s} {cells} (pushes i v fresh {m} lt e free ran) inv =
      let at_dummy = tail-dummy s.memory.heap cells s.memory.tail inv.holds.chain in
      let (m', ran', did) = push-Pushed fresh v s.memory at_dummy free in
      let same : ok tt m' ≡ ok tt m = sym ran' ∙ ran in
      (_, pushes-Inv i v fresh inv e free (subst (Pushed fresh v s.memory) (cc same) did))
  Step-Inv {cells} (notifies i j lt lt' e e') inv =
      (cells, quiet (quiet inv i outside refl (λ p x q. cc q)) j woken refl (λ p x q. cc q))
  Step-Inv {cells} (notifies_nobody i lt e nobody) inv =
      (cells, quiet inv i outside refl (λ p x q. cc q))
  Step-Inv {cells} (calls_take i c lt e) inv = (cells, quiet inv i (locking c) refl (λ p x q. cc q))
  Step-Inv {cells} (locks i c lt e free) inv = (cells, takes_lock inv i c free)
  Step-Inv {s} {cells} (compares i c {empty} {m} lt e test) inv =
      let (same, is_empty, is_full) = at_tail-same inv.holds test in
      (
        cells,
        subst
            (λ m.
              Inv
                (record s {
                  memory = m;
                  head_owner = owner_after_test c empty i;
                  pc = update s.pc i (after_test c empty);
                })
                cells)
            (sym same) (compared inv i c empty e is_full),
      )
  Step-Inv {cells} (sleeps i lt e) inv =
      (cells, gives_lock inv i sleeping (ground (arith, e)) refl (λ p x q. cc q))
  Step-Inv {cells} (wakes_up i lt e) inv = (cells, quiet inv i woken refl (λ p x q. cc q))
  Step-Inv {cells} (relocks i lt e free) inv = (cells, takes_lock inv i waits free)
  Step-Inv (takes i lt e reads unlinks) inv =
      let (rest, took) = pop_head-Taken inv.holds (inv.not_empty i e) reads unlinks in
      (rest, takes-Inv i inv e took)
  Step-Inv {s} {cells} (releases i p x {item} {m} lt e frees) inv = (
    cells,
    subst (λ m. Inv (record s { memory = m; pc = update s.pc i outside }) cells)
        (sym (release-Flight (inv.flight i p x e) frees)) (releases-Inv i inv e),
  )

  pub Reach-Inv : {fresh : Ptr} {s : System A} → Reach n fresh s → (cells : Cells A) × Inv s cells
  Reach-Inv {fresh} start = (
    [],
    record {
      holds = (construct-IsQueue fresh).holds;
      fifo = refl;
      holder = λ i h. cc h;
      not_empty = λ i h. cc h;
      flight = λ i p x h. cc h;
      apart = λ i j p x y h. cc h;
    },
  )
  Reach-Inv (later r st) = Step-Inv st (Reach-Inv r).1
