-- ===== src/OptimizedQueue/Fine/Pushing.antt =====
-- The steps of a `push` leave the memory near that of `Threads`, and the last one is its step there.
use concurrencycourse.Prelude.{
  ℕ, ◌≡◌, sym, ap, ◌∙◌, ◌≢◌, true, false, Option, none, some, arith, ℕ_discrete, ==_iff, update,
  has,
}
use concurrencycourse.OptimizedQueue.Memory.{Ptr, Memory}
use concurrencycourse.OptimizedQueue.Push.{dummy, Pushed}
use concurrencycourse.OptimizedQueue.Threads.{notifying}
use concurrencycourse.OptimizedQueue.Fine.{Place, stands, made, entered, linked}
use concurrencycourse.OptimizedQueue.Fine.Near.{own_node, has_tail, tail_node, Near, fresh-none}

module _ {A : Type 0} {m mc : Memory A} {tail_owner : Option ℕ} {place : ℕ → Place A}
    (near : Near m tail_owner place mc) (at_dummy : mc.heap mc.tail ≡ some dummy) (i : ℕ) where
  -- Thread `i` goes on in its `push`, and may write to the node at the tail.
  same_own :
      (p' : Place A)
      → own_node p' ≡ own_node (place i)
      → (j : ℕ) → own_node (update place i p' j) ≡ own_node (place j)
  same_own p' e j = ground (arith, e, ==_iff i j)

  pub makes-Near :
      (v : A) {fresh : Ptr}
      → own_node (place i) ≡ none
      → has_tail (place i) ≡ false
      → m.heap fresh ≡ none
      → Near
          (record m { heap = update m.heap fresh (some dummy) })
          tail_owner
          (update place i (made v fresh))
          mc
  makes-Near v {fresh} bare outside_tail free =
      let (free', none_has, ne) = fresh-none near free in
      record {
        head = near.head;
        tail = near.tail;
        same = λ a ne' all. ground (
          arith,
          all i,
          ==_iff i i,
          near.same a ne' (λ j e. ground (arith, e, bare, all j, ==_iff i j)),
        );
        hidden = λ j a e. ground (arith, e, free', none_has j, near.hidden j a, ==_iff i j);
        apart = λ j k a e e'.
            ground (arith, e, e', none_has j, none_has k, near.apart j k a, ==_iff i j, ==_iff i k);
        idle_tail = λ e. ground (arith, ne, near.idle_tail e);
        busy_tail = λ j e. ground (arith, ne, outside_tail, near.busy_tail j e, ==_iff i j);
        owner = λ j h. ground (arith, h, near.owner j, ==_iff i j);
      }

  pub locks_tail-Near :
      {v : A} {p : Ptr}
      → place i ≡ made v p
      → tail_owner ≡ none
      → Near m (some i) (update place i (entered v p)) mc
  locks_tail-Near {v} {p} at free = record {
    head = near.head;
    tail = near.tail;
    same = λ a ne all.
        near.same a ne (λ j e. all j (same_own (entered v p) (ground (arith, at)) j ∙ e));
    hidden = λ j a e. near.hidden j a (sym (same_own (entered v p) (ground (arith, at)) j) ∙ e);
    apart = λ j k a e e'.
        near.apart j k a (sym (same_own (entered v p) (ground (arith, at)) j) ∙ e)
          (sym (same_own (entered v p) (ground (arith, at)) k) ∙ e');
    idle_tail = λ e. cc e;
    busy_tail = λ j e. ground (arith, e, near.idle_tail free, ==_iff i j);
    owner = λ j h. ground (arith, free, h, near.owner j, ==_iff i j);
  }

  -- A write to the node at the tail, by the thread that has `tail_mutex`.
  pub writes-Near :
      (p' : Place A)
      → has_tail (place i) ≡ true
      → has_tail p' ≡ true
      → own_node p' ≡ own_node (place i)
      → Near
          (record m { heap = update m.heap mc.tail (some (tail_node p')) })
          tail_owner
          (update place i p')
          mc
  writes-Near p' has has' own =
      let mine : tail_owner ≡ some i = near.owner i has in
      record {
        head = near.head;
        tail = near.tail;
        same =
            λ a ne all. ground (arith, ne, near.same a ne (λ j e. all j (same_own p' own j ∙ e)));
        hidden = λ j a e.
            let (free, at) = near.hidden j a (sym (same_own p' own j) ∙ e) in
            (free, ground (arith, at, free, at_dummy));
        apart = λ j k a e e'.
            near.apart j k a (sym (same_own p' own j) ∙ e) (sym (same_own p' own k) ∙ e');
        idle_tail = λ e. cc (e, mine);
        busy_tail = λ j e. ground (arith, e, mine, has', ==_iff i j);
        owner = λ j h. ground (arith, h, mine, near.owner j, ==_iff i j);
      }

  -- The last write: what `push` has done in one step is near what the thread has done.
  pub sets_tail-Near :
      {v : A} {p : Ptr} {mc' : Memory A}
      → place i ≡ linked v p
      → Pushed p v mc mc'
      → Near (record m { tail = p }) none (update place i (stands notifying)) mc'
  sets_tail-Near {v} {p} {mc'} at did =
      let mine : tail_owner ≡ some i = near.owner i (ground (arith, at)) in
      let (_, node) = near.busy_tail i mine in
      let (free, own) = near.hidden i p (ground (arith, at)) in
      record {
        head = near.head ∙ sym did.head;
        tail = sym did.tail;
        same = λ a ne all. elim (ℕ_discrete a mc.tail) [
          | yes last ↦ ground (arith, last, at, node, did.filled)
          | no inner ↦
              let ne' : a ≢ p = λ e. ne (e ∙ sym did.tail) in
              near.same a inner (λ j e. ground (arith, e, at, ne', all j, ==_iff i j))
              ∙ sym (did.same a inner ne')
        ];
        hidden = λ j a e.
            let old : own_node (place j) ≡ some a = ground (arith, e, ==_iff i j) in
            let (free', here) = near.hidden j a old in
            let ne : a ≢ p =
              λ q. ground (arith, e, near.apart i j a (ground (arith, at, q)) old, ==_iff i j) in
            (did.same a (λ q. cc (ap mc.heap q, free', at_dummy)) ne ∙ free', here);
        apart = λ j k a e e'.
            near.apart j k a (ground (arith, e, ==_iff i j)) (ground (arith, e', ==_iff i k));
        idle_tail = λ e. ap m.heap did.tail ∙ own;
        busy_tail = λ j e. cc e;
        owner = λ j h. ground (arith, h, mine, near.owner j, ==_iff i j);
      }
