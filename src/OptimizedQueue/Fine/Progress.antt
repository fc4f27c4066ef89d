-- ===== src/OptimizedQueue/Fine/Progress.antt =====
-- Which threads can go on, with both mutexes of src/OptimizedThreadSafeQueue.h explicit.
use concurrencycourse.Prelude.{
  ℕ, ◌<◌, ◌≡◌, refl, sym, ap, ◌∙◌, ◌≢◌, ◌⊎◌, inl, inr, none, arith, ==_iff, Option-cases, update,
  has,
}
use concurrencycourse.OptimizedQueue.Memory.{Ptr}
use concurrencycourse.OptimizedQueue.Chain.{has-tail}
use concurrencycourse.OptimizedQueue.Threads.{
  Pc, System, Step, outside, pushing, taking, releasing, sleeping, calls_push, pushes, notifies,
  notifies_nobody, calls_take, locks, compares, sleeps, wakes_up, relocks, takes, releases,
}
use concurrencycourse.OptimizedQueue.Progress.{calls_go_on}
use concurrencycourse.OptimizedQueue.Fine.{
  Place, stands, made, entered, filled, linked, Fine, pc_of, plain, merge, with_plain, Allowed,
  FineReach, others,
}
use concurrencycourse.OptimizedQueue.Fine.Near.{same_node, fresh-none}
use concurrencycourse.OptimizedQueue.Fine.Calls.{take_lem, release_lem, at_tail_lem, keeps_push}
use concurrencycourse.OptimizedQueue.Fine.Seen.{seen, Seen, here_Inv, head_node}
use concurrencycourse.OptimizedQueue.Fine.Refines.{fine-Refines}
use concurrencycourse.OptimizedQueue.Fine.Writes.{FineGoes, Reach-InRange, owner-Goes, pusher-Goes}

module _ {A : Type 0} where
  merge-moves :
      (p : Place A) (c : Pc A)
      → ((v : A) → pc_of p ≡ pushing v → c ≡ pushing v)
      → c ≢ pc_of p
      → merge p c ≢ p
  merge-moves (stands d) c keep moved e = moved (ap pc_of e)
  merge-moves (made v p) c keep moved e = moved (keep v refl)
  merge-moves (entered v p) c keep moved e = moved (keep v refl)
  merge-moves (filled v p) c keep moved e = moved (keep v refl)
  merge-moves (linked v p) c keep moved e = moved (keep v refl)

  take_moves :
      (pc : ℕ → Pc A) (i j : ℕ) (p q : Ptr) (x y : A)
      → pc i ≡ taking
      → update pc i (releasing p x) j ≢ pc j
      → update pc i (releasing q y) j ≢ pc j
  take_moves pc i j p q x y e moved h = ground (arith, h, e, moved, ==_iff i j)

  -- A thread that is not within a `push` stands at the place that `Threads` shows.
  stands_at : (p : Place A) (c : Pc A) → pc_of p ≡ c → ((v : A) → c ≢ pushing v) → p ≡ stands c
  stands_at (stands d) c e out = ap stands e
  stands_at (made v p) c e out = absurd (out v (sym e))
  stands_at (entered v p) c e out = absurd (out v (sym e))
  stands_at (filled v p) c e out = absurd (out v (sym e))
  stands_at (linked v p) c e out = absurd (out v (sym e))

  module _ {n : ℕ} {s : Fine A} where
    -- A step of `Threads` that is allowed here.
    other-Goes :
        {t : System A} (j : ℕ) (st : Step n (plain s) t)
        → Allowed s.tail_owner st
        → j < n
        → pc_of (s.place j) ≢ outside
        → pc_of (s.place j) ≢ sleeping
        → t.pc j ≢ pc_of (s.place j)
        → FineGoes n s
    other-Goes {t} j st may lt begun awake moved = record {
      thread = j;
      is_thread = lt;
      is_begun = λ e. begun (ap pc_of e);
      is_awake = λ e. awake (ap pc_of e);
      then_at = with_plain s t;
      step = others st may;
      moved = merge-moves (s.place j) (t.pc j) (keeps_push s.tail_owner st may j) moved;
    }

    -- With `tail_mutex` free, a step of `Threads` shows one here.
    seen-Goes :
        (fresh : Ptr) {first_node : Ptr} (is : Seen n first_node s) {t : System A} (j : ℕ)
        → s.memory.heap fresh ≡ none
        → s.tail_owner ≡ none
        → j < n
        → pc_of (s.place j) ≢ outside
        → pc_of (s.place j) ≢ sleeping
        → Step n (seen s is.memory) t
        → t.pc j ≢ pc_of (s.place j)
        → FineGoes n s
    seen-Goes fresh is j unused free lt begun awake (pushes i v p lt' e none_there ran) moved =
        pusher-Goes fresh i (s.place i) lt' unused free refl e (is.near.owner i)
    seen-Goes fresh is j unused free lt begun awake (calls_push i v lt' e) moved =
        other-Goes j (calls_push i v lt' e) tt lt begun awake moved
    seen-Goes fresh is j unused free lt begun awake (notifies i k lt' lt'' e e') moved =
        other-Goes j (notifies i k lt' lt'' e e') tt lt begun awake moved
    seen-Goes fresh is j unused free lt begun awake (notifies_nobody i lt' e nobody) moved =
        other-Goes j (notifies_nobody i lt' e nobody) tt lt begun awake moved
    seen-Goes fresh is j unused free lt begun awake (calls_take i c lt' e) moved =
        other-Goes j (calls_take i c lt' e) tt lt begun awake moved
    seen-Goes fresh is j unused free lt begun awake (locks i c lt' e unlocked) moved =
        other-Goes j (locks i c lt' e unlocked) tt lt begun awake moved
    seen-Goes fresh is j unused free lt begun awake (sleeps i lt' e) moved =
        other-Goes j (sleeps i lt' e) tt lt begun awake moved
    seen-Goes fresh is j unused free lt begun awake (wakes_up i lt' e) moved =
        other-Goes j (wakes_up i lt' e) tt lt begun awake moved
    seen-Goes fresh is j unused free lt begun awake (relocks i lt' e unlocked) moved =
        other-Goes j (relocks i lt' e unlocked) tt lt begun awake moved
    seen-Goes fresh is j unused free lt begun awake (compares i c lt' e test) moved =
        let (test_f, _) = at_tail_lem (sym is.near.head) (sym is.near.tail) test in
        other-Goes j (compares i c lt' e test_f) free lt begun awake moved
    seen-Goes fresh is j unused free lt begun awake (takes i {x} {p} lt' e reads unlinks) moved =
        let (cells, inv) = here_Inv is in
        let (q, y, next, at_head, at, ne) = head_node is cells inv.holds (inv.not_empty i e) in
        let (reads_f, unlinks_f) =
          take_lem s.memory q y next (is.near.head ∙ at_head) (same_node is.near at ne) in
        other-Goes j (takes i lt' e reads_f unlinks_f) tt lt begun awake
          (take_moves (λ k. pc_of (s.place k)) i j p q x y e moved)
    seen-Goes fresh is j unused free lt begun awake (releases i p x lt' e frees) moved =
        let (cells, inv) = here_Inv is in
        let flight = inv.flight i p x e in
        let ne : p ≢ is.memory.tail =
          λ q. ground (arith, q, flight.outside_list, has-tail cells is.memory.tail) in
        other-Goes j
          (releases i p x lt' e (release_lem s.memory p x (same_node is.near flight.node ne))) tt lt
          begun awake moved

  -- In every reachable state, in any interleaving of the calls and of the writes of each `push`, while
  -- `new` has an unused address to return: if any thread is in a call and not asleep in `wait_and_pop`,
  -- then some such thread can go on. So neither the two mutexes nor a fault stop the threads, and only
  -- those that sleep can be left in a call.
  pub fine_calls_go_on :
      {n : ℕ} {start_at : Ptr} {s : Fine A} (fresh : Ptr) (i : ℕ)
      → FineReach n start_at s
      → s.memory.heap fresh ≡ none
      → i < n
      → (s.place i ≡ stands outside) ⊎ (s.place i ≡ stands sleeping) ⊎ FineGoes n s
  fine_calls_go_on {n} {s} fresh i r unused lt =
      let is = fine-Refines r in
      elim (Option-cases s.tail_owner) [
        | inr (j, taken) ↦
            let (has, node) = is.near.busy_tail j taken in
            inr (
              inr (
                owner-Goes j (s.place j) (Reach-InRange r j has)
                  (ap s.memory.heap is.near.tail ∙ node) refl has))
        | inl free ↦ elim (calls_go_on fresh i is.reached (fresh-none is.near unused).0 lt) [
          | inl out ↦ inl (stands_at (s.place i) outside out (λ v e. cc e))
          | inr (inl asleep) ↦ inr (inl (stands_at (s.place i) sleeping asleep (λ v e. cc e)))
          | inr (inr on) ↦ inr (
              inr (
                seen-Goes fresh is on.thread unused free on.is_thread on.is_begun on.is_awake
                  on.step on.moved))
        ]
      ]
