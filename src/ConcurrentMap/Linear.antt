-- ===== src/ConcurrentMap/Linear.antt =====
-- The threads of a map against a function of the keys that is changed by one call at a time.
use concurrencycourse.Prelude.{
  ℕ, ◌<◌, ◌≡◌, refl, sym, ap, subst, true, Option, none, some, List, [], ◌∷◌, ◌++◌, arith, ==_iff,
  update, update_elim,
}
use concurrencycourse.ConcurrentMap.Ordered.{Less, IsSorted}
use concurrencycourse.ConcurrentMap.Threads.{
  Call, Reply, Program, Pc, Event, Shared, System, body, after_body, Move, Step, start_of, Reach,
  running, locking, inside, working, leaving, call_map, lock, look, write, unlock, moves, here,
  later,
}
use concurrencycourse.ConcurrentMap.Calls.{
  view_of, Replays, none_ran, then_ran, own, Ran, not_begun, replied, rest, has_lock, seen,
  seen-has_lock, body-Spec, own_self, own-other,
}

module _ {K V : Type 0} ⦃o : Less K⦄ where
  module _ {R : Type 0} (n : ℕ) (pairs₀ : List (K × V)) (programs : ℕ → Program K V R) where
    pub record Inv (s : System K V R) : Type 0 where
      pub sorted : IsSorted s.shared.pairs
      pub replays : Replays (view_of pairs₀) s.shared.log (view_of s.shared.pairs)
      pub ran : (i : ℕ) → Ran (programs i) (own i s.shared.log) (rest (s.pc i))
      pub holder : (i : ℕ) → has_lock (s.pc i) ≡ true → s.shared.owner ≡ some i
      pub held : (i : ℕ) → s.shared.owner ≡ some i → (i < n) × (has_lock (s.pc i) ≡ true)
      -- No other thread changed the map since a thread in a body looked into it.
      pub fresh :
          (i : ℕ) (pairs : List (K × V)) → seen (s.pc i) ≡ some pairs → s.shared.pairs ≡ pairs

    -- A thread goes on, and no body runs.
    quiet-Inv :
        {s : System K V R} (i : ℕ) (p : Pc K V R) (owner : Option ℕ)
        → Inv s
        → rest p ≡ rest (s.pc i)
        → ((j : ℕ) → has_lock (update s.pc i p j) ≡ true → owner ≡ some j)
        → ((j : ℕ) → owner ≡ some j → (j < n) × (has_lock (update s.pc i p j) ≡ true))
        → ((pairs : List (K × V)) → seen p ≡ some pairs → s.shared.pairs ≡ pairs)
        → Inv (record s { shared = record (s.shared) { owner = owner }; pc = update s.pc i p })
    quiet-Inv {s} i p owner inv same holds held new = record {
      sorted = inv.sorted;
      replays = inv.replays;
      ran =
          update_elim (λ j q. Ran (programs j) (own j s.shared.log) (rest q)) s.pc i p
            (subst (Ran (programs i) (own i s.shared.log)) (sym same) (inv.ran i))
            (λ j ne. inv.ran j);
      holder = holds;
      held = held;
      fresh =
          update_elim (λ j q. (pairs : List (K × V)) → seen q ≡ some pairs → s.shared.pairs ≡ pairs)
            s.pc i p new (λ j ne. inv.fresh j);
    }

    body-Inv :
        {s : System K V R} (i : ℕ) (c : Call K V) (k : Reply K V → Program K V R)
        (looked : List (K × V))
        → Inv s
        → s.pc i ≡ working c k looked
        → Inv (record {
          shared = after_body i c looked s.shared;
          pc = update s.pc i (leaving (body c looked).0 k);
        })
    body-Inv {s} i c k looked inv e =
        let (replied_by, pairs) = body c looked in
        let event : Event K V = record { thread = i; call = c; reply = replied_by } in
        let same : s.shared.pairs ≡ looked = inv.fresh i looked (ap seen e) in
        let (spec, still_sorted) = body-Spec c looked (subst IsSorted same inv.sorted) in
        let mine =
          replied event (subst (Ran (programs i) (own i s.shared.log)) (ap rest e) (inv.ran i)) in
        record {
          sorted = still_sorted;
          replays =
              then_ran event
                (subst (λ l. Replays (view_of pairs₀) s.shared.log (view_of l)) same inv.replays)
                spec;
          ran =
              update_elim (λ j q. Ran (programs j) (own j (s.shared.log ++ event ∷ [])) (rest q))
                s.pc i (leaving replied_by k)
                (subst (λ log. Ran (programs i) log (k replied_by))
                  (sym (own_self s.shared.log event)) mine)
                (λ j ne.
                  subst (λ log. Ran (programs j) log (rest (s.pc j)))
                    (sym (own-other j s.shared.log event ne)) (inv.ran j));
          holder = λ j h. ground (arith, e, inv.holder j, inv.holder i);
          held = λ j h. ground (arith, e, inv.held j);
          fresh =
              update_elim (λ j q. (l : List (K × V)) → seen q ≡ some l → pairs ≡ l) s.pc i
                (leaving replied_by k) (λ l h. cc h)
                (λ j ne l h. absurd (
                  ne (cc (inv.holder j (seen-has_lock (s.pc j) h), inv.holder i (ap has_lock e)))));
        }

    Move-Inv :
        {s : System K V R} {m : Shared K V} {p p' : Pc K V R} (i : ℕ)
        → Inv s
        → i < n
        → s.pc i ≡ p
        → Move i s.shared p m p'
        → Inv (record { shared = m; pc = update s.pc i p' })
    Move-Inv {s} i inv lt e (call_map {c} {k}) =
        quiet-Inv i (locking c k) s.shared.owner inv (ap rest (sym e))
          (λ j h. ground (arith, e, inv.holder j)) (λ j h. ground (arith, e, inv.held j))
          (λ l h. cc h)
    Move-Inv {s} i inv lt e (lock {c} {k} free) =
        quiet-Inv i (inside c k) (some i) inv (ap rest (sym e))
          (λ j h. ground (arith, e, free, inv.holder j, ==_iff i j))
          (λ j h. ground (arith, ==_iff i j)) (λ l h. cc h)
    Move-Inv {s} i inv lt e (look {c} {k}) =
        quiet-Inv i (working c k s.shared.pairs) s.shared.owner inv (ap rest (sym e))
          (λ j h. ground (arith, e, inv.holder j, inv.holder i))
          (λ j h. ground (arith, e, inv.held j)) (λ l h. cc h)
    Move-Inv i inv lt e (write {c} {k} {seen = looked}) = body-Inv i c k looked inv e
    Move-Inv {s} i inv lt e (unlock {r} {k}) =
        quiet-Inv i (running (k r)) none inv (ap rest (sym e))
          (λ j h. ground (arith, e, inv.holder j, inv.holder i, ==_iff i j)) (λ j h. cc h)
          (λ l h. cc h)

    Step-Inv : {s t : System K V R} → Step n s t → Inv s → Inv t
    Step-Inv (moves i lt mv) inv = Move-Inv i inv lt refl mv

    pub Reach-Inv :
        {s : System K V R} → IsSorted pairs₀ → Reach n (start_of pairs₀ programs) s → Inv s
    Reach-Inv sorted here = record {
      sorted = sorted;
      replays = none_ran;
      ran = λ i. not_begun;
      holder = λ i h. cc h;
      held = λ i h. cc h;
      fresh = λ i l h. cc h;
    }
    Reach-Inv sorted (later r st) = Step-Inv st (Reach-Inv sorted r)

    -- The map is linearizable: from any map with its keys in order, whatever programs the threads run
    -- and however they interleave, also between the reads and the writes of a body, the bodies that
    -- ended so far are, in their order, calls on a function of the keys that is changed at one key at a
    -- time, with the same replies, and each thread has made its own calls in the order of its program
    -- and has been given these replies.
    pub linearizable :
        {s : System K V R} (i : ℕ)
        → IsSorted pairs₀
        → Reach n (start_of pairs₀ programs) s
        → Replays (view_of pairs₀) s.shared.log (view_of s.shared.pairs)
          × Ran (programs i) (own i s.shared.log) (rest (s.pc i))
    linearizable i sorted r = let inv = Reach-Inv sorted r in (inv.replays, inv.ran i)
