-- ===== src/ConcurrentMap/Readers.antt =====
-- The threads of `bench_body` in src/5_concurrent_map_2.cpp, each the function that is given to
-- `std::async`. The result is none if `value()` throws.
use concurrencycourse.Prelude.{
  ℕ, zero, suc, ◌+◌, ◌%◌, ◌<◌, ◌≡◌, refl, sym, ap, subst, ◌∙◌, Option, none, some, List, arith,
  update, update_elim,
}
use concurrencycourse.ConcurrentMap.Methods.{ConcurrentMap, returns, empty}
use concurrencycourse.ConcurrentMap.Laws.{view}
use concurrencycourse.ConcurrentMap.Programs.{nat_less, map_size}
use concurrencycourse.ConcurrentMap.Bench.{fill, expected_sum, fill-Filled}
use concurrencycourse.ConcurrentMap.Threads.{
  Call, Reply, Program, Pc, Shared, System, body, after_body, Pc, Move, start_of, Reach, gets, got,
  finished, calls, running, locking, inside, working, leaving, call_map, lock, look, write, unlock,
  moves, here, later,
}
use concurrencycourse.ConcurrentMap.Calls.{view_of, rest, seen}

module _ {V : Type 0} (stoi : V → ℕ) where
  abbrev pub value_of : Reply ℕ V → Option V
  value_of (got value) = value
  value_of _ = none

  -- The loop from `i` on, with `left` rounds to go.
  unfoldable pub reads : ℕ → ℕ → ℕ → Program ℕ V (Option ℕ)
  reads zero i sum = finished (some sum)
  reads (suc left) i sum = calls (gets (i % map_size)) λ r. elim (value_of r) [
    | none ↦ finished none
    | some value ↦ reads left (suc i) (sum + stoi value)
  ]

  module _ (text : ℕ → V) (range : ℕ) where
    call_of : Call ℕ V → Program ℕ V (Option ℕ) → Call ℕ V
    call_of c (finished _) = c
    call_of c (calls d _) = d

    next_of : Program ℕ V (Option ℕ) → Reply ℕ V → Program ℕ V (Option ℕ)
    next_of (finished r) reply = finished r
    next_of (calls _ k) reply = k reply

    -- A thread that has read what was stored so far.
    data IsReading : Program ℕ V (Option ℕ) → Type 0 where
      reading :
          (left i : ℕ) → i + left ≡ range → IsReading (reads left i (expected_sum stoi text i))

    IsReading-finished :
        {p : Program ℕ V (Option ℕ)} {r : Option ℕ}
        → IsReading p
        → p ≡ finished r
        → r ≡ some (expected_sum stoi text range)
    unfolding reads
    IsReading-finished {r = r} (reading zero i e) q =
        let ends : some (expected_sum stoi text i) ≡ r = cc q in
        sym ends ∙ ap (λ j. some (expected_sum stoi text j)) (omega (arith, e))
    IsReading-finished (reading (suc left) i e) q = cc q

    IsReading-calls :
        {p : Program ℕ V (Option ℕ)} {c : Call ℕ V} {k : Reply ℕ V → Program ℕ V (Option ℕ)}
        → IsReading p
        → p ≡ calls c k
        → (key : ℕ) × (key < map_size) × (c ≡ gets key) × IsReading (k (got (some (text key))))
    unfolding reads expected_sum call_of next_of
    IsReading-calls (reading zero i e) q = cc q
    IsReading-calls {c} {k} (reading (suc left) i e) q =
        let key = i % map_size in
        let next : IsReading (reads left (suc i) (expected_sum stoi text (suc i))) =
          reading left (suc i) (omega (arith, e)) in
        (
          key,
          omega arith,
          sym (ap (call_of c) q),
          subst IsReading (ap (λ p. next_of p (got (some (text key)))) q) next,
        )

    record Inv (m : ConcurrentMap ℕ V) (s : System ℕ V (Option ℕ)) : Type 0 where
      same : s.shared.pairs ≡ m.pairs
      each : (i : ℕ) → IsReading (rest (s.pc i))
      looked : (i : ℕ) (pairs : List (ℕ × V)) → seen (s.pc i) ≡ some pairs → pairs ≡ m.pairs

    module _ {m : ConcurrentMap ℕ V}
        (filled : (i : ℕ) → i < map_size → view m i ≡ some (text i)) where
      quiet-Inv :
          {s : System ℕ V (Option ℕ)} (i : ℕ) (p : Pc ℕ V (Option ℕ)) (owner : Option ℕ)
          → Inv m s
          → rest p ≡ rest (s.pc i)
          → ((pairs : List (ℕ × V)) → seen p ≡ some pairs → pairs ≡ m.pairs)
          → Inv m (record s { shared = record (s.shared) { owner = owner }; pc = update s.pc i p })
      quiet-Inv {s} i p owner inv e new = record {
        same = inv.same;
        each =
            update_elim (λ j q. IsReading (rest q)) s.pc i p (subst IsReading (sym e) (inv.each i))
              (λ j ne. inv.each j);
        looked =
            update_elim (λ j q. (l : List (ℕ × V)) → seen q ≡ some l → l ≡ m.pairs) s.pc i p new
              (λ j ne. inv.looked j);
      }

      body-Inv :
          {s : System ℕ V (Option ℕ)} (i : ℕ) (c : Call ℕ V)
          (k : Reply ℕ V → Program ℕ V (Option ℕ)) (saw : List (ℕ × V))
          → Inv m s
          → s.pc i ≡ working c k saw
          → Inv m (record {
            shared = after_body i c saw s.shared;
            pc = update s.pc i (leaving (body c saw).0 k);
          })
      unfolding body
      body-Inv {s} i c k saw inv e =
          let (key, small, is_get, next) = IsReading-calls (inv.each i) (ap rest e) in
          let is_saw : saw ≡ m.pairs = inv.looked i saw (ap seen e) in
          let same : (body c saw).1 ≡ saw = subst (λ d. (body d saw).1 ≡ saw) (sym is_get) refl in
          let found : (body c saw).0 ≡ got (some (text key)) =
            subst (λ d. (body d saw).0 ≡ got (some (text key))) (sym is_get)
              (ap (λ pairs. got (view_of pairs key)) is_saw ∙ ap got (filled key small)) in
          record {
            same = same ∙ is_saw;
            each =
                update_elim (λ j q. IsReading (rest q)) s.pc i (leaving (body c saw).0 k)
                  (subst (λ r. IsReading (k r)) (sym found) next) (λ j ne. inv.each j);
            looked =
                update_elim (λ j q. (l : List (ℕ × V)) → seen q ≡ some l → l ≡ m.pairs) s.pc i
                  (leaving (body c saw).0 k) (λ l h. cc h) (λ j ne. inv.looked j);
          }

      Move-Inv :
          {s : System ℕ V (Option ℕ)} {m' : Shared ℕ V} {p p' : Pc ℕ V (Option ℕ)} (i : ℕ)
          → Inv m s
          → s.pc i ≡ p
          → Move i s.shared p m' p'
          → Inv m (record { shared = m'; pc = update s.pc i p' })
      Move-Inv {s} i inv e (call_map {c} {k}) =
          quiet-Inv i (locking c k) s.shared.owner inv (ap rest (sym e)) (λ l h. cc h)
      Move-Inv i inv e (lock {c} {k} free) =
          quiet-Inv i (inside c k) (some i) inv (ap rest (sym e)) (λ l h. cc h)
      Move-Inv {s} i inv e (look {c} {k}) =
          quiet-Inv i (working c k s.shared.pairs) s.shared.owner inv (ap rest (sym e))
            (λ l h. cc (h, inv.same))
      Move-Inv i inv e (write {c} {k} {seen = saw}) = body-Inv i c k saw inv e
      Move-Inv i inv e (unlock {r} {k}) =
          quiet-Inv i (running (k r)) none inv (ap rest (sym e)) (λ l h. cc h)

      Reach-Inv :
          {n : ℕ} {s : System ℕ V (Option ℕ)}
          → Reach n (start_of m.pairs (λ _. reads range 0 0)) s
          → Inv m s
      unfolding expected_sum
      Reach-Inv here = record {
        same = refl;
        each = λ i. reading range 0 (omega arith);
        looked = λ i l h. cc h;
      }
      Reach-Inv (later r (moves i lt mv)) = Move-Inv i (Reach-Inv r) refl mv

    -- The benchmark's threads, any number of them and in any interleaving: whatever texts the map was
    -- filled with, a thread that ends has not thrown, and its sum is that of the numbers that were stored
    -- for the keys it read, the same in all threads.
    pub readers-expected :
        {n : ℕ} {m : ConcurrentMap ℕ V} {s : System ℕ V (Option ℕ)} {r : Option ℕ} (i : ℕ)
        → fill stoi text map_size empty ≡ returns tt m
        → Reach n (start_of m.pairs (λ _. reads range 0 0)) s
        → s.pc i ≡ running (finished r)
        → r ≡ some (expected_sum stoi text range)
    readers-expected {m} i ran reached e =
        let filled =
          fill-Filled stoi text map_size empty (record { unlocked = refl; sorted = tt }) in
        let same : returns tt filled.last ≡ returns tt m = sym filled.ran ∙ ran in
        let is_m : filled.last ≡ m = cc same in
        let values =
          subst (λ l. (j : ℕ) → j < map_size → view l j ≡ some (text j)) is_m filled.values in
        IsReading-finished ((Reach-Inv {m = m} values reached).each i) (ap rest e)
