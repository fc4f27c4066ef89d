-- ===== src/ConcurrentMap/Reentry.antt =====
-- `Fetch` calls its handler with the mutex held: what a handler can and cannot do.
-- src/4_concurrent_map.cpp is a program whose handler calls the map.
use concurrencycourse.Prelude.{
  ◌≡◌, refl, sym, ap, ◌∙◌, inl, inr, true, false, Option, none, some, arith, Option-cases,
}
use concurrencycourse.ConcurrentMap.Ordered.{Less, find}
use concurrencycourse.ConcurrentMap.Lookup.{find-key}
use concurrencycourse.ConcurrentMap.Methods.{
  ConcurrentMap, returns, deadlocks, and_then, Cmd, ◌>>=◌, ◌>>◌, pure, FetchHandler, second,
  update_key, get, remove, fetch, dump,
}
use concurrencycourse.ConcurrentMap.Laws.{IsIdle, view}

-- A call of any method, for its effect.
pub data Method (K V : Type 0) : Type 0 where
  updates : K → V → Method K V
  gets : K → Method K V
  removes : K → Method K V
  fetches : K → FetchHandler K V → Method K V
  dumps : Method K V

module _ {K V : Type 0} ⦃o : Less K⦄ where
  unfoldable pub call : Method K V → Cmd K V (Unit {0})
  call (updates key value) = update_key key value
  call (gets key) = get key >> pure tt
  call (removes key) = remove key
  call (fetches key handler) = fetch key handler
  call dumps = dump >> pure tt

  -- While a thread has the mutex, its own call of any method never returns.
  call-deadlocks : (c : Method K V) (m : ConcurrentMap K V) → m.locked ≡ true → call c m ≡ deadlocks
  unfolding call update_key get remove fetch dump
  call-deadlocks (updates key value) m h = rw h
  call-deadlocks (gets key) m h = rw h
  call-deadlocks (removes key) m h = rw h
  call-deadlocks (fetches key handler) m h = rw h
  call-deadlocks dumps m h = rw h

  fetch-found :
      (key : K) (value : V) (handler : FetchHandler K V) (m : ConcurrentMap K V)
      → m.locked ≡ false
      → find key m.pairs ≡ some (key, value)
      → fetch key handler m
        ≡ and_then
            (handler (key, value) (record m { locked = true }))
            (λ _ m'. returns tt (record m' { locked = false }))
  unfolding fetch
  fetch-found key value handler m h e = rw (h, e)

  found_at :
      (key : K) (value : V) (m : ConcurrentMap K V)
      → view m key ≡ some value
      → find key m.pairs ≡ some (key, value)
  found_at key value m e = go (find key m.pairs) refl
    where
      go : (r : Option (K × V)) → find key m.pairs ≡ r → find key m.pairs ≡ some (key, value)
      go none q = cc (ap second q)
      go (some (k, v)) q = ground (arith, q, e, find-key key m.pairs {k = k} {v = v} q, ap second q)

  fetch-missing :
      (key : K) (handler : FetchHandler K V) (m : ConcurrentMap K V)
      → m.locked ≡ false
      → find key m.pairs ≡ none
      → fetch key handler m ≡ returns tt m
  unfolding fetch
  fetch-missing key handler m h e = ground (arith, h, e)

  missing_at : (key : K) (m : ConcurrentMap K V) → view m key ≡ none → find key m.pairs ≡ none
  missing_at key m e = elim (Option-cases (find key m.pairs)) [
    | inl q ↦ q
    | inr (pair, q) ↦ cc (sym (ap second q) ∙ e)
  ]

  -- What `Fetch` does, from the value at the key.
  abbrev pub fetch_spec : Option V → K → FetchHandler K V → Cmd K V (Unit {0})
  fetch_spec none key handler m = returns tt m
  fetch_spec (some value) key handler m =
      and_then (handler (key, value) (record m { locked = true }))
        (λ _ m'. returns tt (record m' { locked = false }))

  -- `Fetch` on a map with no call under way: with no value at the key it returns and changes nothing;
  -- with one it calls the handler once, with the key and its value and the mutex held, and ends with
  -- the map that the handler leaves, unlocked.
  fetch_lem :
      (key : K) (handler : FetchHandler K V) (m : ConcurrentMap K V)
      → IsIdle m
      → fetch key handler m ≡ fetch_spec (view m key) key handler m
  fetch_lem key handler m is = elim (Option-cases (view m key)) [
    | inl e ↦ rw e (fetch-missing key handler m is.unlocked (missing_at key m e))
    | inr (value, e) ↦ rw e (fetch-found key value handler m is.unlocked (found_at key value m e))
  ]

  -- A handler that begins with a call of any method of the map, whatever follows it, never returns;
  -- so neither does the `Fetch` of a key that has a value.
  pub fetch-deadlocks :
      (key : K) (value : V) (handler : FetchHandler K V) (m : ConcurrentMap K V) (c : Method K V)
      (rest : Unit {0} → Cmd K V (Unit {0}))
      → IsIdle m
      → view m key ≡ some value
      → handler (key, value) ≡ (call c >>= rest)
      → fetch key handler m ≡ deadlocks
  fetch-deadlocks key value handler m c rest is e h =
      fetch-found key value handler m is.unlocked (found_at key value m e)
      ∙ rw (h, call-deadlocks c (record m { locked = true }) refl)
