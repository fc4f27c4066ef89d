-- ===== src/ConcurrentMap/Programs.antt =====
-- The programs that use the map: src/4_concurrent_map.cpp, and the benchmark of
-- src/5_concurrent_map_2.cpp. Keys are the loops' counters; `rand` and `std::to_string` enter as the
-- text that is stored for each key.
use concurrencycourse.Prelude.{
  ℕ, zero, suc, ◌+◌, ◌≡◌, refl, ap, true, false, [], arith, ltb, if◌then◌else◌,
}
use concurrencycourse.ConcurrentMap.Ordered.{Less, assign}
use concurrencycourse.ConcurrentMap.Methods.{
  deadlocks, out_of_fuel, Cmd, ◌>>◌, pure, FetchHandler, empty, update_key, fetch,
}
use concurrencycourse.ConcurrentMap.Laws.{IsIdle, idle_with, view-update, update-returns}
use concurrencycourse.ConcurrentMap.Reentry.{updates, call, fetch-deadlocks}

pub nat_irrefl : (a : ℕ) → ltb a a ≡ false
nat_irrefl a = ground arith

pub nat_trans : (a b c : ℕ) → ltb a b ≡ true → ltb b c ≡ true → ltb a c ≡ true
nat_trans a b c h k = ground arith

pub nat_total : (a b : ℕ) → ltb a b ≡ false → ltb b a ≡ false → a ≡ b
nat_total a b h k = ground arith

instance abbrev pub nat_less : Less ℕ
nat_less = record { less = ltb; irrefl = nat_irrefl; trans = nat_trans; total = nat_total }

abbrev pub map_size : ℕ
map_size = 100

module _ {V : Type 0} where
  -- The handler of src/4_concurrent_map.cpp, with fuel for its calls of itself.
  unfoldable pub fetch_handler : ℕ → (ℕ → V) → FetchHandler ℕ V
  fetch_handler zero text pair = λ _. out_of_fuel
  fetch_handler (suc fuel) text (key, _) =
      let again = fetch (key + 1) (fetch_handler fuel text) in
      update_key (key + 1) (text key) >> (if ltb key map_size then again else pure tt)

  -- `main` of src/4_concurrent_map.cpp.
  unfoldable pub main : ℕ → V → (ℕ → V) → Cmd ℕ V (Unit {0})
  unfolding fetch_handler
  main fuel zero_text text = update_key 0 zero_text >> fetch 0 (fetch_handler fuel text)

  -- The program never ends, whatever texts it stores and with fuel for any number of calls of the
  -- handler: the first `Update` in the handler waits for the mutex that `Fetch` has.
  pub main-deadlocks :
      (fuel : ℕ) (zero_text : V) (text : ℕ → V) → main (suc fuel) zero_text text empty ≡ deadlocks
  unfolding main call assign
  main-deadlocks fuel zero_text text =
      let is : IsIdle {K = ℕ} {V = V} empty = record { unlocked = refl; sorted = tt } in
      rw (update-returns empty is 0 zero_text) (
        fetch-deadlocks 0 zero_text _ (idle_with (assign 0 zero_text [])) (updates 1 (text 0)) _
          (record { unlocked = refl; sorted = (tt, tt) })
          (ap (λ f. f 0) (view-update 0 zero_text empty)) refl)
