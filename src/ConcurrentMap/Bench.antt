-- ===== src/ConcurrentMap/Bench.antt =====
-- `bench_body` of src/5_concurrent_map_2.cpp: a map is filled once, and then read by several threads,
-- each of which adds up the numbers in `range` values. `text i` is the text that is stored at `i`.
use concurrencycourse.Prelude.{
  ℕ, zero, suc, ◌+◌, ◌%◌, ◌<◌, ◌≡◌, refl, sym, ap, ◌∙◌, Option, none, some, arith,
}
use concurrencycourse.ConcurrentMap.Ordered.{assign, assign-IsSorted}
use concurrencycourse.ConcurrentMap.Methods.{
  ConcurrentMap, returns, Cmd, ◌>>=◌, ◌>>◌, pure, empty, update_key, get,
}
use concurrencycourse.ConcurrentMap.Laws.{
  IsIdle, view, idle_with, view-update, update-returns, get-returns,
}
use concurrencycourse.ConcurrentMap.Programs.{nat_less, map_size}

module _ {V : Type 0} (stoi : V → ℕ) (text : ℕ → V) where
  -- The loop that fills the map with the keys below `n`, in their order.
  unfoldable pub fill : ℕ → Cmd ℕ V (Unit {0})
  fill zero = pure tt
  fill (suc n) = fill n >> update_key n (text n)

  -- `sum += std::stoi(value.value())`; `none` is the exception of an empty `optional`.
  abbrev pub add_value : Option ℕ → Option V → Option ℕ
  add_value none value = none
  add_value (some sum) none = none
  add_value (some sum) (some value) = some (sum + stoi value)

  -- The loop of a reading thread.
  unfoldable pub sum_values : ℕ → Cmd ℕ V (Option ℕ)
  sum_values zero = pure (some 0)
  sum_values (suc i) = do sum ← sum_values i; value ← get (i % map_size); pure (add_value sum value)

  -- `state.range()` gives the number of values; each of the threads does this.
  unfoldable pub bench_body : ℕ → Cmd ℕ V (Option ℕ)
  unfolding fill sum_values
  bench_body range = fill map_size >> sum_values range

  -- The sum of the numbers stored for the keys that are read.
  unfoldable pub expected_sum : ℕ → ℕ
  expected_sum zero = 0
  expected_sum (suc i) = expected_sum i + stoi (text (i % map_size))

  pub record Filled (n : ℕ) (m : ConcurrentMap ℕ V) : Type 0 where
    pub last : ConcurrentMap ℕ V
    pub ran : fill n m ≡ returns tt last
    pub idle : IsIdle last
    pub values : (i : ℕ) → i < n → view last i ≡ some (text i)

  pub fill-Filled : (n : ℕ) (m : ConcurrentMap ℕ V) → IsIdle m → Filled n m
  unfolding fill
  fill-Filled zero m is = record {
    last = m;
    ran = refl;
    idle = is;
    values = λ i h. absurd (omega arith);
  }
  fill-Filled (suc n) m is =
      let old = fill-Filled n m is in
      record {
        last = idle_with (assign n (text n) old.last.pairs);
        ran = rw old.ran (update-returns old.last old.idle n (text n));
        idle = record {
          unlocked = refl;
          sorted = assign-IsSorted n (text n) old.last.pairs old.idle.sorted;
        };
        values =
            λ i h. ap (λ f. f i) (view-update n (text n) old.last) ∙ ground (arith, old.values i);
      }

  -- A `Get` leaves a map with no call under way as it was.
  get-same : (key : ℕ) (m : ConcurrentMap ℕ V) → IsIdle m → get key m ≡ returns (view m key) m
  get-same key m is =
      get-returns m is key
      ∙ ap (λ b. returns (view m key) (record { pairs = m.pairs; locked = b })) (sym is.unlocked)

  sum_values-expected :
      (range : ℕ) (m : ConcurrentMap ℕ V)
      → IsIdle m
      → ((i : ℕ) → i < map_size → view m i ≡ some (text i))
      → sum_values range m ≡ returns (some (expected_sum range)) m
  unfolding sum_values expected_sum
  sum_values-expected zero m is full = refl
  sum_values-expected (suc i) m is full = rw (
    sum_values-expected i m is full,
    get-same (i % map_size) m is,
    full (i % map_size) (omega arith),
  )

  -- Whatever texts are stored and however many values are read, the benchmark returns: no `Get` finds
  -- a key without a value, so no `value()` throws, and the sum is that of the numbers that were stored
  -- for the keys read. The map is left unlocked with its keys in order.
  bench_body-expected :
      (range : ℕ)
      → (m : ConcurrentMap ℕ V) × (bench_body range empty ≡ returns (some (expected_sum range)) m)
        × IsIdle m
  unfolding bench_body
  bench_body-expected range =
      let filled = fill-Filled map_size empty (record { unlocked = refl; sorted = tt }) in
      (
        filled.last,
        rw filled.ran (sum_values-expected range filled.last filled.idle filled.values),
        filled.idle,
      )
