-- ===== src/ConcurrentMap/Methods.antt =====
-- The methods of `concurrent_map` in src/concurrent_map.h, and the class of the same text in
-- src/5_concurrent_map_2.cpp.
use concurrencycourse.Prelude.{Bool, true, false, Option, none, some, List, [], if◌then◌else◌}
use concurrencycourse.ConcurrentMap.Ordered.{Less, find, assign, erase}

module _ (K V : Type 0) where
  -- `locked`: the calling thread has `m_mutex`. Other threads take their turns between the calls.
  pub record ConcurrentMap : Type 0 where
    pub pairs : List (K × V)
    pub locked : Bool

  -- A call returns, or it never does: it locks a mutex that its own thread has.
  pub data Run (X : Type 0) : Type 0 where
    returns : X → ConcurrentMap → Run X
    deadlocks : Run X
    out_of_fuel : Run X

abbrev pub Cmd : Type 0 → Type 0 → Type 0 → Type 0
Cmd K V X = ConcurrentMap K V → Run K V X

-- A constructed map.
abbrev pub empty : {K V : Type 0} → ConcurrentMap K V
empty = record { pairs = []; locked = false }

module _ {K V : Type 0} where
  abbrev pub and_then : {X Y : Type 0} → Run K V X → (X → Cmd K V Y) → Run K V Y
  and_then (returns x m) k = k x m
  and_then deadlocks k = deadlocks
  and_then out_of_fuel k = out_of_fuel

  infixl 5 ◌>>=◌ ◌>>◌
  abbrev pub ◌>>=◌ : {X Y : Type 0} → Cmd K V X → (X → Cmd K V Y) → Cmd K V Y
  c >>= k = λ m. and_then (c m) k

  abbrev pub ◌>>◌ : {X Y : Type 0} → Cmd K V X → Cmd K V Y → Cmd K V Y
  c >> d = c >>= λ _. d

  abbrev pub pure : {X : Type 0} → X → Cmd K V X
  pure x = λ m. returns x m

  lock : Cmd K V (Unit {0})
  lock m = if m.locked then deadlocks else returns tt (record m { locked = true })

  unlock : Cmd K V (Unit {0})
  unlock m = returns tt (record m { locked = false })

  -- A body under `std::lock_guard lk(m_mutex)`.
  unfoldable pub guarded : {X : Type 0} → Cmd K V X → Cmd K V X
  unfolding lock unlock
  guarded body = do lock; x ← body; unlock; pure x

-- A `FetchHandler` is code that may call the methods of the map.
abbrev pub FetchHandler : Type 0 → Type 0 → Type 0
FetchHandler K V = K × V → Cmd K V (Unit {0})

abbrev pub second : {K V : Type 0} → Option (K × V) → Option V
second none = none
second (some (_, value)) = some value

module _ {K V : Type 0} ⦃o : Less K⦄ where
  unfoldable pub update_key : K → V → Cmd K V (Unit {0})
  unfolding guarded
  update_key key value = guarded λ m. returns tt (record m { pairs = assign key value m.pairs })

  unfoldable pub get : K → Cmd K V (Option V)
  unfolding guarded
  get key = guarded λ m. returns (second (find key m.pairs)) m

  unfoldable pub remove : K → Cmd K V (Unit {0})
  unfolding guarded
  remove key = guarded λ m. returns tt (record m { pairs = erase key m.pairs })

  -- The handler is called while the mutex is held.
  unfoldable pub fetch : K → FetchHandler K V → Cmd K V (Unit {0})
  unfolding guarded
  fetch key fetchHandler =
      guarded λ m. elim (find key m.pairs) [ none ↦ returns tt m | some pair ↦ fetchHandler pair m ]

unfoldable pub dump : {K V : Type 0} → Cmd K V (List (K × V))
unfolding guarded
dump = guarded λ m. returns m.pairs m
