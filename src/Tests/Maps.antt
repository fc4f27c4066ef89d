-- ===== src/Tests/Maps.antt =====
-- Runs of src/concurrent_map.h and its programs.
use concurrencycourse.Prelude.{ℕ, ◌≡◌, refl, false, none, some, List, [], ◌∷◌}
use concurrencycourse.ConcurrentMap.Ordered.{assign, find, erase}
use concurrencycourse.ConcurrentMap.Methods.{
  ConcurrentMap, returns, deadlocks, and_then, FetchHandler, update_key, get, remove, fetch,
}
use concurrencycourse.ConcurrentMap.Laws.{IsIdle, Op, updates, removes, gets, run}
use concurrencycourse.ConcurrentMap.Reentry
use concurrencycourse.ConcurrentMap.Reentry.{Method, call, fetch_spec, fetch-deadlocks}
use concurrencycourse.ConcurrentMap.Programs.{nat_less}

abbrev two : ConcurrentMap ℕ ℕ
two = record { pairs = (1, 10) ∷ (3, 30) ∷ []; locked = false }

two-IsIdle : IsIdle two
two-IsIdle = record { unlocked = refl; sorted = ((refl, tt), (tt, tt)) }

abbrev calls : List (Op ℕ ℕ)
calls = gets 3 ∷ updates 2 20 ∷ removes 3 ∷ gets 2 ∷ gets 3 ∷ []

calls_results :
    run calls two
    ≡ returns
        (some 30 ∷ some 20 ∷ none ∷ [])
        (record { pairs = (1, 10) ∷ (2, 20) ∷ []; locked = false })
unfolding run update_key get remove find assign erase
calls_results = refl

-- A handler that leaves the map alone, and one that reads it.
abbrev silent : FetchHandler ℕ ℕ
silent pair m = returns tt m

abbrev reading : FetchHandler ℕ ℕ
reading (key, _) m = and_then (call (Reentry.gets key) m) (λ _ m'. returns tt m')

fetch-deadlocks_example : fetch 3 reading two ≡ deadlocks
unfolding find
fetch-deadlocks_example =
    fetch-deadlocks 3 30 reading two (Reentry.gets 3) (λ _ m'. returns tt m') two-IsIdle refl refl
