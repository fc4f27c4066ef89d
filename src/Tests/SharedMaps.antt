-- ===== src/Tests/SharedMaps.antt =====
-- Threads that share a map of src/5_concurrent_map_2.cpp.
use concurrencycourse.Prelude.{ℕ, zero, suc, ◌<◌, ◌≡◌, refl, Option, some, [], arith}
use concurrencycourse.ConcurrentMap.Ordered.{find, assign}
use concurrencycourse.ConcurrentMap.Methods.{ConcurrentMap, Run, returns, empty, update_key}
use concurrencycourse.ConcurrentMap.Programs.{nat_less, map_size}
use concurrencycourse.ConcurrentMap.Bench.{fill, expected_sum}
use concurrencycourse.ConcurrentMap.Threads.{
  Program, Reply, System, body, start_of, Reach, updates, gets, finished, calls, call_map, lock,
  look, write, unlock, moves, here, later,
}
use concurrencycourse.ConcurrentMap.Calls.{view_of, Replays, Ran, own, rest}
use concurrencycourse.ConcurrentMap.Linear.{linearizable}
use concurrencycourse.ConcurrentMap.Readers.{reads, readers-expected}

first : 0 < 2
first = omega arith

other : 1 < 2
other = omega arith

-- Thread 0 stores 10 at the key 1; thread 1 reads it.
abbrev programs : ℕ → Program ℕ ℕ (Reply ℕ ℕ)
programs zero = calls (updates 1 10) (λ r. finished r)
programs (suc _) = calls (gets 1) (λ r. finished r)

abbrev both : (s : System ℕ ℕ (Reply ℕ ℕ)) × Reach 2 (start_of [] programs) s
unfolding body find assign
both = (
  _,
  later
      (later
        (later
          (later
            (later (later (later here (moves 0 first call_map)) (moves 1 other call_map))
              (moves 0 first (lock refl)))
            (moves 0 first look))
          (moves 0 first write))
        (moves 0 first unlock))
      (moves 1 other (lock refl)),
)

linearizable_example :
    Replays (view_of []) both.0.shared.log (view_of both.0.shared.pairs)
    × Ran (programs 1) (own 1 both.0.shared.log) (rest (both.0.pc 1))
linearizable_example = linearizable 2 [] programs 1 tt both.1

-- The number 7 is stored at every key.
map_of : Run ℕ ℕ (Unit {0}) → ConcurrentMap ℕ ℕ
map_of (returns _ m) = m
map_of _ = empty

abbrev filled : ConcurrentMap ℕ ℕ
unfolding map_of
filled = map_of (fill (λ n. n) (λ _. 7) map_size empty)

filled-ran : fill (λ n. n) (λ _. 7) map_size empty ≡ returns tt filled
unfolding filled fill update_key assign
filled-ran = refl

abbrev read_one :
    (s : System ℕ ℕ (Option ℕ)) × Reach 1 (start_of filled.pairs (λ _. reads (λ n. n) 1 0 0)) s
unfolding reads body
read_one = (
  _,
  later
      (later
        (later
          (later (later here (moves 0 (omega arith) call_map)) (moves 0 (omega arith) (lock refl)))
          (moves 0 (omega arith) look))
        (moves 0 (omega arith) write))
      (moves 0 (omega arith) unlock),
)

readers-expected_example : some 7 ≡ some (expected_sum (λ n. n) (λ _. 7) 1)
unfolding read_one find filled fill update_key assign
readers-expected_example =
    readers-expected (λ n. n) (λ _. 7) 1 {r = some 7} 0 filled-ran read_one.1 refl
