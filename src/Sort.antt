-- ===== src/Sort.antt =====
-- src/9_thread_pool.cpp: the two sorts, and the benchmark's body that checks them. `vector<int>` is a
-- function of the index, with values from `rand`, which are not negative; an iterator is an index.
-- `std::nth_element` is a parameter.
pub mod Permutes
pub mod Single
pub mod Threads
pub mod Multi
pub mod Checked
pub mod Races
pub mod Unique
use concurrencycourse.Prelude.{
  ℕ, zero, suc, ◌+◌, ◌-◌, ◌*◌, ◌/◌, ◌%◌, ◌^◌, ◌≤◌, ◌<◌, ◌≡◌, refl, sym, ap, subst, ◌∙◌, fun_ext,
  ◌≢◌, ◌↔◌, ◌⊎◌, inl, inr, Bool, true, false, not, ◌&&◌, ◌||◌, Option, none, some, List, [], ◌∷◌,
  ◌++◌, map, append_assoc, append-nil, arith, dec_lt, ℕ_discrete, ltb, leb, ◌==◌, if◌then◌else◌,
  ltb→lt, lt→ltb, leb→le, ==_iff, tests, Bool-cases, Option-cases, length, get_elem?, set,
  length-append, get_or, take, drop, replicate, length-map, update, All, All-has, All-mono, has,
  update_elim, update_ext,
}

-- `Container`, within its size
abbrev pub Container : Type 0
Container = ℕ → ℕ

abbrev pub distance : ℕ → ℕ → ℕ
distance begin last = last - begin

unfoldable pub divide_point : ℕ → ℕ → ℕ
divide_point begin last = begin + distance begin last / 2

infixl 5 ◌>>=◌
abbrev ◌>>=◌ : Option Container → (Container → Option Container) → Option Container
none >>= next = none
some xs >>= next = next xs

-- `single_threaded_sort`, of [begin, last), in a recursion no deeper than `fuel`
module _ (nth_element : ℕ → ℕ → ℕ → Container → Container) where
  unfoldable pub single_threaded_sort : ℕ → ℕ → ℕ → Container → Option Container
  single_threaded_sort zero begin last xs = none
  single_threaded_sort (suc fuel) begin last xs =
      let n = divide_point begin last in
      let sorted =
        single_threaded_sort fuel begin n (nth_element begin n last xs)
        >>= single_threaded_sort fuel (n + 1) last in
      if leb (distance begin last) 1 then some xs else sorted

-- `std::is_sorted` of the first `size` elements
unfoldable pub is_sorted : ℕ → Container → Bool
is_sorted zero xs = true
is_sorted (suc zero) xs = true
is_sorted (suc (suc n)) xs = is_sorted (suc n) xs && not (ltb (xs (suc n)) (xs n))

-- `fill_container`: `rand i` is the result of the call number `i`.
unfoldable pub fill_container : ℕ → (ℕ → ℕ) → Container
fill_container zero rand = λ _. 0
fill_container (suc size) rand = update (fill_container size rand) size (rand size)

-- How a round of the loop in `sort_impl` ends.
pub data Round : Type 0 where
  passed : Container → Round
  logic_error : Round
  unfinished : Round

-- The check after the sort.
abbrev pub check : ℕ → Option Container → Round
check size none = unfinished
check size (some xs) = if is_sorted size xs then passed xs else logic_error

-- `sorter` gives the container after the sort, or none if it does not return.
unfoldable pub sort_impl : (Container → Option Container) → ℕ → (ℕ → ℕ) → Round
sort_impl sorter size rand = check size (sorter (fill_container size rand))

-- A round of the benchmarks `single_threaded` and `multithreaded`, the second with the container `zs`
-- that its threads have left behind.
abbrev pub single_threaded : (ℕ → ℕ → ℕ → Container → Container) → ℕ → (ℕ → ℕ) → Round
single_threaded nth_element size rand =
    sort_impl (single_threaded_sort nth_element (size + 1) 0 size) size rand

abbrev pub multithreaded : Container → ℕ → (ℕ → ℕ) → Round
multithreaded zs size rand = sort_impl (λ _. some zs) size rand
