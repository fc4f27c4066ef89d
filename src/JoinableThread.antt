-- ===== src/JoinableThread.antt =====
-- src/JoinableThread.h: a thread object that joins its thread at the end of its life. `handle x` is
-- the thread of the `std::thread` at the address `x`, none if it is not joinable; a `JoinableThread`
-- at `x` has its `m_thread` there.
pub mod Programs
pub mod Ownership
use concurrencycourse.Prelude.{
  ℕ, zero, suc, ◌+◌, ◌-◌, ◌*◌, ◌/◌, ◌%◌, ◌^◌, ◌≤◌, ◌<◌, ◌≡◌, refl, sym, ap, subst, ◌∙◌, fun_ext,
  ◌≢◌, ◌↔◌, ◌⊎◌, inl, inr, Bool, true, false, not, ◌&&◌, ◌||◌, Option, none, some, List, [], ◌∷◌,
  ◌++◌, map, append_assoc, append-nil, arith, dec_lt, ℕ_discrete, ltb, leb, ◌==◌, if◌then◌else◌,
  ltb→lt, lt→ltb, leb→le, ==_iff, tests, Bool-cases, Option-cases, length, get_elem?, set,
  length-append, get_or, take, drop, replicate, length-map, update, All, All-has, All-mono, has,
  update_elim, update_ext, length-set, get_elem?-set_self, get_elem?-set_ne,
}

-- Threads are numbered in the order of their starts; `live` says where a `JoinableThread` is. `caller`
-- is the thread that runs the next operation, none if no object started it, as `main`'s.
pub record World : Type 0 where
  pub handle : ℕ → Option ℕ
  pub live : ℕ → Bool
  pub started : ℕ
  pub joined : ℕ → Bool
  pub caller : Option ℕ

-- `std::terminate` was called, or `join` threw: there is no thread, or it is the calling one.
pub data Run : Type 0 where
  ok : World → Run
  terminated : Run
  system_error : Run

infixl 5 ◌>>=◌
abbrev ◌>>=◌ : Run → (World → Run) → Run
ok w >>= next = next w
terminated >>= next = terminated
system_error >>= next = system_error

-- `std::thread`: the move constructor, the move assignment, `joinable`, `join` and the destructor.
abbrev pub thread_move : ℕ → ℕ → World → World
thread_move x y w = record w { handle = update (update w.handle y none) x (w.handle y) }

abbrev pub has_thread : Option ℕ → Bool
has_thread none = false
has_thread (some _) = true

abbrev pub thread_assign : ℕ → ℕ → World → Run
thread_assign x y w = if has_thread (w.handle x) then terminated else ok (thread_move x y w)

-- Whether a handle is that of the calling thread.
abbrev pub is_own : Option ℕ → Option ℕ → Bool
is_own none caller = false
is_own (some t) none = false
is_own (some t) (some u) = t == u

abbrev pub join_handle : ℕ → Option ℕ → World → Run
join_handle x none w = system_error
join_handle x (some t) w =
    if is_own (some t) w.caller
    then system_error
    else ok (record w { handle = update w.handle x none; joined = update w.joined t true })

abbrev pub thread_destroy : ℕ → World → Run
thread_destroy x w = if has_thread (w.handle x) then terminated else ok w

-- `JoinableThread()`
unfoldable pub construct_default : ℕ → World → Run
construct_default x w =
    ok (record w { handle = update w.handle x none; live = update w.live x true })

-- `JoinableThread(Args&&... args)`, with a function to run
unfoldable pub construct : ℕ → World → Run
construct x w = ok (record w {
  handle = update w.handle x (some w.started);
  live = update w.live x true;
  started = w.started + 1;
})

-- `JoinableThread(JoinableThread&& x)`
unfoldable pub construct_move : ℕ → ℕ → World → Run
construct_move x y w = ok (record (thread_move x y w) { live = update w.live x true })

unfoldable pub joinable : ℕ → World → Bool
joinable x w = has_thread (w.handle x)

unfoldable pub join : ℕ → World → Run
join x w = join_handle x (w.handle x) w

unfoldable pub join_if_joinable : ℕ → World → Run
join_if_joinable x w = if has_thread (w.handle x) then join_handle x (w.handle x) w else ok w

-- `operator=(Thread&& thread)`, with `thread` at `y`
unfoldable pub assign_thread : ℕ → ℕ → World → Run
assign_thread x y w = if x == y then ok w else (join_if_joinable x w >>= thread_assign x y)

-- `operator=(JoinableThread&& x)`, with `x` at `y`
unfoldable pub assign : ℕ → ℕ → World → Run
assign x y w = assign_thread x y w

abbrev pub bury : ℕ → World → Run
bury x w = ok (record w { live = update w.live x false })

-- A destructor throws nothing: an exception that would leave it calls `std::terminate`.
abbrev pub without_throw : Run → Run
without_throw (ok w) = ok w
without_throw terminated = terminated
without_throw system_error = terminated

-- `~JoinableThread()`, and then that of the member
unfoldable pub destroy : ℕ → World → Run
destroy x w = without_throw (join_if_joinable x w >>= thread_destroy x >>= bury x)
