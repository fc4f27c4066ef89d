-- ===== src/Philosophers/Dinner/Hangs.antt =====
-- The deadlock of the whole program: the philosophers can come to it, and then `main` never returns.
use concurrencycourse.Prelude.{
  ℕ, zero, suc, ◌+◌, ◌≤◌, ◌<◌, ◌≡◌, refl, sym, ap, subst, ◌∙◌, ◌≢◌, false, Option, none, some, List,
  arith, ==_iff, length, set, update, length-set,
}
use concurrencycourse.Philosophers.{get_seat, has_first}
use concurrencycourse.Philosophers.Deadlock.{Deadlocked, deadlock_forever, fork1-lt}
use concurrencycourse.Philosophers.Dinner.{
  Place, Nap, Entry, Dinner, Turn, Reach, Reach-trans, begin, starts, over, get_fork, shortest,
  between, after_nap, thought, pause, at_test, naps, locks1, returned, goes_round, writes,
  falls_asleep, wakes, takes_first, turns, begins, acts, passes, here, later,
}
use concurrencycourse.Philosophers.Dinner.View.{
  view, stage, owner_of, owner_of-set, owner_of-get_fork, length-make_table, make_table-free,
}
use concurrencycourse.Philosophers.Dinner.Attended.{Reach-Attended}
use concurrencycourse.Philosophers.Dinner.Refines.{goes_on-Refines}

-- From a deadlock `main` never returns: it waits in the destructor of a philosopher.
never_over :
    {n : ℕ} {s t : Dinner}
    → 0 < n
    → Reach n (begin n) s
    → Deadlocked n (view s)
    → Reach n s t
    → t.main ≢ over
never_over {n} {s} {t} pos before dead r at =
    let (_, _, dead') = deadlock_forever dead (goes_on-Refines before r) in
    let waits : stage (t.place 0) ≡ has_first = dead'.all_wait 0 pos in
    let gone : t.place 0 ≡ returned =
      (Reach-Attended n (Reach-trans before r)).gone 0 (ground (arith, at)) pos in
    ground (arith, waits, gone)

-- The first `m` philosophers have taken their first forks, and the others up to `k` have been started,
-- of which the first stands at `p`.
record Partial (n k m : ℕ) (p : Place) (s : Dinner) : Type 0 where
  have : (i : ℕ) → i < m → s.place i ≡ naps pause
  taken : (i : ℕ) → i < m → owner_of s.forks i ≡ some i
  next : m < k → s.place m ≡ p
  wait : (i : ℕ) → m < i → i < k → s.place i ≡ at_test
  free : (i : ℕ) → m ≤ i → owner_of s.forks i ≡ none
  go_on : (i : ℕ) → s.cancelled i ≡ false
  main_at : s.main ≡ starts k
  seats : length s.forks ≡ n

start_all : (n k : ℕ) → k ≤ n → (s : Dinner) × Reach n (begin n) s × Partial n k 0 at_test s
start_all n zero le = (
  begin n,
  here,
  record {
    have = λ i lt. absurd (omega (arith, lt));
    taken = λ i lt. absurd (omega (arith, lt));
    next = λ lt. absurd (omega (arith, lt));
    wait = λ i le' lt. absurd (omega (arith, lt));
    free = λ i le'. make_table-free n i;
    go_on = λ i. refl;
    main_at = refl;
    seats = length-make_table n;
  },
)
start_all n (suc k) le =
    let (s, r, part) = start_all n k (omega (arith, le)) in
    (
      _,
      later r (acts (begins k (omega (arith, le)) part.main_at)),
      record {
        have = λ i lt. absurd (omega (arith, lt));
        taken = λ i lt. absurd (omega (arith, lt));
        next = λ lt. ground (arith, lt, part.next, ==_iff k 0);
        wait = λ i le' lt. ground (arith, lt, part.wait i, ==_iff k i);
        free = part.free;
        go_on = part.go_on;
        main_at = ap starts (omega arith);
        seats = part.seats;
      },
    )

module _ {n m : ℕ} (lt : m < n) where
  -- The next philosopher makes a turn that leaves the forks alone.
  move_on :
      {p p' : Place} {log : List Entry} {s : Dinner}
      → Turn n m s p s.forks log p'
      → Partial n n m p s
      → (t : Dinner) × Reach n s t × Partial n n m p' t × (t.now ≡ s.now)
  move_on {p} {p'} {log} {s} turn part = (
    _,
    later here
        (acts (turns m lt (subst (λ q. Turn n m s q s.forks log p') (sym (part.next lt)) turn))),
    record {
      have = λ i lt'. ground (arith, lt', part.have i, ==_iff m i);
      taken = part.taken;
      next = λ lt'. ground (arith, ==_iff m m);
      wait = λ i lt' lt''. ground (arith, lt', lt'', part.wait i, ==_iff m i);
      free = part.free;
      go_on = part.go_on;
      main_at = part.main_at;
      seats = part.seats;
    },
    refl,
  )

  -- Time passes.
  pass :
      {p : Place} {s : Dinner} (time : ℕ)
      → Partial n n m p s
      → Partial n n m p (record s { now = s.now + time })
  pass time part = record {
    have = part.have;
    taken = part.taken;
    next = part.next;
    wait = part.wait;
    free = part.free;
    go_on = part.go_on;
    main_at = part.main_at;
    seats = part.seats;
  }

  -- The next philosopher sleeps for the shortest time.
  sleep :
      (nap : Nap) {s : Dinner}
      → Partial n n m (naps nap) s
      → (t : Dinner) × Reach n s t × Partial n n m (after_nap nap) t
  sleep nap {s} part =
      let (t, r, asleep, same_time) =
        move_on (falls_asleep (between (shortest nap) (omega arith) (ground arith))) part in
      let u : Dinner = record t { now = t.now + shortest nap } in
      let (v, r', awake, _) =
        move_on {s = u} (wakes (omega (arith, same_time))) (pass (shortest nap) asleep) in
      (v, Reach-trans (later r (passes (shortest nap))) r', awake)

  take_fork :
      {s : Dinner}
      → Partial n n m locks1 s
      → (t : Dinner) × Reach n s t × Partial n n (suc m) at_test t
  take_fork {s} part =
      let fork : (get_seat n m).fork1 ≡ m = fork1-lt n m lt in
      let inside : m < length s.forks = omega (arith, lt, part.seats) in
      let at : get_fork s.forks (get_seat n m).fork1 ≡ some none =
        rw fork (owner_of-get_fork s.forks m inside ∙ ap some (part.free m (omega arith))) in
      let forks : List (Option ℕ) = set s.forks (get_seat n m).fork1 (some m) in
      let owners : owner_of forks ≡ update (owner_of s.forks) m (some m) =
        rw fork (owner_of-set s.forks m (some m) inside) in
      (
        _,
        later here (
            acts (
              turns m lt (
                subst (λ q. Turn n m s q forks s.log (naps pause)) (sym (part.next lt))
                  (takes_first at)))),
        record {
          have = λ i lt'. ground (arith, lt', part.have i, ==_iff m i);
          taken = λ i lt'. ap (λ f. f i) owners ∙ ground (arith, lt', part.taken i, ==_iff m i);
          next = λ lt'. ground (arith, lt', part.wait (suc m), ==_iff m (suc m));
          wait = λ i lt' lt''. ground (arith, lt', lt'', part.wait i, ==_iff m i);
          free = λ i le. ap (λ f. f i) owners ∙ ground (arith, le, part.free i, ==_iff m i);
          go_on = part.go_on;
          main_at = part.main_at;
          seats = length-set s.forks (get_seat n m).fork1 (some m) ∙ part.seats;
        },
      )

  -- The next philosopher goes from the test to the first fork, and takes it.
  take_next :
      {s : Dinner}
      → Partial n n m at_test s
      → (t : Dinner) × Reach n s t × Partial n n (suc m) at_test t
  take_next part =
      let (_, r1, part1, _) = move_on (goes_round (part.go_on m)) part in
      let (_, r2, part2, _) = move_on writes part1 in
      let (_, r3, part3) = sleep thought part2 in
      let (_, r4, part4, _) = move_on writes part3 in
      let (_, r5, part5, _) = move_on writes part4 in
      let (t, r6, part6) = take_fork part5 in
      (
        t,
        Reach-trans r1 (Reach-trans r2 (Reach-trans r3 (Reach-trans r4 (Reach-trans r5 r6)))),
        part6,
      )

take_forks : (n m : ℕ) → m ≤ n → (s : Dinner) × Reach n (begin n) s × Partial n n m at_test s
take_forks n zero le = start_all n n (omega arith)
take_forks n (suc m) le =
    let (_, r, part) = take_forks n m (omega (arith, le)) in
    let (t, r', part') = take_next (omega (arith, le)) part in (t, Reach-trans r r', part')

-- The program can hang, with any number of philosophers but 0: it can reach a state in which each has
-- the first fork and waits for the second, and whatever happens from there, however long, `main` never
-- returns.
pub can_hang :
    (n : ℕ)
    → 0 < n
    → (s : Dinner) × Reach n (begin n) s
      × Deadlocked n (view s)
      × ((t : Dinner) → Reach n s t → t.main ≢ over)
can_hang n pos =
    let (s, r, part) = take_forks n n (omega arith) in
    let dead : Deadlocked n (view s) = record {
      all_wait = λ i lt. ap stage (part.have i lt);
      all_taken = λ i lt. rw (fork1-lt n i lt) (part.taken i lt);
    } in
    (s, r, dead, λ t r'. never_over pos r dead r')
