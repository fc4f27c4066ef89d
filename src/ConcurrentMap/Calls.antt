-- ===== src/ConcurrentMap/Calls.antt =====
-- What the calls of a map do to a function of its keys, and what a history of calls says.
use concurrencycourse.Prelude.{
  ℕ, ◌≡◌, refl, sym, ap, subst, ◌≢◌, inl, inr, Bool, true, false, Option, none, some, List, [], ◌∷◌,
  ◌++◌, arith, ◌==◌, if◌then◌else◌, ==_iff, Option-cases,
}
use concurrencycourse.ConcurrentMap.Ordered.{Less, find, IsSorted, assign-IsSorted, erase-IsSorted}
use concurrencycourse.ConcurrentMap.Lookup.{find-key}
use concurrencycourse.ConcurrentMap.Methods.{second}
use concurrencycourse.ConcurrentMap.Laws.{View, changed, view, idle_with, view-update, view-remove}
use concurrencycourse.ConcurrentMap.Threads.{
  Call, Reply, Program, Pc, Event, body, updates, gets, removes, fetches, dumps, done, got, handled,
  dumped, calls, running, locking, inside, leaving, working,
}

module _ {K V : Type 0} ⦃o : Less K⦄ where
  abbrev pub view_of : List (K × V) → View K V
  view_of pairs = view (idle_with pairs)

  abbrev pub paired : K → Option V → Option (K × V)
  paired key none = none
  paired key (some value) = some (key, value)

  -- What each call does to the function, and what it gives back.
  pub data Spec (f : View K V) : Call K V → Reply K V → View K V → Type 0 where
    puts : (key : K) (value : V) → Spec f (updates key value) done (changed key (some value) f)
    reads : (key : K) → Spec f (gets key) (got (f key)) f
    drops : (key : K) → Spec f (removes key) done (changed key none f)
    hands : (key : K) → Spec f (fetches key) (handled (paired key (f key))) f
    lists :
        (pairs : List (K × V)) → IsSorted pairs → view_of pairs ≡ f → Spec f dumps (dumped pairs) f

  -- The calls one after another, from the function `f`.
  pub data Replays (f : View K V) : List (Event K V) → View K V → Type 0 where
    none_ran : Replays f [] f
    then_ran :
        {log : List (Event K V)} {g h : View K V} (e : Event K V)
        → Replays f log g
        → Spec g e.call e.reply h
        → Replays f (log ++ e ∷ []) h

  abbrev pub own : ℕ → List (Event K V) → List (Event K V)
  own i [] = []
  own i (e ∷ log) = if e.thread == i then e ∷ own i log else own i log

  module _ {R : Type 0} where
    -- The calls of a program, with the replies that it was given, and what is left of it.
    pub data Ran (p : Program K V R) : List (Event K V) → Program K V R → Type 0 where
      not_begun : Ran p [] p
      replied :
          {log : List (Event K V)} {k : Reply K V → Program K V R} (e : Event K V)
          → Ran p log (calls e.call k)
          → Ran p (log ++ e ∷ []) (k e.reply)

  -- What is left of a thread's program, its present call included if the body has not ended.
  abbrev pub rest : {R : Type 0} → Pc K V R → Program K V R
  rest (running p) = p
  rest (locking c k) = calls c k
  rest (inside c k) = calls c k
  rest (working c k _) = calls c k
  rest (leaving r k) = k r

  abbrev pub has_lock : {R : Type 0} → Pc K V R → Bool
  has_lock (inside _ _) = true
  has_lock (working _ _ _) = true
  has_lock (leaving _ _) = true
  has_lock _ = false

  -- The pairs that a thread in a body saw.
  abbrev pub seen : {R : Type 0} → Pc K V R → Option (List (K × V))
  seen (working _ _ pairs) = some pairs
  seen _ = none

  pub seen-has_lock :
      {R : Type 0} (p : Pc K V R) {pairs : List (K × V)} → seen p ≡ some pairs → has_lock p ≡ true
  seen-has_lock (running p) e = cc e
  seen-has_lock (locking c k) e = cc e
  seen-has_lock (inside c k) e = cc e
  seen-has_lock (working c k pairs) e = refl
  seen-has_lock (leaving r k) e = cc e

  -- The body of a call does what the specification says.
  handled-paired :
      (key : K) (pairs : List (K × V)) → find key pairs ≡ paired key (second (find key pairs))
  handled-paired key pairs = elim (Option-cases (find key pairs)) [
    | inl e ↦ rw e refl
    | inr ((k, v), e) ↦ rw e (ap (λ j. some (j, v)) (find-key key pairs e))
  ]

  pub body-Spec :
      (c : Call K V) (pairs : List (K × V))
      → IsSorted pairs
      → Spec (view_of pairs) c (body c pairs).0 (view_of (body c pairs).1)
        × IsSorted (body c pairs).1
  unfolding body
  body-Spec (updates key value) pairs s = (
    subst (Spec (view_of pairs) (updates key value) done)
        (sym (view-update key value (idle_with pairs))) (puts key value),
    assign-IsSorted key value pairs s,
  )
  body-Spec (gets key) pairs s = (reads key, s)
  body-Spec (removes key) pairs s = (
    subst (Spec (view_of pairs) (removes key) done) (sym (view-remove key (idle_with pairs) s))
        (drops key),
    erase-IsSorted key pairs s,
  )
  body-Spec (fetches key) pairs s = (
    subst (λ r. Spec (view_of pairs) (fetches key) (handled r) (view_of pairs))
        (sym (handled-paired key pairs)) (hands key),
    s,
  )
  body-Spec dumps pairs s = (lists pairs s refl, s)

  pub own_self :
      (log : List (Event K V)) (e : Event K V)
      → own e.thread (log ++ e ∷ []) ≡ own e.thread log ++ e ∷ []
  own_self [] e = ground (arith, ==_iff e.thread e.thread)
  own_self (d ∷ log) e = ground (arith, own_self log e)

  pub own-other :
      (i : ℕ) (log : List (Event K V)) (e : Event K V)
      → i ≢ e.thread
      → own i (log ++ e ∷ []) ≡ own i log
  own-other i [] e ne = ground (arith, ==_iff e.thread i)
  own-other i (d ∷ log) e ne = ground (arith, own-other i log e)
