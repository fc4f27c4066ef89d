-- ===== src/OptimizedQueue/Fine/Calls.antt =====
-- The steps of the calls beside a `push` under way.
use concurrencycourse.Prelude.{ℕ, ◌≡◌, refl, sym, Bool, Option, none, some, arith, ==_iff, update}
use concurrencycourse.OptimizedQueue.Memory.{Ptr, Memory, ok, load, destroy}
use concurrencycourse.OptimizedQueue.Methods.{at_tail, front, pop_head, release}
use concurrencycourse.OptimizedQueue.Threads.{
  Pc, System, Step, pushing, calls_push, pushes, notifies, notifies_nobody, calls_take, locks,
  compares, sleeps, wakes_up, relocks, takes, releases,
}
use concurrencycourse.OptimizedQueue.Fine.{
  Place, stands, made, entered, filled, linked, pc_of, merge, Allowed,
}

module _ {A : Type 0} where
  -- What the commands of the callers do to a node that they find.
  abbrev pub without : Memory A → Ptr → A → Option Ptr → Memory A
  without m p x next = record m {
    heap = update m.heap p (some (record { item = some x; next = none }));
    head = next;
  }

  abbrev pub freed : Memory A → Ptr → Memory A
  freed m p = record m { heap = update m.heap p none }

  pub take_lem :
      (m : Memory A) (p : Ptr) (x : A) (next : Option Ptr)
      → m.head ≡ some p
      → m.heap p ≡ some (record { item = some x; next = next })
      → (front m ≡ ok x m) × (pop_head m ≡ ok p (without m p x next))
  unfolding front pop_head load
  take_lem m p x next at_head at = (ground (arith, at_head, at), ground (arith, at_head, at))

  pub release_lem :
      (m : Memory A) (p : Ptr) (x : A)
      → m.heap p ≡ some (record { item = some x; next = none })
      → release p m ≡ ok (some x) (freed m p)
  unfolding release load destroy
  release_lem m p x at = ground (arith, at)

  pub at_tail_lem :
      {m mc m' : Memory A} {empty : Bool}
      → m.head ≡ mc.head
      → m.tail ≡ mc.tail
      → at_tail m ≡ ok empty m'
      → (at_tail mc ≡ ok empty mc) × (m' ≡ m)
  unfolding at_tail
  at_tail_lem head tail e = (ground (arith, head, tail, e), cc e)

  -- The threads at a `push` stay there.
  pub keeps_push :
      {n : ℕ} {s t : System A} (tail_owner : Option ℕ) (st : Step n s t)
      → Allowed tail_owner st
      → (j : ℕ) (v : A) → s.pc j ≡ pushing v
      → t.pc j ≡ pushing v
  keeps_push o (calls_push i v lt e) may j w h = ground (arith, e, h, ==_iff i j)
  keeps_push o (pushes i v fresh lt e free ran) may j w h = absurd may
  keeps_push o (notifies i k lt lt' e e') may j w h =
      ground (arith, e, e', h, ==_iff i j, ==_iff k j)
  keeps_push o (notifies_nobody i lt e nobody) may j w h = ground (arith, e, h, ==_iff i j)
  keeps_push o (calls_take i c lt e) may j w h = ground (arith, e, h, ==_iff i j)
  keeps_push o (locks i c lt e free) may j w h = ground (arith, e, h, ==_iff i j)
  keeps_push o (compares i c lt e test) may j w h = ground (arith, e, h, ==_iff i j)
  keeps_push o (sleeps i lt e) may j w h = ground (arith, e, h, ==_iff i j)
  keeps_push o (wakes_up i lt e) may j w h = ground (arith, e, h, ==_iff i j)
  keeps_push o (relocks i lt e free) may j w h = ground (arith, e, h, ==_iff i j)
  keeps_push o (takes i lt e reads unlinks) may j w h = ground (arith, e, h, ==_iff i j)
  keeps_push o (releases i p x lt e frees) may j w h = ground (arith, e, h, ==_iff i j)

  pub pc_of-merge :
      (p : Place A) (c : Pc A)
      → ((v : A) → pc_of p ≡ pushing v → c ≡ pushing v)
      → pc_of (merge p c) ≡ c
  pc_of-merge (stands _) c keep = refl
  pc_of-merge (made v p) c keep = sym (keep v refl)
  pc_of-merge (entered v p) c keep = sym (keep v refl)
  pc_of-merge (filled v p) c keep = sym (keep v refl)
  pc_of-merge (linked v p) c keep = sym (keep v refl)
