-- ===== src/OptimizedQueue/Fine/Races.antt =====
-- No two threads are at the same node at a time.
use concurrencycourse.Prelude.{
  ℕ, ◌≡◌, refl, sym, ap, ◌∙◌, ◌≢◌, ◌⊎◌, inl, inr, true, some, [], ◌∷◌, arith, ==_iff, has,
}
use concurrencycourse.OptimizedQueue.Memory.{Ptr, Memory}
use concurrencycourse.OptimizedQueue.Chain.{Cells, Holds, first, addresses, has-tail}
use concurrencycourse.OptimizedQueue.Threads.{
  outside, pushing, notifying, locking, testing, blocking, sleeping, woken, taking, releasing,
}
use concurrencycourse.OptimizedQueue.Invariant.{Inv, has_head}
use concurrencycourse.OptimizedQueue.Fine.{
  Place, stands, made, entered, filled, linked, Fine, pc_of, FineReach,
}
use concurrencycourse.OptimizedQueue.Fine.Near.{has_tail}
use concurrencycourse.OptimizedQueue.Fine.Seen.{seen, Seen, here_Inv}
use concurrencycourse.OptimizedQueue.Fine.Refines.{fine-Refines}

module _ {A : Type 0} where
  -- The node whose fields a thread at this place is about to read or write: the head when it takes an
  -- item, the old head when it reads its item and frees it, the tail within a `push`.
  abbrev pub Touches : Fine A → Place A → Ptr → Type 0
  Touches s (stands taking) a = s.memory.head ≡ some a
  Touches s (stands (releasing p x)) a = p ≡ a
  Touches s (entered v p) a = s.memory.tail ≡ a
  Touches s (filled v p) a = s.memory.tail ≡ a
  Touches s _ a = ⊥

  abbrev AtHead : Memory A → Place A → Ptr → Type 0
  AtHead mc p a = (pc_of p ≡ taking) × (mc.head ≡ some a)

  abbrev AtOld : Place A → Ptr → Type 0
  AtOld p a = (x : A) × (pc_of p ≡ releasing a x)

  abbrev AtTail : Memory A → Place A → Ptr → Type 0
  AtTail mc p a = (has_tail p ≡ true) × (mc.tail ≡ a)

  Touches-kinds :
      (s : Fine A) (mc : Memory A) {a : Ptr} (p : Place A)
      → s.memory.head ≡ mc.head
      → s.memory.tail ≡ mc.tail
      → Touches s p a
      → AtHead mc p a ⊎ AtOld p a ⊎ AtTail mc p a
  Touches-kinds s mc (stands taking) head tail t = inl (refl, sym head ∙ t)
  Touches-kinds s mc (stands (releasing p x)) head tail t =
      inr (inl (x, ap (λ (q : Ptr). releasing q x) t))
  Touches-kinds s mc (entered v p) head tail t = inr (inr (refl, sym tail ∙ t))
  Touches-kinds s mc (filled v p) head tail t = inr (inr (refl, sym tail ∙ t))
  Touches-kinds s mc (stands outside) head tail t = absurd t
  Touches-kinds s mc (stands (pushing _)) head tail t = absurd t
  Touches-kinds s mc (stands notifying) head tail t = absurd t
  Touches-kinds s mc (stands (locking _)) head tail t = absurd t
  Touches-kinds s mc (stands (testing _)) head tail t = absurd t
  Touches-kinds s mc (stands blocking) head tail t = absurd t
  Touches-kinds s mc (stands sleeping) head tail t = absurd t
  Touches-kinds s mc (stands woken) head tail t = absurd t
  Touches-kinds s mc (made _ _) head tail t = absurd t
  Touches-kinds s mc (linked _ _) head tail t = absurd t

  head-first :
      {mc : Memory A} {cells : Cells A} {a : Ptr}
      → Holds mc cells
      → mc.head ≡ some a
      → first cells mc.tail ≡ a
  head-first holds at = cc (sym holds.head ∙ at)

  -- The first address of a list that is not empty is in it, and is not the tail's.
  head-inside :
      (mc : Memory A) (cells : Cells A) (a : Ptr)
      → Holds mc cells
      → cells ≢ []
      → mc.head ≡ some a
      → (has a (addresses cells mc.tail) ≡ true) × (a ≢ mc.tail)
  head-inside mc [] a holds full at = absurd (full refl)
  head-inside mc ((p, x) ∷ cells) a holds full at =
      let same : p ≡ a = head-first {mc = mc} {cells = (p, x) ∷ cells} holds at in
      (
        ground (arith, same, ==_iff p a),
        λ e. ground (arith, e, same, holds.distinct.0, has-tail cells mc.tail),
      )

  module _ {n : ℕ} {fresh : Ptr} {s : Fine A} (is : Seen n fresh s) where
    abbrev cells : Cells A
    cells = (here_Inv is).0

    inv : Inv (seen s is.memory) cells
    inv = (here_Inv is).1

    head_not_old : {a : Ptr} (i j : ℕ) → AtHead is.memory (s.place i) a → ¬ AtOld (s.place j) a
    head_not_old {a} i j (at, head) (x, at') =
        let (inside, _) = head-inside is.memory cells a inv.holds (inv.not_empty i at) head in
        cc (inside, (inv.flight j a x at').outside_list)

    head_not_tail :
        {a : Ptr} (i j : ℕ) → AtHead is.memory (s.place i) a → ¬ AtTail is.memory (s.place j) a
    head_not_tail {a} i j (at, head) (_, tail) =
        (head-inside is.memory cells a inv.holds (inv.not_empty i at) head).1 (sym tail)

    old_not_tail : {a : Ptr} (i j : ℕ) → AtOld (s.place i) a → ¬ AtTail is.memory (s.place j) a
    old_not_tail {a} i j (x, at) (_, tail) = cc (
      ap (λ (q : Ptr). has q (addresses cells is.memory.tail)) tail,
      has-tail cells is.memory.tail,
      (inv.flight i a x at).outside_list,
    )

    same_head :
        {a : Ptr} (i j : ℕ)
        → AtHead is.memory (s.place i) a
        → AtHead is.memory (s.place j) a
        → i ≡ j
    same_head i j (at, _) (at', _) =
        cc (inv.holder i (ap has_head at), inv.holder j (ap has_head at'))

    same_tail :
        {a : Ptr} (i j : ℕ)
        → AtTail is.memory (s.place i) a
        → AtTail is.memory (s.place j) a
        → i ≡ j
    same_tail i j (has, _) (has', _) = cc (is.near.owner i has, is.near.owner j has')

    apart :
        {a : Ptr} (i j : ℕ)
        → AtHead is.memory (s.place i) a ⊎ AtOld (s.place i) a ⊎ AtTail is.memory (s.place i) a
        → AtHead is.memory (s.place j) a ⊎ AtOld (s.place j) a ⊎ AtTail is.memory (s.place j) a
        → i ≡ j
    apart i j (inl h) (inl h') = same_head i j h h'
    apart i j (inl h) (inr (inl o)) = absurd (head_not_old i j h o)
    apart i j (inl h) (inr (inr t)) = absurd (head_not_tail i j h t)
    apart i j (inr (inl o)) (inl h) = absurd (head_not_old j i h o)
    apart {a} i j (inr (inl (x, at))) (inr (inl (y, at'))) = inv.apart i j a x y at at'
    apart i j (inr (inl o)) (inr (inr t)) = absurd (old_not_tail i j o t)
    apart i j (inr (inr t)) (inl h) = absurd (head_not_tail j i h t)
    apart i j (inr (inr t)) (inr (inl o)) = absurd (old_not_tail j i o t)
    apart i j (inr (inr t)) (inr (inr t')) = same_tail i j t t'

  -- The two mutexes keep the threads apart at the nodes: in every reachable state, in any interleaving
  -- of the calls and of the writes of each `push`, no two threads are about to read or write the same
  -- node.
  pub no_race :
      {n : ℕ} {fresh : Ptr} {s : Fine A} (a : Ptr) (i j : ℕ)
      → FineReach n fresh s
      → i ≢ j
      → Touches s (s.place i) a
      → ¬ Touches s (s.place j) a
  no_race {s} a i j r differ t t' =
      let is = fine-Refines r in
      differ (
        apart is i j (Touches-kinds s is.memory (s.place i) is.near.head is.near.tail t)
          (Touches-kinds s is.memory (s.place j) is.near.head is.near.tail t'))
