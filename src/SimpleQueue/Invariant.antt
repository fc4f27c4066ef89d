-- ===== src/SimpleQueue/Invariant.antt =====
-- What holds in every state of the threads of a `SimpleThreadSafeQueue`.
use concurrencycourse.Prelude.{
  ℕ, ◌+◌, ◌≤◌, ◌<◌, ◌≡◌, refl, sym, ap, ◌∙◌, Bool, true, false, some, List, [], ◌∷◌, ◌++◌,
  append_assoc, arith, ==_iff, length, length-append, update,
}
use concurrencycourse.Prelude.Threads.{total, total-update}
use concurrencycourse.SimpleQueue.{
  push, wait_and_pop-some, wait_and_pop-none, try_pop-true, try_pop-false,
}
use concurrencycourse.SimpleQueue.Threads.{
  Pc, Shared, Move, inside, notifying, sleeping, woken, rechecking, leaving, call, enter, push_back,
  pop_at_once, sleep, wake_up, reenter, pop_awake, sleep_again, try_success, try_failure,
}

-- Between taking `m_mutex` and giving it back.
abbrev pub holds : {A : Type 0} → Pc A → Bool
holds (inside _) = true
holds notifying = true
holds rechecking = true
holds leaving = true
holds _ = false

-- A thread that will look at the queue, or that will wake one that does.
abbrev pub awake : {A : Type 0} → Pc A → ℕ
awake notifying = 1
awake woken = 1
awake rechecking = 1
awake _ = 0

module _ {A : Type 0} where
  pub record Inv (n : ℕ) (m : Shared A) (pc : ℕ → Pc A) : Type 0 where
    pub holder : (i : ℕ) → holds (pc i) ≡ true → m.owner ≡ some i
    pub held : (i : ℕ) → m.owner ≡ some i → holds (pc i) ≡ true
    pub fifo : m.pushed ≡ m.popped ++ m.queue
    pub served : (j : ℕ) → j < n → pc j ≡ sleeping → length m.queue ≤ total awake n pc

  module _ {n : ℕ} {m : Shared A} {pc : ℕ → Pc A} (inv : Inv n m pc) (i : ℕ) where
    open inv use {holder, held, fifo, served}

    -- Thread `i` goes from `p` to `p'`. A match on `Move` needs the variable `p` for `pc i`.
    record Mover (p p' : Pc A) : Type 0 where
      here : pc i ≡ p
      count : total awake n (update pc i p') + awake p ≡ total awake n pc + awake p'

    mover : i < n → (p' : Pc A) → Mover (pc i) p'
    mover lt p' = record { here = refl; count = total-update awake n pc i p' lt }

    -- Taking the first item of the queue moves it to the end of the history.
    fifo_pop :
        {x : A} {rest : List A} → m.queue ≡ x ∷ rest → m.pushed ≡ (m.popped ++ x ∷ []) ++ rest
    fifo_pop {x} {rest} e = fifo ∙ ap (◌++◌ m.popped) e ∙ sym (append_assoc m.popped (x ∷ []) rest)

    Move-fifo : {p p' : Pc A} {m' : Shared A} → Move i m p m' p' → m'.pushed ≡ m'.popped ++ m'.queue
    unfolding push
    Move-fifo (push_back {v}) = rw fifo (append_assoc m.popped m.queue (v ∷ []))
    Move-fifo (pop_at_once e) = fifo_pop (wait_and_pop-some m.queue e)
    Move-fifo (pop_awake e) = fifo_pop (wait_and_pop-some m.queue e)
    Move-fifo (try_success {val} e) = fifo_pop (try_pop-true val m.queue e)
    Move-fifo (try_failure {val} e) = ground (arith, fifo, try_pop-false val m.queue e)
    Move-fifo mv = fifo

    Move-served :
        {p p' : Pc A} {m' : Shared A}
        → Move i m p m' p'
        → Mover p p'
        → (j : ℕ) → j < n
        → update pc i p' j ≡ sleeping
        → length m'.queue ≤ total awake n (update pc i p')
    unfolding push
    Move-served (push_back {v}) f j lt q = ground (arith, served j, length-append m.queue (v ∷ []))
    Move-served (pop_at_once e) f j lt q = ground (arith, served j, wait_and_pop-some m.queue e)
    Move-served (pop_awake e) f j lt q = ground (arith, served j, wait_and_pop-some m.queue e)
    Move-served (sleep e) f j lt q = rw (wait_and_pop-none m.queue e) (omega arith)
    Move-served (sleep_again e) f j lt q = rw (wait_and_pop-none m.queue e) (omega arith)
    Move-served (try_success {val} e) f j lt q =
        ground (arith, served j, try_pop-true val m.queue e)
    Move-served (try_failure {val} e) f j lt q = ground (arith, try_pop-false val m.queue e)
    Move-served wake_up f j lt q = ground (arith, served j)
    Move-served mv f j lt q = ground (arith, served j)

    Move-holder :
        {p p' : Pc A} {m' : Shared A}
        → Move i m p m' p'
        → pc i ≡ p
        → (j : ℕ) → holds (update pc i p' j) ≡ true
        → m'.owner ≡ some j
    Move-holder (enter {c} free) f j q = ground (arith, free, holder j, ==_iff i j)
    Move-holder (reenter free) f j q = ground (arith, free, holder j, ==_iff i j)
    Move-holder mv f j q = ground (arith, holder j, holder i)

    Move-held :
        {p p' : Pc A} {m' : Shared A}
        → Move i m p m' p'
        → pc i ≡ p
        → (j : ℕ) → m'.owner ≡ some j
        → holds (update pc i p' j) ≡ true
    Move-held (call c) f j q = ground (arith, held j, holder i)
    Move-held mv f j q = ground (arith, held j, holder i)

    pub Move-Inv :
        {p' : Pc A} {m' : Shared A} → i < n → Move i m (pc i) m' p' → Inv n m' (update pc i p')
    Move-Inv {p'} lt mv = record {
      holder = Move-holder mv refl;
      held = Move-held mv refl;
      fifo = Move-fifo mv;
      served = Move-served mv (mover lt p');
    }
