-- ===== src/ThreadPool/Held.antt =====
-- Who has `m_tasksCompleteMutex`, and that no worker leaves a pool that is not destroyed.
use concurrencycourse.Prelude.{
  ℕ, ◌<◌, ◌≡◌, refl, sym, ◌∙◌, ◌≢◌, true, false, some, arith, ==_iff, update, update_elim,
}
use concurrencycourse.ThreadPool.System.{
  Worker, Client, Pool, Work, Move, System, Step, Reach, exited, go_on, stop, pop, yield, run, last,
  not_last, submit, push, wait_all, lock, relock, complete, incomplete, sleep, wake_up, works,
  notifies, moves, stops, start, later,
}
use concurrencycourse.ThreadPool.Invariant.{holds}

module _ {A : Type 0} where
  pub record Staffed (k : ℕ) (s : System A) : Type 0 where
    pub alive : s.pool.done ≡ false → (i : ℕ) → s.workers i ≢ exited
    pub held : (j : ℕ) → s.pool.owner ≡ some j → (j < k) × (holds (s.clients j) ≡ true)

  Work-alive :
      {p p' : Pool A} {w w' : Worker A}
      → Work p w p' w'
      → (p'.done ≡ p.done) × (p'.owner ≡ p.owner) × (p'.done ≡ false → w' ≢ exited)
  Work-alive (go_on e) = (refl, refl, λ f q. cc)
  Work-alive (stop e) = (refl, refl, λ f q. cc)
  Work-alive (pop val e) = (refl, refl, λ f q. cc)
  Work-alive (yield val e) = (refl, refl, λ f q. cc)
  Work-alive run = (refl, refl, λ f q. cc)
  Work-alive (last e) = (refl, refl, λ f q. cc)
  Work-alive (not_last e) = (refl, refl, λ f q. cc)

module _ {A : Type 0} {k : ℕ} where
  module _ {s : System A} (staff : Staffed k s) where
    Move-held :
        (i : ℕ) {c c' : Client A} {p : Pool A}
        → i < k
        → s.clients i ≡ c
        → Move i s.pool c p c'
        → (j : ℕ) → p.owner ≡ some j
        → (j < k) × (holds (update s.clients i c' j) ≡ true)
    Move-held i lt at (lock free) j e = ground (arith, e, lt, ==_iff i j)
    Move-held i lt at (relock free) j e = ground (arith, e, lt, ==_iff i j)
    Move-held i lt at (complete none_left) j e = cc e
    Move-held i lt at sleep j e = cc e
    Move-held i lt at (incomplete some_left) j e = ground (arith, at, e, staff.held j)
    Move-held i lt at (submit task small) j e = ground (arith, at, e, staff.held j)
    Move-held i lt at push j e = ground (arith, at, e, staff.held j)
    Move-held i lt at wait_all j e = ground (arith, at, e, staff.held j)
    Move-held i lt at wake_up j e = ground (arith, at, e, staff.held j)

    Move-done : (i : ℕ) {c c' : Client A} {p : Pool A} → Move i s.pool c p c' → p.done ≡ s.pool.done
    Move-done i (submit task small) = refl
    Move-done i push = refl
    Move-done i wait_all = refl
    Move-done i (lock free) = refl
    Move-done i (relock free) = refl
    Move-done i (complete none_left) = refl
    Move-done i (incomplete some_left) = refl
    Move-done i sleep = refl
    Move-done i wake_up = refl

    Step-Staffed : {n : ℕ} {t : System A} → Step n k s t → Staffed k t
    Step-Staffed (works i {p} {w} lt mv) =
        let (d, o, here) = Work-alive mv in
        record {
          alive = λ f.
              update_elim (λ (j : ℕ) (v : Worker A). v ≢ exited) s.workers i w (here f)
                (λ j ne. staff.alive (sym d ∙ f) j);
          held = λ j e. staff.held j (sym o ∙ e);
        }
    Step-Staffed (notifies i lt e free) = record {
      alive = λ f j q. ground (arith, q, staff.alive f j);
      held = λ j q. cc (free, q);
    }
    Step-Staffed (moves i lt mv) = record {
      alive = λ f. staff.alive (sym (Move-done i mv) ∙ f);
      held = Move-held i lt refl mv;
    }
    Step-Staffed stops = record { alive = λ f. cc; held = staff.held }

  pub Reach-Staffed : {n : ℕ} {s : System A} → Reach n k s → Staffed k s
  Reach-Staffed start = record { alive = λ f i. λ q. cc; held = λ j e. cc }
  Reach-Staffed (later r st) = Step-Staffed (Reach-Staffed r) st
