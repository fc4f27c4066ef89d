-- ===== src/OptimizedQueue/Fine/Writes.antt =====
-- The writes of a `push` return, and their threads can go on.
use concurrencycourse.Prelude.{
  ℕ, ◌<◌, ◌≡◌, refl, sym, ap, ◌∙◌, ◌≢◌, true, none, some, arith, ==_iff, update,
}
use concurrencycourse.OptimizedQueue.Memory.{Ptr, Node, Memory, ok, load}
use concurrencycourse.OptimizedQueue.Push.{dummy}
use concurrencycourse.OptimizedQueue.Threads.{Pc, outside, pushing, notifying, sleeping}
use concurrencycourse.OptimizedQueue.Fine.{
  Place, stands, made, entered, filled, linked, Fine, pc_of, merge, FineStep, FineReach, others,
  makes, locks_tail, sets_data, sets_next, sets_tail, begin, after, new_node, set_data, set_next,
}
use concurrencycourse.OptimizedQueue.Fine.Near.{has_tail}

module _ {A : Type 0} where
  -- Only the `n` threads are within a `push`.
  abbrev pub InRange : ℕ → Fine A → Type 0
  InRange n s = (i : ℕ) → has_tail (s.place i) ≡ true → i < n

  merge-InRange : (p : Place A) (c : Pc A) → has_tail (merge p c) ≡ true → has_tail p ≡ true
  merge-InRange p c h = ground (arith, h)

  Step-InRange : {n : ℕ} {s t : Fine A} → FineStep n s t → InRange n s → InRange n t
  Step-InRange {s} (others {t} st may) range j h = range j (merge-InRange (s.place j) (t.pc j) h)
  Step-InRange (makes i v p lt at free did) range j h = ground (arith, lt, h, range j, ==_iff i j)
  Step-InRange (locks_tail i v p lt at free) range j h = ground (arith, lt, h, range j, ==_iff i j)
  Step-InRange (sets_data i v p lt at did) range j h = ground (arith, lt, h, range j, ==_iff i j)
  Step-InRange (sets_next i v p lt at did) range j h = ground (arith, lt, h, range j, ==_iff i j)
  Step-InRange (sets_tail i v p lt at) range j h = ground (arith, lt, h, range j, ==_iff i j)

  pub Reach-InRange : {n : ℕ} {fresh : Ptr} {s : Fine A} → FineReach n fresh s → InRange n s
  Reach-InRange begin i = λ h. cc h
  Reach-InRange (after r st) i = Step-InRange st (Reach-InRange r) i

  -- A thread that is in a call and not asleep goes on.
  pub record FineGoes (n : ℕ) (s : Fine A) : Type 0 where
    pub thread : ℕ
    pub is_thread : thread < n
    pub is_begun : s.place thread ≢ stands outside
    pub is_awake : s.place thread ≢ stands sleeping
    pub then_at : Fine A
    pub step : FineStep n s then_at
    pub moved : then_at.place thread ≢ s.place thread

  set_data-ok :
      (m : Memory A) (v : A) {node : Node A}
      → m.heap m.tail ≡ some node
      → (m' : Memory A) × (set_data v m ≡ ok tt m')
  unfolding set_data load
  set_data-ok m v {node} at = (
    record m { heap = update m.heap m.tail (some (record node { item = some v })) },
    ground (arith, at),
  )

  set_next-ok :
      (m : Memory A) (p : Ptr) {node : Node A}
      → m.heap m.tail ≡ some node
      → (m' : Memory A) × (set_next p m ≡ ok tt m')
  unfolding set_next load
  set_next-ok m p {node} at = (
    record m { heap = update m.heap m.tail (some (record node { next = some p })) },
    ground (arith, at),
  )

  new_node-ok : (m : Memory A) (p : Ptr) → (m' : Memory A) × (new_node p m ≡ ok tt m')
  unfolding new_node
  new_node-ok m p = (record m { heap = update m.heap p (some dummy) }, refl)

  at_self : (place : ℕ → Place A) (i : ℕ) (p : Place A) → update place i p i ≡ p
  at_self place i p = ground (arith, ==_iff i i)

  module _ {n : ℕ} {s : Fine A} where
    -- Thread `i` goes from one place to another within a `push`.
    goes :
        {t : Fine A} (i : ℕ) {p p' : Place A}
        → i < n
        → s.place i ≡ p
        → FineStep n s t
        → t.place i ≡ p'
        → p ≢ stands outside
        → p ≢ stands sleeping
        → p' ≢ p
        → FineGoes n s
    goes {t} i lt at st at' begun awake moved = record {
      thread = i;
      is_thread = lt;
      is_begun = λ e. begun (sym at ∙ e);
      is_awake = λ e. awake (sym at ∙ e);
      then_at = t;
      step = st;
      moved = λ e. moved (sym at' ∙ e ∙ at);
    }

    -- The owner of `tail_mutex` makes its next write.
    pub owner-Goes :
        {node : Node A} (i : ℕ) (p : Place A)
        → i < n
        → s.memory.heap s.memory.tail ≡ some node
        → s.place i ≡ p
        → has_tail p ≡ true
        → FineGoes n s
    owner-Goes i (entered v p) lt node at h =
        let (m, did) = set_data-ok s.memory v node in
        goes i lt at (sets_data i v p lt at did) (at_self s.place i (filled v p)) (λ e. cc e)
          (λ e. cc e) (λ e. cc e)
    owner-Goes i (filled v p) lt node at h =
        let (m, did) = set_next-ok s.memory p node in
        goes i lt at (sets_next i v p lt at did) (at_self s.place i (linked v p)) (λ e. cc e)
          (λ e. cc e) (λ e. cc e)
    owner-Goes i (linked v p) lt node at h =
        goes i lt at (sets_tail i v p lt at) (at_self s.place i (stands notifying)) (λ e. cc e)
          (λ e. cc e) (λ e. cc e)
    owner-Goes i (stands c) lt node at h = cc h
    owner-Goes i (made v p) lt node at h = cc h

    -- A thread before or at the lock of `tail_mutex`, which is free.
    pub pusher-Goes :
        (fresh : Ptr) {v : A} (i : ℕ) (p : Place A)
        → i < n
        → s.memory.heap fresh ≡ none
        → s.tail_owner ≡ none
        → s.place i ≡ p
        → pc_of p ≡ pushing v
        → (has_tail p ≡ true → s.tail_owner ≡ some i)
        → FineGoes n s
    pusher-Goes fresh {v} i (stands c) lt unused free at h owner =
        let (m, did) = new_node-ok s.memory fresh in
        goes i lt (at ∙ ap stands h) (makes i v fresh lt (at ∙ ap stands h) unused did)
          (at_self s.place i (made v fresh)) (λ e. cc e) (λ e. cc e) (λ e. cc e)
    pusher-Goes fresh i (made w p) lt unused free at h owner =
        goes i lt at (locks_tail i w p lt at free) (at_self s.place i (entered w p)) (λ e. cc e)
          (λ e. cc e) (λ e. cc e)
    pusher-Goes fresh i (entered w p) lt unused free at h owner = cc (owner refl, free)
    pusher-Goes fresh i (filled w p) lt unused free at h owner = cc (owner refl, free)
    pusher-Goes fresh i (linked w p) lt unused free at h owner = cc (owner refl, free)
