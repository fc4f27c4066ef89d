-- ===== src/OptimizedQueue/Push.antt =====
-- `push` and the constructor.
use concurrencycourse.Prelude.{
  ◌≡◌, refl, sym, ◌∙◌, ◌≢◌, false, ◌||◌, none, some, [], ◌∷◌, ◌++◌, arith, ◌==◌, update, has,
}
use concurrencycourse.OptimizedQueue.Memory.{Ptr, Node, Memory, ok, load}
use concurrencycourse.OptimizedQueue.Methods.{construct, push}
use concurrencycourse.OptimizedQueue.Chain.{
  Cells, Holds, IsQueue, Chain-append, Distinct-append, has-allocated, has-append, first-append,
  has-tail, tail-dummy, addresses,
}

module _ {A : Type 0} where
  abbrev pub dummy : Node A
  dummy = record { item = none; next = none }

  -- The memory after `push`, seen an address at a time.
  pub record Pushed (fresh : Ptr) (v : A) (m m' : Memory A) : Type 0 where
    pub tail : m'.tail ≡ fresh
    pub head : m'.head ≡ m.head
    pub filled : m'.heap m.tail ≡ some (record { item = some v; next = some fresh })
    pub added : m'.heap fresh ≡ some dummy
    pub same : (a : Ptr) → a ≢ m.tail → a ≢ fresh → m'.heap a ≡ m.heap a

  abbrev after_push : Ptr → A → Memory A → Memory A
  after_push fresh v m = record m {
    heap =
        update
          (update (update m.heap fresh (some dummy)) m.tail
            (some (record { item = some v; next = none })))
          m.tail (some (record { item = some v; next = some fresh }));
    tail = fresh;
  }

  pub push-Pushed :
      (fresh : Ptr) (v : A) (m : Memory A)
      → m.heap m.tail ≡ some dummy
      → m.heap fresh ≡ none
      → (m' : Memory A) × (push fresh v m ≡ ok tt m') × Pushed fresh v m m'
  unfolding push load
  push-Pushed fresh v m at_tail free = (
    after_push fresh v m,
    ground arith,
    record {
      tail = refl;
      head = refl;
      filled = ground arith;
      added = ground arith;
      same = λ a ne ne'. ground arith;
    },
  )

  apart_tail : (cells : Cells A) (tail a : Ptr) → has a (addresses cells tail) ≡ false → a ≢ tail
  apart_tail cells tail a out e = ground (arith, e, has-tail cells tail)

  -- An address outside the longer list is outside the shorter one, and is not the new dummy's.
  outside :
      (fresh : Ptr) (v : A) (cells : Cells A) (tail a : Ptr)
      → has a (addresses (cells ++ (tail, v) ∷ []) fresh) ≡ false
      → (has a (addresses cells tail) ≡ false) × (a ≢ fresh)
  outside fresh v cells tail a out =
      let both : (has a (addresses cells tail) || (fresh == a)) ≡ false =
        sym (has-append a cells tail v fresh) ∙ out in
      (ground arith, ground arith)

  pub Pushed-Holds :
      (fresh : Ptr) (v : A) {m m' : Memory A} {cells : Cells A}
      → Holds m cells
      → m.heap fresh ≡ none
      → Pushed fresh v m m'
      → Holds m' (cells ++ (m.tail, v) ∷ [])
  Pushed-Holds fresh v {m} {m'} {cells} is free did =
      let new = has-allocated m.heap cells m.tail is.chain fresh free in
      record {
        chain = rw did.tail (
            Chain-append m.heap m'.heap cells m.tail v fresh free is.distinct did.same did.filled
              did.added is.chain);
        head = ground (arith, did.head, did.tail, is.head, first-append cells m.tail v fresh);
        distinct = rw did.tail (Distinct-append cells m.tail v fresh new is.distinct);
      }

  Pushed-no_leak :
      (fresh : Ptr) (v : A) {m m' : Memory A} {cells : Cells A}
      → IsQueue m cells
      → Pushed fresh v m m'
      → (a : Ptr) → has a (addresses (cells ++ (m.tail, v) ∷ []) m'.tail) ≡ false
      → m'.heap a ≡ none
  Pushed-no_leak fresh v {m} {m'} {cells} is did a out =
      let (not_before, not_new) = outside fresh v cells m.tail a (rw did.tail at out) in
      did.same a (apart_tail cells m.tail a not_before) not_new ∙ is.no_leak a not_before

  -- With any unused address from `new`, `push` returns, and the queue then holds the new item behind
  -- all others: the dummy has become its node, and the new node is the dummy.
  push-append :
      (fresh : Ptr) (v : A) (m : Memory A) {cells : Cells A}
      → IsQueue m cells
      → m.heap fresh ≡ none
      → (m' : Memory A) × (push fresh v m ≡ ok tt m') × IsQueue m' (cells ++ (m.tail, v) ∷ [])
  push-append fresh v m {cells} is free =
      let (m', ran, did) = push-Pushed fresh v m (tail-dummy m.heap cells m.tail is.chain) free in
      (
        m',
        ran,
        record {
          holds = Pushed-Holds fresh v is.holds free did;
          no_leak = Pushed-no_leak fresh v is did;
        },
      )

  -- The constructor makes an empty queue.
  pub construct-IsQueue : (fresh : Ptr) → IsQueue (construct {A = A} fresh) []
  unfolding construct
  construct-IsQueue fresh = record {
    holds = record { chain = ground arith; head = refl; distinct = ground arith };
    no_leak = λ a out. ground arith;
  }
