-- ===== src/OptimizedQueue/Memory.antt =====
-- The nodes of src/OptimizedThreadSafeQueue.h in memory, and commands that read and write it.
use concurrencycourse.Prelude.{ℕ, zero, suc, Option, none, some, update}

-- The address of a node; a `unique_ptr` is an `Option Ptr`.
abbrev pub Ptr : Type 0
Ptr = ℕ

module _ (A : Type 0) where
  -- `struct node`; the fields are `data` and `next`
  pub record Node : Type 0 where
    pub item : Option A
    pub next : Option Ptr

  -- The memory, and the members `head` and `tail` of the queue.
  pub record Memory : Type 0 where
    pub heap : Ptr → Option Node
    pub head : Option Ptr
    pub tail : Ptr

  -- How a call ends: it returns; it waits for `data_cond`; or it is undefined, as it reads through a
  -- null or dangling pointer, reads an empty `optional`, or runs out of stack.
  pub data Run (X : Type 0) : Type 0 where
    ok : X → Memory → Run X
    waits : Run X
    fault : Run X

-- A command on the memory of a queue.
abbrev pub Cmd : Type 0 → Type 0 → Type 0
Cmd A X = Memory A → Run A X

module _ {A : Type 0} where
  abbrev pub and_then : {X Y : Type 0} → Run A X → (X → Cmd A Y) → Run A Y
  and_then (ok x m) k = k x m
  and_then waits k = waits
  and_then fault k = fault

  infixl 5 ◌>>=◌ ◌>>◌
  abbrev pub ◌>>=◌ : {X Y : Type 0} → Cmd A X → (X → Cmd A Y) → Cmd A Y
  c >>= k = λ m. and_then (c m) k

  abbrev pub ◌>>◌ : {X Y : Type 0} → Cmd A X → Cmd A Y → Cmd A Y
  c >> d = c >>= λ _. d

  abbrev pub pure : {X : Type 0} → X → Cmd A X
  pure x = λ m. ok x m

  -- A null `unique_ptr`, or an empty `optional`, is dereferenced.
  abbrev pub the : {X : Type 0} → Option X → Cmd A X
  the none = λ _. fault
  the (some x) = pure x

  abbrev pub get_head : Cmd A (Option Ptr)
  get_head m = ok m.head m

  abbrev pub set_head : Option Ptr → Cmd A (Unit {0})
  set_head p m = ok tt (record m { head = p })

  abbrev pub write : Ptr → Option (Node A) → Cmd A (Unit {0})
  write p n m = ok tt (record m { heap = update m.heap p n })

  -- `*p`
  unfoldable pub load : Ptr → Cmd A (Node A)
  load p m = the (m.heap p) m

  -- The body of `get_tail`.
  abbrev pub get_tail : Cmd A Ptr
  get_tail m = ok m.tail m

  -- The destructor of a `unique_ptr<node>` destroys the node and, through it, those behind it. The
  -- first argument bounds the depth of the stack.
  unfoldable pub destroy : ℕ → Option Ptr → Cmd A (Unit {0})
  destroy depth none = pure tt
  destroy zero (some p) = λ _. fault
  destroy (suc depth) (some p) = do n ← load p; destroy depth n.next; write p none
