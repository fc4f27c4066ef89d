-- ===== src/ConcurrentMap/Threads.antt =====
-- Threads that use one map, in any interleaving, with `m_mutex` explicit: the methods of
-- `optimized_concurrent_map` in src/5_concurrent_map_2.cpp, which are those of src/concurrent_map.h.
use concurrencycourse.Prelude.{ℕ, ◌<◌, ◌≡◌, Option, none, some, List, [], ◌∷◌, ◌++◌, update}
use concurrencycourse.ConcurrentMap.Ordered.{Less, find, assign, erase}
use concurrencycourse.ConcurrentMap.Methods.{second}

module _ (K V : Type 0) where
  pub data Call : Type 0 where
    updates : K → V → Call
    gets : K → Call
    removes : K → Call
    fetches : K → Call  -- with a handler that does not call the map
    dumps : Call

  -- What a call gives back; of `Fetch`, the pair that the handler was called with.
  pub data Reply : Type 0 where
    done : Reply
    got : Option V → Reply
    handled : Option (K × V) → Reply
    dumped : List (K × V) → Reply

  -- The code of a thread, with result in `R`: it ends, or it calls the map and goes on with the reply.
  pub data Program (R : Type 0) : Type 0 where
    finished : R → Program R
    calls : Call → (Reply → Program R) → Program R

  -- Where a thread stands.
  pub data Pc (R : Type 0) : Type 0 where
    running : Program R → Pc R
    locking : Call → (Reply → Program R) → Pc R  -- before the `lock_guard`
    inside : Call → (Reply → Program R) → Pc R  -- has the mutex, before the body
    -- in the body: has looked into `m_data`, which had these pairs, and has not written to it yet
    working : Call → (Reply → Program R) → List (K × V) → Pc R
    leaving : Reply → (Reply → Program R) → Pc R  -- the body is done, the mutex not yet given back

  -- One body that ran to its end: its thread, the call and the reply.
  pub record Event : Type 0 where
    pub thread : ℕ
    pub call : Call
    pub reply : Reply

  -- `log` is a history of the bodies in the order in which they ended.
  pub record Shared : Type 0 where
    pub pairs : List (K × V)
    pub owner : Option ℕ
    pub log : List Event

  pub record System (R : Type 0) : Type 0 where
    pub shared : Shared
    pub pc : ℕ → Pc R

module _ {K V : Type 0} ⦃o : Less K⦄ where
  -- The bodies of the methods: the reply, and the pairs after it.
  unfoldable pub body : Call K V → List (K × V) → Reply K V × List (K × V)
  body (updates key value) pairs = (done, assign key value pairs)
  body (gets key) pairs = (got (second (find key pairs)), pairs)
  body (removes key) pairs = (done, erase key pairs)
  body (fetches key) pairs = (handled (find key pairs), pairs)
  body dumps pairs = (dumped pairs, pairs)

  -- The body ends, for a thread that saw the pairs `seen`: `m_data` is what it made of them.
  abbrev pub after_body : ℕ → Call K V → List (K × V) → Shared K V → Shared K V
  after_body i c seen m = record m {
    pairs = (body c seen).1;
    log = m.log ++ (record { thread = i; call = c; reply = (body c seen).0 }) ∷ [];
  }

  module _ {R : Type 0} where
    -- What thread `i` can do. A body is two steps, as nothing but the mutex keeps other threads from
    -- changing `m_data` between its reads and its writes: its writes go by what it read.
    pub data Move (i : ℕ) (m : Shared K V) : Pc K V R → Shared K V → Pc K V R → Type 0 where
      call_map :
          {c : Call K V} {k : Reply K V → Program K V R}
          → Move i m (running (calls c k)) m (locking c k)
      lock :
          {c : Call K V} {k : Reply K V → Program K V R}
          → m.owner ≡ none
          → Move i m (locking c k) (record m { owner = some i }) (inside c k)
      look :
          {c : Call K V} {k : Reply K V → Program K V R}
          → Move i m (inside c k) m (working c k m.pairs)
      write :
          {c : Call K V} {k : Reply K V → Program K V R} {seen : List (K × V)}
          → Move i m (working c k seen) (after_body i c seen m) (leaving (body c seen).0 k)
      unlock :
          {r : Reply K V} {k : Reply K V → Program K V R}
          → Move i m (leaving r k) (record m { owner = none }) (running (k r))

    pub data Step (n : ℕ) (s : System K V R) : System K V R → Type 0 where
      moves :
          (i : ℕ) {m : Shared K V} {p : Pc K V R}
          → i < n
          → Move i s.shared (s.pc i) m p
          → Step n s (record { shared = m; pc = update s.pc i p })

    -- Each thread is about to run its program, on a map with these pairs.
    abbrev pub start_of : List (K × V) → (ℕ → Program K V R) → System K V R
    start_of pairs programs = record {
      shared = record { pairs = pairs; owner = none; log = [] };
      pc = λ i. running (programs i);
    }

    pub data Reach (n : ℕ) (s : System K V R) : System K V R → Type 0 where
      here : Reach n s s
      later : {t u : System K V R} → Reach n s t → Step n t u → Reach n s u
