-- ===== src/OptimizedQueue/Chain.antt =====
-- What a linked list stands for: the address and the item of each node, from the head to the dummy.
use concurrencycourse.Prelude.{
  ◌≡◌, refl, ap, ◌≢◌, true, false, ◌||◌, Option, none, some, List, [], ◌∷◌, ◌++◌, arith, ◌==◌, has,
}
use concurrencycourse.OptimizedQueue.Memory.{Ptr, Node, Memory}

abbrev pub Cells : Type 0 → Type 0
Cells A = List (Ptr × A)

module _ {A : Type 0} where
  -- Where the cells begin, and the addresses of their nodes, the dummy's at the end.
  abbrev pub first : Cells A → Ptr → Ptr
  first [] tail = tail
  first ((p, _) ∷ _) tail = p

  abbrev pub addresses : Cells A → Ptr → List Ptr
  addresses [] tail = tail ∷ []
  addresses ((p, _) ∷ cells) tail = p ∷ addresses cells tail

  abbrev pub items : Cells A → List A
  items [] = []
  items ((_, x) ∷ cells) = x ∷ items cells

  -- Each node holds its item and points to the next; the dummy is empty.
  abbrev pub Chain : (Ptr → Option (Node A)) → Cells A → Ptr → Type 0
  Chain h [] tail = h tail ≡ some (record { item = none; next = none })
  Chain h ((p, x) ∷ cells) tail =
      (h p ≡ some (record { item = some x; next = some (first cells tail) })) × Chain h cells tail

abbrev pub Distinct : List Ptr → Type 0
Distinct [] = Unit
Distinct (p ∷ ps) = (has p ps ≡ false) × Distinct ps

module _ {A : Type 0} where
  -- The queue holds `cells`.
  pub record Holds (m : Memory A) (cells : Cells A) : Type 0 where
    pub chain : Chain m.heap cells m.tail
    pub head : m.head ≡ some (first cells m.tail)
    pub distinct : Distinct (addresses cells m.tail)

  -- The queue holds `cells`, and no node is in memory besides.
  pub record IsQueue (m : Memory A) (cells : Cells A) : Type 0 where
    pub holds : Holds m cells
    pub open holds use *
    pub no_leak : (a : Ptr) → has a (addresses cells m.tail) ≡ false → m.heap a ≡ none

  pub Chain-frame :
      (h h' : Ptr → Option (Node A)) (cells : Cells A) (tail : Ptr)
      → ((a : Ptr) → has a (addresses cells tail) ≡ true → h' a ≡ h a)
      → Chain h cells tail
      → Chain h' cells tail
  Chain-frame h h' [] tail same c = ground (arith, same tail)
  Chain-frame h h' ((p, x) ∷ cells) tail same (a, c) =
      (ground (arith, same p), Chain-frame h h' cells tail (λ b i. same b (ground arith)) c)

  pub has-tail : (cells : Cells A) (tail : Ptr) → has tail (addresses cells tail) ≡ true
  has-tail [] tail = ground arith
  has-tail ((p, x) ∷ cells) tail = ground (arith, has-tail cells tail)

  -- Every address of the list is in use.
  pub has-allocated :
      (h : Ptr → Option (Node A)) (cells : Cells A) (tail : Ptr)
      → Chain h cells tail
      → (a : Ptr) → h a ≡ none
      → has a (addresses cells tail) ≡ false
  has-allocated h [] tail c a e = ground arith
  has-allocated h ((p, x) ∷ cells) tail (b, c) a e = ground (arith, has-allocated h cells tail c a)

  pub first-append :
      (cells : Cells A) (p : Ptr) (x : A) (tail : Ptr)
      → first (cells ++ (p, x) ∷ []) tail ≡ first cells p
  first-append [] p x tail = refl
  first-append (_ ∷ cells) p x tail = refl

  pub has-append :
      (a : Ptr) (cells : Cells A) (p : Ptr) (x : A) (tail : Ptr)
      → has a (addresses (cells ++ (p, x) ∷ []) tail) ≡ (has a (addresses cells p) || (tail == a))
  has-append a [] p x tail = ground arith
  has-append a ((q, y) ∷ cells) p x tail = ground (arith, has-append a cells p x tail)

  pub Distinct-append :
      (cells : Cells A) (p : Ptr) (x : A) (tail : Ptr)
      → has tail (addresses cells p) ≡ false
      → Distinct (addresses cells p)
      → Distinct (addresses (cells ++ (p, x) ∷ []) tail)
  Distinct-append [] p x tail new d = ground arith
  Distinct-append ((q, y) ∷ cells) p x tail new d = (
    ground (arith, has-append q cells p x tail),
    Distinct-append cells p x tail (ground arith) d.1,
  )

  -- A dummy that is filled and linked to a new dummy becomes the last cell.
  pub Chain-append :
      (h h' : Ptr → Option (Node A)) (cells : Cells A) (p : Ptr) (x : A) (tail : Ptr)
      → h tail ≡ none
      → Distinct (addresses cells p)
      → ((a : Ptr) → a ≢ p → a ≢ tail → h' a ≡ h a)
      → h' p ≡ some (record { item = some x; next = some tail })
      → h' tail ≡ some (record { item = none; next = none })
      → Chain h cells p
      → Chain h' (cells ++ (p, x) ∷ []) tail
  Chain-append h h' [] p x tail free d same at_p at_tail c = (at_p, at_tail)
  Chain-append h h' ((q, y) ∷ cells) p x tail free d same at_p at_tail (a, c) = (
    ground (arith, same q, has-tail cells p, first-append cells p x tail),
    Chain-append h h' cells p x tail free d.1 same at_p at_tail c,
  )

  pub items-append :
      (cells : Cells A) (p : Ptr) (x : A) → items (cells ++ (p, x) ∷ []) ≡ items cells ++ x ∷ []
  items-append [] p x = refl
  items-append ((_, y) ∷ cells) p x = ap (λ ys. y ∷ ys) (items-append cells p x)

  pub tail-dummy :
      (h : Ptr → Option (Node A)) (cells : Cells A) (tail : Ptr)
      → Chain h cells tail
      → h tail ≡ some (record { item = none; next = none })
  tail-dummy h [] tail c = c
  tail-dummy h (_ ∷ cells) tail c = tail-dummy h cells tail c.1
