-- ===== src/Programs/Shuffle.antt =====
-- What two threads of src/3_mutex.cpp and src/7_condition_variable.cpp can have written together.
use concurrencycourse.Prelude.{List, [], ◌∷◌, ◌++◌}

module _ {A : Type 0} where
  -- `zs` has the elements of `xs` and of `ys`, those of each in their order.
  pub data Shuffle : List A → List A → List A → Type 0 where
    done : Shuffle [] [] []
    from_first : {x : A} {xs ys zs : List A} → Shuffle xs ys zs → Shuffle (x ∷ xs) ys (x ∷ zs)
    from_second : {y : A} {xs ys zs : List A} → Shuffle xs ys zs → Shuffle xs (y ∷ ys) (y ∷ zs)

  pub first-last :
      (c : A) {xs ys zs : List A} → Shuffle xs ys zs → Shuffle (xs ++ c ∷ []) ys (zs ++ c ∷ [])
  first-last c done = from_first done
  first-last c (from_first sh) = from_first (first-last c sh)
  first-last c (from_second sh) = from_second (first-last c sh)

  pub second-last :
      (c : A) {xs ys zs : List A} → Shuffle xs ys zs → Shuffle xs (ys ++ c ∷ []) (zs ++ c ∷ [])
  second-last c done = from_second done
  second-last c (from_first sh) = from_first (second-last c sh)
  second-last c (from_second sh) = from_second (second-last c sh)
