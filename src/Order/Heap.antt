-- ===== src/Order/Heap.antt =====
-- `std::collections::BinaryHeap`, by what its operations show: a bag whose greatest member is on
-- top. The bag is kept as its ascending list, so the top is the last member.
use gvector.Prelude.{◌≡◌, refl, ap, List, [], ◌∷◌, ◌++◌, Option, none, some}
use gvector.Order.Sort.{Ord, insert_sorted}

module _ {ℓ} {A : Type ℓ} where
  unfoldable pub peek : List A → Option A
  peek [] = none
  peek (x ∷ []) = some x
  peek (x ∷ y ∷ ys) = peek (y ∷ ys)

  -- The heap without its top.
  unfoldable pub pop : List A → List A
  pop [] = []
  pop (x ∷ []) = []
  pop (x ∷ y ∷ ys) = x ∷ pop (y ∷ ys)

  pub peek-some : (x : A) (xs : List A) → (w : A) × (peek (x ∷ xs) ≡ some w)
  unfolding peek
  peek-some x [] = (x, refl)
  peek-some x (y ∷ ys) = peek-some y ys

  pub pop-peek : (xs : List A) (w : A) → peek xs ≡ some w → xs ≡ pop xs ++ (w ∷ [])
  unfolding peek pop
  pop-peek [] w e = cc
  pop-peek (x ∷ []) w e = cc
  pop-peek (x ∷ y ∷ ys) w e = ap (◌∷◌ x) (pop-peek (y ∷ ys) w e)

  pub peek-append : (x : A) (xs : List A) → peek (xs ++ (x ∷ [])) ≡ some x
  unfolding peek
  peek-append x [] = refl
  peek-append x (y ∷ []) = refl
  peek-append x (y ∷ z ∷ ys) = peek-append x (z ∷ ys)

  pub pop-append : (x : A) (xs : List A) → pop (xs ++ (x ∷ [])) ≡ xs
  unfolding pop
  pop-append x [] = refl
  pop-append x (y ∷ []) = refl
  pop-append x (y ∷ z ∷ ys) = ap (◌∷◌ y) (pop-append x (z ∷ ys))

module _ {ℓ} {A : Type ℓ} ⦃o : Ord A⦄ where
  unfoldable pub push : A → List A → List A
  push = insert_sorted
