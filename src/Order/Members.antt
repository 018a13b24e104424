-- ===== src/Order/Members.antt =====
-- What the members of a list keep through a heap's push and pop and through a sort.
use gvector.Prelude.{
  ◌-◌, ◌<◌, ◌≡◌, refl, false, List, [], ◌∷◌, arith, Bool-cases, inl, inr, length, All,
}
use gvector.Order.Sort.{Ord, insert_sorted, sort, lt-false_trans, lt_asymm}
use gvector.Order.Heap.{pop}

module _ {ℓ κ} {A : Type ℓ} (P : A → Type κ) where
  pub All-pop : (xs : List A) → All P xs → All P (pop xs)
  unfolding pop
  All-pop [] h = tt
  All-pop (x ∷ []) h = tt
  All-pop (x ∷ y ∷ ys) (p, h) = (p, All-pop (y ∷ ys) h)

  module _ ⦃o : Ord A⦄ where
    pub All-insert_sorted : (a : A) (xs : List A) → P a → All P xs → All P (insert_sorted a xs)
    unfolding insert_sorted
    All-insert_sorted a [] p h = (p, tt)
    All-insert_sorted a (x ∷ xs) p (q, h) = elim (Bool-cases (o.lt a x)) [
      | inl e ↦ rw e (p, (q, h))
      | inr e ↦ rw e (q, All-insert_sorted a xs p h)
    ]

    pub All-sort : (xs : List A) → All P xs → All P (sort xs)
    unfolding sort
    All-sort [] h = tt
    All-sort (x ∷ xs) (p, h) = All-insert_sorted x (sort xs) p (All-sort xs h)

pub length-pop {ℓ} : {A : Type ℓ} (xs : List A) → length (pop xs) ≡ length xs - 1
unfolding pop
length-pop [] = refl
length-pop (x ∷ []) = refl
length-pop (x ∷ y ∷ ys) = omega (arith, length-pop (y ∷ ys))

module _ {ℓ} {A : Type ℓ} ⦃o : Ord A⦄ where
  -- The list has a first member, and it does not stand after `e`.
  abbrev pub Starts : A → List A → Type 0
  Starts e [] = ⊥
  Starts e (x ∷ xs) = o.lt e x ≡ false

  pub Starts-insert_sorted : (e a : A) (xs : List A) → Starts e xs → Starts e (insert_sorted a xs)
  unfolding insert_sorted
  Starts-insert_sorted e a [] h = absurd h
  Starts-insert_sorted e a (x ∷ xs) h = elim (Bool-cases (o.lt a x)) [
    | inl q ↦ rw q (lt-false_trans a x e (lt_asymm a x q) h)
    | inr q ↦ rw q h
  ]

  pub Starts-insert_self : (a : A) (xs : List A) → Starts a (insert_sorted a xs)
  unfolding insert_sorted
  Starts-insert_self a [] = o.lt_irrefl a
  Starts-insert_self a (x ∷ xs) = elim (Bool-cases (o.lt a x)) [
    | inl q ↦ rw q (o.lt_irrefl a)
    | inr q ↦ rw q q
  ]

  pub Starts-pop : (e : A) (xs : List A) → 1 < length xs → Starts e xs → Starts e (pop xs)
  unfolding pop
  Starts-pop e [] l h = absurd h
  Starts-pop e (x ∷ []) l h = absurd (omega arith)
  Starts-pop e (x ∷ y ∷ ys) l h = h

  pub Starts-trans : (e a : A) (xs : List A) → o.lt e a ≡ false → Starts a xs → Starts e xs
  Starts-trans e a [] p h = h
  Starts-trans e a (x ∷ xs) p h = lt-false_trans x a e h p

  pub Starts-sort : (e : A) (xs : List A) → Starts e xs → Starts e (sort xs)
  unfolding sort
  Starts-sort e [] h = h
  Starts-sort e (x ∷ xs) h =
      Starts-trans e x (insert_sorted x (sort xs)) h (Starts-insert_self x (sort xs))
