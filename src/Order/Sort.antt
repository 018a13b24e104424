-- ===== src/Order/Sort.antt =====
-- `Ord` as a strict total order with its laws, and `sort` as insertion sort. In a total order the
-- result of a sort does not depend on the algorithm.
use mathlib.Core.List.{Permᴰ}
use mathlib.Core.List.Permᴰ as Perm
use gvector.Prelude.{
  suc, ◌≡◌, refl, ap, ◌∙◌, Bool, true, false, List, [], ◌∷◌, arith, if◌then◌else◌, Bool-cases, inl,
  inr, length,
}

pub record Ord {ℓ} (A : Type ℓ) : Type ℓ where
  pub lt : A → A → Bool
  pub lt_irrefl : (a : A) → lt a a ≡ false
  pub lt_trans : (a b c : A) → lt a b ≡ true → lt b c ≡ true → lt a c ≡ true
  pub lt_connected : (a b : A) → lt a b ≡ false → lt b a ≡ false → a ≡ b

module _ {ℓ} {A : Type ℓ} ⦃o : Ord A⦄ where
  unfoldable pub insert_sorted : A → List A → List A
  insert_sorted a [] = a ∷ []
  insert_sorted a (x ∷ xs) = if o.lt a x then a ∷ (x ∷ xs) else x ∷ insert_sorted a xs

  unfoldable pub sort : List A → List A
  unfolding insert_sorted
  sort [] = []
  sort (x ∷ xs) = insert_sorted x (sort xs)

  -- `x` is before or equal to every member.
  abbrev pub AtMost : A → List A → Type 0
  AtMost x [] = Unit
  AtMost x (y ∷ ys) = (o.lt y x ≡ false) × AtMost x ys

  abbrev pub IsSorted : List A → Type 0
  IsSorted [] = Unit
  IsSorted (x ∷ xs) = AtMost x xs × IsSorted xs

  -- What is not after `b` is not after what `b` is before.
  pub lt-false_trans : (a b c : A) → o.lt b a ≡ false → o.lt c b ≡ false → o.lt c a ≡ false
  lt-false_trans a b c p q = elim (Bool-cases (o.lt c a)) [
    | inr no' ↦ no'
    | inl ca ↦ elim (Bool-cases (o.lt a b)) [
      | inl ab ↦ ground (arith, o.lt_trans c a b ca ab)
      | inr nab ↦ ground (arith, ap (o.lt c) (o.lt_connected a b nab p))
    ]
  ]

  pub lt_asymm : (a b : A) → o.lt a b ≡ true → o.lt b a ≡ false
  lt_asymm a b p = ground (arith, o.lt_trans a b a p, o.lt_irrefl a)

  pub AtMost-trans : (a b : A) (xs : List A) → o.lt b a ≡ false → AtMost b xs → AtMost a xs
  AtMost-trans a b [] p h = tt
  AtMost-trans a b (x ∷ xs) p h = (lt-false_trans a b x p h.0, AtMost-trans a b xs p h.1)

  AtMost-insert_sorted :
      (a b : A) (xs : List A) → o.lt b a ≡ false → AtMost a xs → AtMost a (insert_sorted b xs)
  unfolding insert_sorted
  AtMost-insert_sorted a b [] p h = (p, tt)
  AtMost-insert_sorted a b (x ∷ xs) p h = ground (arith, AtMost-insert_sorted a b xs p h.1)

  pub insert_sorted-IsSorted : (a : A) (xs : List A) → IsSorted xs → IsSorted (insert_sorted a xs)
  unfolding insert_sorted
  insert_sorted-IsSorted a [] s = (tt, tt)
  insert_sorted-IsSorted a (x ∷ xs) s = elim (Bool-cases (o.lt a x)) [
    | inl e ↦ rw e ((lt_asymm a x e, AtMost-trans a x xs (lt_asymm a x e) s.0), s)
    | inr e ↦ rw e (AtMost-insert_sorted x a xs e s.0, insert_sorted-IsSorted a xs s.1)
  ]

  pub sort-IsSorted : (xs : List A) → IsSorted (sort xs)
  unfolding sort
  sort-IsSorted [] = tt
  sort-IsSorted (x ∷ xs) = insert_sorted-IsSorted x (sort xs) (sort-IsSorted xs)

  pub length-insert_sorted : (a : A) (xs : List A) → length (insert_sorted a xs) ≡ suc (length xs)
  unfolding insert_sorted
  length-insert_sorted a [] = refl
  length-insert_sorted a (x ∷ xs) = ground (arith, length-insert_sorted a xs)

  pub length-sort : (xs : List A) → length (sort xs) ≡ length xs
  unfolding sort
  length-sort [] = refl
  length-sort (x ∷ xs) = length-insert_sorted x (sort xs) ∙ ap suc (length-sort xs)

  -- Insertions commute, so a sort forgets the order of its input.
  pub insert_sorted_comm :
      (a b : A) (xs : List A)
      → insert_sorted a (insert_sorted b xs) ≡ insert_sorted b (insert_sorted a xs)
  unfolding insert_sorted
  insert_sorted_comm a b [] = ground (arith, lt_asymm a b, o.lt_connected a b)
  insert_sorted_comm a b (x ∷ xs) = ground (
    arith,
    insert_sorted_comm a b xs,
    lt_asymm a b,
    o.lt_connected a b,
    o.lt_trans a b x,
    o.lt_trans b a x,
    lt-false_trans x a b,
    lt-false_trans x b a,
  )

  pub sort-perm : {xs ys : List A} → Permᴰ xs ys → sort xs ≡ sort ys
  unfolding sort
  sort-perm Perm.nil = refl
  sort-perm (Perm.cons {a = a} {b = b} {l₁ = l} {l₂ = m} e p) = rw (e, sort-perm p)
  sort-perm (Perm.swap {a = a} {b = b} {l = l} e f) = rw (e, f, insert_sorted_comm _ _ (sort l))
  sort-perm (Perm.trans p q) = sort-perm p ∙ sort-perm q

  insert_sorted-perm : (a : A) (xs : List A) → Permᴰ (insert_sorted a xs) (a ∷ xs)
  unfolding insert_sorted
  insert_sorted-perm a [] = Perm.refl _
  insert_sorted-perm a (x ∷ xs) = elim (Bool-cases (o.lt a x)) [
    | inl e ↦ rw e (Perm.refl _)
    | inr e ↦ rw e (Perm.trans (Perm.cons refl (insert_sorted-perm a xs)) (Perm.swap refl refl))
  ]

  -- A sort keeps its input's members, as often as they occur.
  pub sort_perm : (xs : List A) → Permᴰ (sort xs) xs
  unfolding sort
  sort_perm [] = Perm.nil
  sort_perm (x ∷ xs) = Perm.trans (insert_sorted-perm x (sort xs)) (Perm.cons refl (sort_perm xs))

  AtMost-insert_sorted_self : (a : A) (xs : List A) → AtMost a xs → insert_sorted a xs ≡ a ∷ xs
  unfolding insert_sorted
  AtMost-insert_sorted_self a [] h = refl
  AtMost-insert_sorted_self a (x ∷ xs) h =
      ground (arith, AtMost-insert_sorted_self a xs h.1, o.lt_connected a x)

  pub sort-eq_self : (xs : List A) → IsSorted xs → sort xs ≡ xs
  unfolding sort
  sort-eq_self [] s = refl
  sort-eq_self (x ∷ xs) s = rw (sort-eq_self xs s.1) (AtMost-insert_sorted_self x xs s.0)
