-- ===== src/Numeric/Counts.antt =====
-- Writes to the buckets of a histogram.
use gvector.Prelude.{
  ℕ, zero, suc, ◌+◌, ◌-◌, ◌<◌, ◌≡◌, refl, ap, ◌∙◌, subst, ◌≢◌, inl, inr, Bool, true, false, List,
  [], ◌∷◌, arith, eqb, if◌then◌else◌, eqb_iff, Bool-cases, length, get_or, set, nat_key, string_key,
}
use gvector.Types.{VectorId}
use gvector.Numeric.{cleared, add_to}
use gvector.Numeric.Weights.{sum_ids}

get_or-set_self : (xs : List ℕ) (i v : ℕ) → i < length xs → get_or (set xs i v) i 0 ≡ v
get_or-set_self [] i v h = absurd (omega arith)
get_or-set_self (x ∷ xs) zero v h = refl
get_or-set_self (x ∷ xs) (suc i) v h = get_or-set_self xs i v (omega arith)

get_or-set_ne : (xs : List ℕ) (i j v : ℕ) → i ≢ j → get_or (set xs i v) j 0 ≡ get_or xs j 0
get_or-set_ne [] i j v h = refl
get_or-set_ne (x ∷ xs) zero zero v h = absurd (h refl)
get_or-set_ne (x ∷ xs) zero (suc j) v h = refl
get_or-set_ne (x ∷ xs) (suc i) zero v h = refl
get_or-set_ne (x ∷ xs) (suc i) (suc j) v h = get_or-set_ne xs i j v (λ e. h (ap suc e))

-- A bucket after a write to one.
get_or-set :
    (xs : List ℕ) (i j v : ℕ)
    → i < length xs
    → get_or (set xs i v) j 0 ≡ (if eqb i j then v else get_or xs j 0)
get_or-set xs i j v h = elim (Bool-cases (eqb i j)) [
  | inl same ↦
      rw same
        (subst (λ k. get_or (set xs i v) k 0 ≡ v) ((eqb_iff i j).0 same) (get_or-set_self xs i v h))
  | inr other ↦ rw other (get_or-set_ne xs i j v (λ e. ground (arith, eqb_iff i j)))
]

pub sum_ids-ones :
    (t : Bool) (xs : List VectorId)
    → sum_ids (λ x. if t then 1 else 0) xs ≡ (if t then length xs else 0)
unfolding sum_ids
sum_ids-ones true [] = refl
sum_ids-ones false [] = refl
sum_ids-ones true (x ∷ xs) = omega (arith, sum_ids-ones true xs)
sum_ids-ones false (x ∷ xs) = omega (arith, sum_ids-ones false xs)

pub get_or-cleared : (xs : List ℕ) (b : ℕ) → get_or (cleared xs) b 0 ≡ 0
get_or-cleared [] b = refl
get_or-cleared (x ∷ xs) zero = refl
get_or-cleared (x ∷ xs) (suc b) = get_or-cleared xs b

-- A bucket after a count was added to one.
pub get_or-add_to :
    (hist : List ℕ) (i b n : ℕ)
    → i < length hist
    → get_or (add_to hist i n) b 0 ≡ get_or hist b 0 + (if eqb i b then n else 0)
get_or-add_to hist i b n h =
    let now = get_or-set hist i b (get_or hist i 0 + n) h in
    elim (Bool-cases (eqb i b)) [
      | inl same ↦ rw same (rw same at now ∙ ap (λ j. get_or hist j 0 + n) ((eqb_iff i b).0 same))
      | inr other ↦ rw other (rw other at now ∙ omega arith)
    ]

pub get_or-take_one :
    (hist : List ℕ) (i b : ℕ)
    → i < length hist
    → get_or (set hist i (get_or hist i 0 - 1)) b 0 ≡ get_or hist b 0 - (if eqb i b then 1 else 0)
get_or-take_one hist i b h =
    let now = get_or-set hist i b (get_or hist i 0 - 1) h in
    elim (Bool-cases (eqb i b)) [
      | inl same ↦ rw same (rw same at now ∙ ap (λ j. get_or hist j 0 - 1) ((eqb_iff i b).0 same))
      | inr other ↦ rw other (rw other at now ∙ omega arith)
    ]

pub length-cleared : (hist : List ℕ) → length (cleared hist) ≡ length hist
length-cleared [] = refl
length-cleared (c ∷ hist) = ap suc (length-cleared hist)
