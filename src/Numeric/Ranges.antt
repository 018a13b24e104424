-- ===== src/Numeric/Ranges.antt =====
-- The ids at the keys of a range, as a weight of the whole map.
use gvector.Prelude.{
  ℕ, ◌+◌, ◌≡◌, refl, sym, ap, ◌∙◌, inl, inr, Bool, true, false, ◌&&◌, List, [], ◌∷◌, ◌++◌, arith,
  leb, if◌then◌else◌, Bool-cases, length, filterb, nat_key, string_key,
}
use gvector.Types.{VectorId, F64}
use gvector.Meta.Number.{ordered_bits}
use gvector.Numeric.{Sorted, flat_ids}
use gvector.Numeric.Weights.{sum_ids, weigh}

abbrev pub within : F64 → F64 → ℕ → Bool
within from to key = leb (ordered_bits from) key && leb key (ordered_bits to)

sum_ids-append :
    (g : VectorId → ℕ) (xs ys : List VectorId) → sum_ids g (xs ++ ys) ≡ sum_ids g xs + sum_ids g ys
unfolding sum_ids
sum_ids-append g [] ys = omega arith
sum_ids-append g (x ∷ xs) ys = omega (arith, sum_ids-append g xs ys)

pub sum_ids-zero : (xs : List VectorId) → sum_ids (λ x. 0) xs ≡ 0
unfolding sum_ids
sum_ids-zero [] = refl
sum_ids-zero (x ∷ xs) = omega (arith, sum_ids-zero xs)

sum_ids-gate :
    (t : Bool) (g : VectorId → ℕ) (xs : List VectorId)
    → sum_ids (λ y. if t then g y else 0) xs ≡ (if t then sum_ids g xs else 0)
sum_ids-gate true g xs = refl
sum_ids-gate false g xs = sum_ids-zero xs

abbrev pub gated : (VectorId → ℕ) → F64 → F64 → ℕ → VectorId → ℕ
gated g from to k x = if within from to k then g x else 0

-- The ids of a range weigh what the map weighs with a weight that is nothing outside the range.
pub sum_ids-filterb :
    (g : VectorId → ℕ) (from to : F64) (s : Sorted)
    → sum_ids g (flat_ids (filterb (λ e. within from to e.0) s)) ≡ weigh (gated g from to) s
unfolding flat_ids weigh sum_ids
sum_ids-filterb g from to [] = refl
sum_ids-filterb g from to ((k, ids) ∷ s) =
    let later = sum_ids-filterb g from to s in
    let rest = flat_ids (filterb (λ e. within from to e.0) s) in
    let gate = sum_ids-gate (within from to k) g ids in
    elim (Bool-cases (within from to k)) [
      | inl inside ↦
          let here : sum_ids (gated g from to k) ids ≡ sum_ids g ids =
            gate ∙ ap (λ t. if t then sum_ids g ids else 0) inside in
          rw inside (omega (arith, later, here, sum_ids-append g ids rest))
      | inr outside ↦
          let here : sum_ids (gated g from to k) ids ≡ 0 =
            gate ∙ ap (λ t. if t then sum_ids g ids else 0) outside in
          rw outside (omega (arith, later, here))
    ]

length-sum_ids : (ids : List VectorId) → sum_ids (λ x. 1) ids ≡ length ids
unfolding sum_ids
length-sum_ids [] = refl
length-sum_ids (x ∷ ids) = omega (arith, length-sum_ids ids)

-- One for each id at a key of the range.
abbrev pub in_range : F64 → F64 → ℕ → VectorId → ℕ
in_range from to key x = if within from to key then 1 else 0

pub length-filterb :
    (from to : F64) (s : Sorted)
    → length (flat_ids (filterb (λ e. within from to e.0) s)) ≡ weigh (in_range from to) s
length-filterb from to s =
    sym (length-sum_ids (flat_ids (filterb (λ e. within from to e.0) s)))
    ∙ sum_ids-filterb (λ x. 1) from to s
