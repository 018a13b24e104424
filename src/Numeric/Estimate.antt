-- ===== src/Numeric/Estimate.antt =====
-- The histogram's estimate brackets the number of ids in a range.
use gvector.Prelude.{
  ℕ, ◌+◌, ◌-◌, ◌≤◌, ◌≡◌, refl, ◌∙◌, ◌≢◌, inl, inr, true, false, some, List, [], ◌∷◌, arith, ltb,
  eqb, eqb_iff, Bool-cases, length, get_or, take, drop, filterb, All, nat_key, string_key,
}
use gvector.Types.{VectorId, F64}
use gvector.Meta.Number.{ordered_bits, bits_to_f64, f64_le}
use gvector.Numeric.{
  F64Arith, Sorted, NumericFieldIndex, bucket, f64_lt, sum, sum_slice, estimate, range, flat_ids,
  enumerate_all,
}
use gvector.Numeric.Weights.{weigh}
use gvector.Numeric.Histogram.{IsValid, bucket-lt}
use gvector.Numeric.Sums.{weigh-le}
use gvector.Numeric.Floats.{
  key_le, IsMonotone, IsNumber, IsInside, le_trans, number_left, number_right, not_lt, lt_not_le,
}
use gvector.Numeric.Between.{IsPlaced, above_from, below_to, bucket_le}
use gvector.Numeric.Ranges.{within, in_range, length-filterb}
use gvector.Numeric.Sides.{placed, counted_inner, nothing, inner_le, held_le, one_bucket_le}

module _ (ops : F64Arith) (mono : IsMonotone ops) (idx : NumericFieldIndex) (from to : F64)
    (f : IsNumber from) (t : IsNumber to) (valid : IsValid ops idx) (inside : IsInside idx) where
  abbrev first : ℕ
  first = bucket ops idx.lo idx.hi (ops.max_of from idx.lo)

  abbrev last : ℕ
  last = bucket ops idx.lo idx.hi (ops.min_of to idx.hi)

  abbrev IsHere : ℕ → Type 0
  IsHere = IsPlaced ops mono idx from to f t

  abbrev held : ℕ
  held = weigh (in_range from to) idx.sorted

  listed :
      ordered_bits from ≤ ordered_bits to
      → (all : List VectorId) × (enumerate_all idx from to ≡ some all) × (length all ≡ held)
  unfolding enumerate_all range
  listed h =
      let in_order : ltb (ordered_bits to) (ordered_bits from) ≡ false = ground arith in
      (
        flat_ids (filterb (λ e. within from to e.0) idx.sorted),
        rw in_order refl,
        length-filterb from to idx.sorted,
      )

  none_held : idx.total ≡ 0 → held ≡ 0
  none_held h =
      let l =
        weigh-le IsHere (in_range from to) (λ k x. 1) idx.sorted
          (placed ops mono idx from to f t valid inside) (λ k x p. ground arith) in
      omega (arith, l, valid.total)

  before : f64_lt to idx.lo ≡ true → held ≡ 0
  before h = nothing ops mono idx from to f t valid inside (λ k p.
      elim (Bool-cases (within from to k)) [
        | inl listed ↦
            let under = below_to ops mono idx from to f t k p (ground arith) in
            absurd (cc (lt_not_le to idx.lo h, le_trans idx.lo (bits_to_f64 k) to p.1 under))
        | inr other ↦ other
      ])

  behind : f64_lt idx.hi from ≡ true → held ≡ 0
  behind h = nothing ops mono idx from to f t valid inside (λ k p.
      elim (Bool-cases (within from to k)) [
        | inl listed ↦
            let over = above_from ops mono idx from to f t k p (ground arith) in
            absurd (cc (lt_not_le idx.hi from h, le_trans from (bits_to_f64 k) idx.hi over p.2))
        | inr other ↦ other
      ])

  bounds :
      (s : Sorted) → All (λ e. IsHere e.0) s → weigh (λ k x. 1) s ≢ 0 → f64_le idx.lo idx.hi ≡ true
  unfolding weigh
  bounds [] h n = absurd (n refl)
  bounds (e ∷ s) ((l, below, above), h) n = le_trans idx.lo (bits_to_f64 e.0) idx.hi below above

  in_turn :
      ordered_bits from ≤ ordered_bits to
      → idx.total ≢ 0
      → f64_lt to idx.lo ≡ false
      → f64_lt idx.hi from ≡ false
      → first ≤ last
  in_turn h some_held not_before not_behind =
      let across =
        bounds idx.sorted (placed ops mono idx from to f t valid inside)
          (λ e. some_held (valid.total ∙ e)) in
      let n_lo = number_left idx.lo idx.hi across in
      let n_hi = number_right idx.lo idx.hi across in
      let ends = key_le from to f.bits t.bits f.number t.number h in
      let lo_to = not_lt to idx.lo t.number n_lo not_before in
      let from_hi = not_lt idx.hi from n_hi f.number not_behind in
      bucket_le ops mono idx.lo idx.hi (ops.max_of from idx.lo) (ops.min_of to idx.hi) (
        mono.min_greatest to idx.hi (ops.max_of from idx.lo)
          (mono.max_least from idx.lo to ends lo_to)
          (mono.max_least from idx.lo idx.hi from_hi across))

  abbrev IsBracket : ℕ → ℕ → Type 0
  IsBracket lower upper =
      (estimate ops idx from to ≡ some (lower, upper)) × (lower ≤ held) × (held ≤ upper)

  -- The ends lie in two buckets.
  several :
      ordered_bits from ≤ ordered_bits to
      → idx.total ≢ 0
      → f64_lt to idx.lo ≡ false
      → f64_lt idx.hi from ≡ false
      → eqb idx.total 0 ≡ false
      → eqb first last ≡ false
      → (lower : ℕ) × ((upper : ℕ) × IsBracket lower upper)
  unfolding estimate sum_slice
  several h total not_before not_behind some_held apart =
      let turn = in_turn h total not_before not_behind in
      let below = bucket-lt ops idx.lo idx.hi (ops.min_of to idx.hi) in
      let n = last - (first + 1) in
      let next : first + 1 ≤ last = ground arith in
      let size : first + 1 + n ≡ last = omega arith in
      let in_turn_next : ltb last (first + 1) ≡ false = ground arith in
      let inner_sum = counted_inner ops mono idx from to f t valid inside n (omega arith) in
      let at_first = valid.counted first (omega arith) in
      let at_last = valid.counted last below in
      let lower = sum (take n (drop (first + 1) idx.hist)) in
      (
        lower,
        (
          lower + get_or idx.hist first 0 + get_or idx.hist last 0,
          (
            rw (some_held, not_before, not_behind, apart, in_turn_next) refl,
            omega (arith, inner_sum, inner_le ops mono idx from to f t valid inside n size),
            omega (
              arith,
              inner_sum,
              at_first,
              at_last,
              held_le ops mono idx from to f t valid inside n size,
            ),
          ),
        ),
      )

  bracket :
      ordered_bits from ≤ ordered_bits to → (lower : ℕ) × ((upper : ℕ) × IsBracket lower upper)
  unfolding estimate sum_slice
  bracket h = elim (Bool-cases (eqb idx.total 0)) [
    | inl empty ↦
        let z = none_held (ground arith) in (0, (0, (rw empty refl, omega arith, omega (arith, z))))
    | inr some_held ↦ elim (Bool-cases (f64_lt to idx.lo)) [
      | inl out ↦
          let z = before out in (0, (0, (rw (some_held, out) refl, omega arith, omega (arith, z))))
      | inr not_before ↦ elim (Bool-cases (f64_lt idx.hi from)) [
        | inl out ↦
            let z = behind out in
            (0, (0, (rw (some_held, not_before, out) refl, omega arith, omega (arith, z))))
        | inr not_behind ↦ elim (Bool-cases (eqb first last)) [
          | inl one ↦
              let here =
                valid.counted first (bucket-lt ops idx.lo idx.hi (ops.max_of from idx.lo)) in
              let under =
                one_bucket_le ops mono idx from to f t valid inside ((eqb_iff first last).0 one) in
              (
                0,
                (
                  get_or idx.hist first 0,
                  (
                    rw (some_held, not_before, not_behind, one) refl,
                    omega arith,
                    omega (arith, here, under),
                  ),
                ),
              )
          | inr apart ↦ several h (ground arith) not_before not_behind some_held apart
        ]
      ]
    ]
  ]

  -- On a valid index whose values lie between its bounds, the estimate of a range of two numbers
  -- whose keys are in order does not panic, and the number of ids of the range lies between its two
  -- sides, when the arithmetic of floats is monotone.
  pub estimate-enumerate_all :
      ordered_bits from ≤ ordered_bits to
      → (lower : ℕ) × ((upper : ℕ) × ((all : List VectorId) × (estimate ops idx from to
              ≡ some (lower, upper))
            × (enumerate_all idx from to ≡ some all)
            × (lower ≤ length all)
            × (length all ≤ upper)))
  estimate-enumerate_all h =
      let (lower, (upper, (made, low, high))) = bracket h in
      let (all, found, size) = listed h in
      (lower, (upper, (all, made, found, omega (arith, low, size), omega (arith, high, size))))
