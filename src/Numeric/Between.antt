-- ===== src/Numeric/Between.antt =====
-- The buckets of the values of a range lie between those of its ends.
use gvector.Prelude.{ℕ, ◌^◌, ◌≤◌, ◌<◌, ◌≡◌, inl, inr, true, arith, Bool-cases, nat_key, string_key}
use gvector.Types.{F64}
use gvector.Meta.Number.{ordered_bits, bits_to_f64, f64_le}
use gvector.Numeric.{F64Arith, NumericFieldIndex, bucket}
use gvector.Numeric.Ranges.{within}
use gvector.Numeric.Floats.{
  IsMonotone, IsNumber, key_le, key_lt, value_key, le_trans, number_left, number_right,
}

module _ (ops : F64Arith) (mono : IsMonotone ops) where
  pub bucket_le : (lo hi a b : F64) → f64_le a b ≡ true → bucket ops lo hi a ≤ bucket ops lo hi b
  unfolding bucket
  bucket_le lo hi a b h = elim (Bool-cases (f64_le hi lo)) [
    | inl flat ↦ rw flat (omega arith)
    | inr wide ↦ let l = mono.scaled_le lo hi a b wide h in rw wide (omega (arith, l))
  ]

  module _ (idx : NumericFieldIndex) (from to : F64) (f : IsNumber from) (t : IsNumber to) where
    abbrev pub IsPlaced : ℕ → Type 0
    IsPlaced k =
        (k < 2 ^ 64)
        × (f64_le idx.lo (bits_to_f64 k) ≡ true)
        × (f64_le (bits_to_f64 k) idx.hi ≡ true)

    abbrev pub at : ℕ → ℕ
    at k = bucket ops idx.lo idx.hi (bits_to_f64 k)

    abbrev pub b_lo : ℕ
    b_lo = bucket ops idx.lo idx.hi (ops.max_of from idx.lo)

    abbrev pub b_hi : ℕ
    b_hi = bucket ops idx.lo idx.hi (ops.min_of to idx.hi)

    pub above_from :
        (k : ℕ) → IsPlaced k → ordered_bits from ≤ k → f64_le from (bits_to_f64 k) ≡ true
    above_from k (l, below, above) h =
        let (back, lv) = value_key k l in
        key_le from (bits_to_f64 k) f.bits lv f.number (number_right idx.lo (bits_to_f64 k) below)
          (omega (arith, back))

    pub below_to : (k : ℕ) → IsPlaced k → k ≤ ordered_bits to → f64_le (bits_to_f64 k) to ≡ true
    below_to k (l, below, above) h =
        let (back, lv) = value_key k l in
        key_le (bits_to_f64 k) to lv t.bits (number_right idx.lo (bits_to_f64 k) below) t.number
          (omega (arith, back))

    -- A key of the range lies between the buckets of its ends.
    pub bucket_within :
        (k : ℕ) → IsPlaced k → within from to k ≡ true → (b_lo ≤ at k) × (at k ≤ b_hi)
    bucket_within k p w =
        let x = bits_to_f64 k in
        (
          bucket_le idx.lo idx.hi (ops.max_of from idx.lo) x
              (mono.max_least from idx.lo x (above_from k p (ground arith)) p.1),
          bucket_le idx.lo idx.hi x (ops.min_of to idx.hi)
              (mono.min_greatest to idx.hi x (below_to k p (ground arith)) p.2),
        )

    pub low_side : (k : ℕ) → IsPlaced k → b_lo < at k → ordered_bits from ≤ k
    low_side k p h =
        let x = bits_to_f64 k in
        let (back, lv) = value_key k p.0 in
        let n_lo = number_left idx.lo x p.1 in
        let n_x = number_right idx.lo x p.1 in
        elim (Bool-cases (f64_le x from)) [
          | inl below ↦
              let under = bucket_le idx.lo idx.hi x (ops.max_of from idx.lo) (
                le_trans x from (ops.max_of from idx.lo) below
                  (mono.max_left from idx.lo f.number n_lo)) in
              absurd (omega (arith, under))
          | inr above ↦ let l = key_lt x from lv f.bits n_x f.number above in omega (arith, l, back)
        ]

    pub high_side : (k : ℕ) → IsPlaced k → at k < b_hi → k ≤ ordered_bits to
    high_side k p h =
        let x = bits_to_f64 k in
        let (back, lv) = value_key k p.0 in
        let n_hi = number_right x idx.hi p.2 in
        let n_x = number_right idx.lo x p.1 in
        elim (Bool-cases (f64_le to x)) [
          | inl below ↦
              let over = bucket_le idx.lo idx.hi (ops.min_of to idx.hi) x (
                le_trans (ops.min_of to idx.hi) to x (mono.min_left to idx.hi t.number n_hi)
                  below) in
              absurd (omega (arith, over))
          | inr above ↦ let l = key_lt to x t.bits lv t.number n_x above in omega (arith, l, back)
        ]
