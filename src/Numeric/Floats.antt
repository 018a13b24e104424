-- ===== src/Numeric/Floats.antt =====
-- The order of floats and of their keys, and what the histogram relies on.
use gvector.Prelude.{ℕ, ◌^◌, ◌≤◌, ◌<◌, ◌≡◌, true, false, arith, All, nat_key, string_key}
use gvector.Types.{F64}
use gvector.Meta.Number.{ordered_bits, bits_to_f64, is_nan, place, f64_le}
use gvector.Numeric.{F64Arith, NumericFieldIndex, scaled, f64_lt}

-- What the estimate relies on of floats: `max` and `min` of numbers are bounds, and the place in
-- the histogram, computed by monotone operations, is monotone.
pub record IsMonotone (ops : F64Arith) : Type 0 where
  pub max_least :
      (a b x : F64) → f64_le a x ≡ true → f64_le b x ≡ true → f64_le (ops.max_of a b) x ≡ true
  pub max_left :
      (a b : F64) → is_nan a ≡ false → is_nan b ≡ false → f64_le a (ops.max_of a b) ≡ true
  pub min_greatest :
      (a b x : F64) → f64_le x a ≡ true → f64_le x b ≡ true → f64_le x (ops.min_of a b) ≡ true
  pub min_left :
      (a b : F64) → is_nan a ≡ false → is_nan b ≡ false → f64_le (ops.min_of a b) a ≡ true
  pub scaled_le :
      (lo hi a b : F64)
      → f64_le hi lo ≡ false
      → f64_le a b ≡ true
      → scaled ops lo hi a ≤ scaled ops lo hi b

-- A float of 64 bits that is not a NaN.
pub record IsNumber (v : F64) : Type 0 where
  pub bits : v < 2 ^ 64
  pub number : is_nan v ≡ false

-- Every value lies between the bounds of the histogram.
abbrev pub IsInside : NumericFieldIndex → Type 0
IsInside idx =
    All (λ e. (f64_le idx.lo (bits_to_f64 e.0) ≡ true) × (f64_le (bits_to_f64 e.0) idx.hi ≡ true))
      idx.sorted

pub key_le :
    (a b : F64)
    → a < 2 ^ 64
    → b < 2 ^ 64
    → is_nan a ≡ false
    → is_nan b ≡ false
    → ordered_bits a ≤ ordered_bits b
    → f64_le a b ≡ true
unfolding ordered_bits f64_le place
key_le a b la lb na nb h = ground (arith, na, nb)

pub key_lt :
    (a b : F64)
    → a < 2 ^ 64
    → b < 2 ^ 64
    → is_nan a ≡ false
    → is_nan b ≡ false
    → f64_le a b ≡ false
    → ordered_bits b ≤ ordered_bits a
unfolding ordered_bits f64_le place
key_lt a b la lb na nb h = ground (arith, na, nb)

pub value_key : (k : ℕ) → k < 2 ^ 64 → (ordered_bits (bits_to_f64 k) ≡ k) × (bits_to_f64 k < 2 ^ 64)
unfolding ordered_bits bits_to_f64
value_key k h = (ground arith, ground arith)

pub le_trans : (a b c : F64) → f64_le a b ≡ true → f64_le b c ≡ true → f64_le a c ≡ true
unfolding f64_le
le_trans a b c h k = ground arith

pub number_left : (a b : F64) → f64_le a b ≡ true → is_nan a ≡ false
unfolding f64_le
number_left a b h = ground arith

pub number_right : (a b : F64) → f64_le a b ≡ true → is_nan b ≡ false
unfolding f64_le
number_right a b h = ground arith

pub not_lt :
    (a b : F64) → is_nan a ≡ false → is_nan b ≡ false → f64_lt a b ≡ false → f64_le b a ≡ true
unfolding f64_le f64_lt
not_lt a b na nb h = ground (arith, na, nb)

pub lt_not_le : (a b : F64) → f64_lt a b ≡ true → f64_le b a ≡ false
unfolding f64_le f64_lt
lt_not_le a b h = ground arith
