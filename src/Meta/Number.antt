-- ===== src/Meta/Number.antt =====
-- src/meta.rs, src/index/numeric.rs: floats as the keys of an ordered map.
use gvector.Prelude.{
  ℕ, ◌+◌, ◌-◌, ◌*◌, ◌%◌, ◌^◌, ◌<◌, ◌≡◌, ◌≢◌, Bool, false, not, ◌&&◌, arith, ltb, leb, eqb,
  if◌then◌else◌, nat_key, string_key,
}
use gvector.Types.{F64, sign64, total_cmp, is_lt}

-- `ordered_bits`
unfoldable pub ordered_bits : F64 → ℕ
ordered_bits x = if leb sign64 x then 2 ^ 64 - 1 - x else x + sign64

-- `NumericFieldIndex::bits_to_f64`
unfoldable pub bits_to_f64 : ℕ → F64
bits_to_f64 bits = if leb sign64 bits then bits - sign64 else 2 ^ 64 - 1 - bits

-- The exponent is all ones and the fraction is not zero.
unfoldable pub is_nan : F64 → Bool
is_nan x = ltb (2047 * 2 ^ 52) (x % sign64)

-- The place of a number on the line; the two zeros share one.
unfoldable pub place : F64 → ℕ
place x = if leb sign64 x then 2 ^ 64 - x else sign64 + x

-- `a <= b` and `a == b` of two `f64`
unfoldable pub f64_le : F64 → F64 → Bool
unfolding is_nan place
f64_le a b = not (is_nan a) && (not (is_nan b) && leb (place a) (place b))

unfoldable pub f64_eq : F64 → F64 → Bool
unfolding is_nan place
f64_eq a b = not (is_nan a) && (not (is_nan b) && eqb (place a) (place b))

-- The key of a float is decoded to that float, bit for bit.
pub bits_to_f64-ordered_bits :
    (x : F64) → x < 2 ^ 64 → (bits_to_f64 (ordered_bits x) ≡ x) × (ordered_bits x < 2 ^ 64)
unfolding bits_to_f64 ordered_bits
bits_to_f64-ordered_bits x h = (ground arith, ground arith)

-- The keys are ordered as `total_cmp` orders the floats.
pub ordered_bits-total_cmp :
    (a b : F64)
    → a < 2 ^ 64
    → b < 2 ^ 64
    → ltb (ordered_bits a) (ordered_bits b) ≡ is_lt (total_cmp sign64 a b)
unfolding ordered_bits total_cmp
ordered_bits-total_cmp a b h k = ground arith

-- Two numbers that are not both zero are ordered by `<=` as their keys are. The keys of the two
-- zeros differ, though the zeros are equal.
pub ordered_bits-f64_le :
    (a b : F64)
    → a < 2 ^ 64
    → b < 2 ^ 64
    → is_nan a ≡ false
    → is_nan b ≡ false
    → a % sign64 + b % sign64 ≢ 0
    → f64_le a b ≡ leb (ordered_bits a) (ordered_bits b)
unfolding ordered_bits f64_le place
ordered_bits-f64_le a b h k n m z = ground (arith, n, m)
