-- ===== src/Tests/Numbers.antt =====
-- A numeric index of three values, with a bucket for each power of two.
use gvector.Prelude.{
  ℕ, ◌+◌, ◌-◌, ◌*◌, ◌/◌, ◌^◌, ◌≤◌, ◌≡◌, refl, some, List, [], ◌∷◌, arith, ltb, if◌then◌else◌,
  length, All, nat_key, string_key,
}
use Prim.{tt}
use mathlib.Core.Option
use gvector.Types.{VectorId, F64, sign64}
use gvector.Meta.Number.{ordered_bits, is_nan, place, f64_le}
use gvector.Numeric.{
  F64Arith, NumericFieldIndex, remove, estimate, enumerate_up_to, enumerate_all, ids_at,
  insert as insert_value,
}
use gvector.Numeric.Histogram.{IsValid}
use gvector.Numeric.Enumerate.{
  at_most, occurs, counts, enumerate_up_to_complete, enumerate_all-insert, enumerate_all-remove,
}
use gvector.Numeric.Floats.{IsMonotone, IsNumber}
use gvector.Numeric.Inside.{IsWidening, IsBounded}
use gvector.Numeric.Runs.{Edit, add, drop_value, IsSound, run, run-IsValid, run-estimate}

abbrev larger : F64 → F64 → F64
larger a b = if f64_le a b then b else a

abbrev smaller : F64 → F64 → F64
smaller a b = if f64_le a b then a else b

-- A value is placed by its exponent, and a margin is zero.
abbrev toy_arith : F64Arith
unfolding place
toy_arith = record {
  add = λ a b. a;
  sub = λ a b. a;
  mul = λ a b. a;
  div = λ a b. a;
  abs = λ a. a;
  max_of = larger;
  min_of = smaller;
  as_usize = λ a. (place a - sign64) / 2 ^ 52 - 1020;
}

toy_arith-IsMonotone : IsMonotone toy_arith
unfolding toy_arith f64_le place
toy_arith-IsMonotone = record {
  max_least = λ a b x h k. ground (arith, h, k);
  max_left = λ a b na nb. ground (arith, na, nb);
  min_greatest = λ a b x h k. ground (arith, h, k);
  min_left = λ a b na nb. ground (arith, na, nb);
  scaled_le = λ lo hi a b w h. ground (arith, h);
}

toy_arith-IsWidening : IsWidening toy_arith
unfolding toy_arith f64_le place is_nan
toy_arith-IsWidening = record {
  min_right = λ a b na nb. ground (arith, na, nb);
  max_right = λ a b na nb. ground (arith, na, nb);
  margin_below = λ span v h. ground (arith, h);
  margin_above = λ span v h. ground (arith, h);
}

abbrev one : F64
one = 1023 * 2 ^ 52

abbrev two : F64
two = 1024 * 2 ^ 52

abbrev four : F64
four = 1025 * 2 ^ 52

abbrev edits : List Edit
edits = add one 5 ∷ add two 6 ∷ add four 6 ∷ add two 7 ∷ drop_value two 6 ∷ []

edits-IsSound : All IsSound edits
edits-IsSound = (
  (omega arith, omega arith),
  (
    (omega arith, omega arith),
    ((omega arith, omega arith), ((omega arith, omega arith), ((omega arith, omega arith), tt))),
  ),
)

IsNumber-one : IsNumber one
unfolding is_nan
IsNumber-one = record { bits = omega arith; number = refl }

IsNumber-two : IsNumber two
unfolding is_nan
IsNumber-two = record { bits = omega arith; number = refl }

one_two : ordered_bits one ≤ ordered_bits two
unfolding ordered_bits
one_two = omega arith

run-IsValid_example : IsValid toy_arith (run toy_arith edits) × IsBounded (run toy_arith edits)
run-IsValid_example =
    run-IsValid toy_arith toy_arith-IsMonotone toy_arith-IsWidening edits edits-IsSound

run-estimate_example :
    (lower : ℕ) × ((upper : ℕ) × ((all : List VectorId) × (estimate toy_arith
            (run toy_arith edits)
            one
            two
          ≡ some (lower, upper))
        × (enumerate_all (run toy_arith edits) one two ≡ some all)
        × (lower ≤ length all)
        × (length all ≤ upper)))
run-estimate_example =
    run-estimate toy_arith toy_arith-IsMonotone toy_arith-IsWidening edits one two edits-IsSound
      IsNumber-one IsNumber-two one_two

abbrev held : NumericFieldIndex
held = record {
  sorted =
      (4607182418800017408 + 9223372036854775808, 5 ∷ [])
      ∷ (4611686018427387904 + 9223372036854775808, 6 ∷ 7 ∷ [])
      ∷ [];
  total = 3;
  lo = one;
  hi = two;
  hist = [];
}

enumerate_up_to_complete_example :
    enumerate_up_to held one two 2 ≡ Option.map (at_most 2) (enumerate_all held one two)
enumerate_up_to_complete_example = enumerate_up_to_complete held one two 2

enumerate_all-insert_example :
    occurs 6 (enumerate_all (insert_value toy_arith held two 6) one two)
    ≡ counts one two 6 (ordered_bits two) 6 + occurs 6 (enumerate_all held one two)
enumerate_all-insert_example = enumerate_all-insert toy_arith held two 6 one two 6 one_two

enumerate_all-remove_example :
    occurs 6 (enumerate_all held one two)
    ≡ (if ltb 0 (occurs 6 (ids_at (ordered_bits two) held.sorted))
        then counts one two 6 (ordered_bits two) 6
        else 0)
      + occurs 6 (enumerate_all (remove toy_arith held two 6) one two)
enumerate_all-remove_example = enumerate_all-remove toy_arith held two 6 one two 6 one_two

-- The two sides for a range of one bucket and for one over several.
lists_three : enumerate_all held one two ≡ some (5 ∷ 6 ∷ 7 ∷ [])
unfolding enumerate_all ordered_bits
lists_three = refl
