-- ===== src/Numeric/Runs.antt =====
-- Sequences of inserts and removals on a new index.
use gvector.Prelude.{ℕ, ◌^◌, ◌≤◌, ◌<◌, ◌≡◌, some, List, [], ◌∷◌, length, All, nat_key, string_key}
use gvector.Types.{VectorId, F64}
use gvector.Meta.Number.{ordered_bits}
use gvector.Numeric.{
  F64Arith, NumericFieldIndex, new, remove, estimate, enumerate_all, insert as insert_value,
}
use gvector.Numeric.Histogram.{IsValid, new-IsValid, insert-IsValid, remove-IsValid}
use gvector.Numeric.Floats.{IsMonotone, IsNumber}
use gvector.Numeric.Inside.{
  IsFinite, IsWidening, IsBounded, new-IsBounded, insert-IsBounded, remove-IsBounded,
}
use gvector.Numeric.Estimate.{estimate-enumerate_all}

pub data Edit : Type 0 where
  add : F64 → VectorId → Edit
  drop_value : F64 → VectorId → Edit

-- The value of an edit is a finite `f64`.
abbrev pub IsSound : Edit → Type 0
IsSound (add v id) = (v < 2 ^ 64) × IsFinite v
IsSound (drop_value v id) = (v < 2 ^ 64) × IsFinite v

module _ (ops : F64Arith) where
  step : NumericFieldIndex → Edit → NumericFieldIndex
  step idx (add v id) = insert_value ops idx v id
  step idx (drop_value v id) = remove ops idx v id

  unfoldable pub run_from : NumericFieldIndex → List Edit → NumericFieldIndex
  unfolding step
  run_from idx [] = idx
  run_from idx (e ∷ es) = run_from (step idx e) es

  abbrev pub run : List Edit → NumericFieldIndex
  run es = run_from new es

  module _ (mono : IsMonotone ops) (wide : IsWidening ops) where
    step-IsValid :
        (idx : NumericFieldIndex) (e : Edit)
        → IsSound e
        → IsValid ops idx × IsBounded idx
        → IsValid ops (step idx e) × IsBounded (step idx e)
    unfolding step
    step-IsValid idx (add v id) (l, finite) (valid, b) =
        (insert-IsValid ops idx v id l valid, insert-IsBounded ops mono wide idx v id l finite b)
    step-IsValid idx (drop_value v id) (l, finite) (valid, b) =
        (remove-IsValid ops idx v id l valid, remove-IsBounded ops mono wide idx v id b)

    run_from-IsValid :
        (idx : NumericFieldIndex) (es : List Edit)
        → All IsSound es
        → IsValid ops idx × IsBounded idx
        → IsValid ops (run_from idx es) × IsBounded (run_from idx es)
    unfolding run_from
    run_from-IsValid idx [] h valid = valid
    run_from-IsValid idx (e ∷ es) (h, hs) valid =
        run_from-IsValid (step idx e) es hs (step-IsValid idx e h valid)

    -- When float operations are monotone and a margin is not negative: after any inserts and
    -- removals of finite values the map has ascending keys of 64 bits, each with an id, the total is
    -- the number of ids, every bucket of the histogram is the number of ids whose value falls in it,
    -- and every value lies between the bounds, which are numbers.
    pub run-IsValid : (es : List Edit) → All IsSound es → IsValid ops (run es) × IsBounded (run es)
    run-IsValid es h = run_from-IsValid new es h (new-IsValid ops, new-IsBounded)

    -- When float operations are monotone and a margin is not negative: after any inserts and
    -- removals of finite values the estimate of a range of two numbers whose keys are in order does
    -- not panic, and the number of ids that the range lists lies between its two sides.
    pub run-estimate :
        (es : List Edit) (from to : F64)
        → All IsSound es
        → IsNumber from
        → IsNumber to
        → ordered_bits from ≤ ordered_bits to
        → (lower : ℕ) × ((upper : ℕ) × ((all : List VectorId) × (estimate ops (run es) from to
                ≡ some (lower, upper))
              × (enumerate_all (run es) from to ≡ some all)
              × (lower ≤ length all)
              × (length all ≤ upper)))
    run-estimate es from to h f t ordered =
        let (valid, bounded) = run-IsValid es h in
        estimate-enumerate_all ops mono (run es) from to f t valid bounded.inside ordered
