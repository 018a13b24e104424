-- ===== src/Numeric/Sides.antt =====
-- The inner buckets hold no more ids than a range lists, and the buckets of both ends no fewer.
use gvector.Prelude.{
  ℕ, ◌+◌, ◌^◌, ◌≤◌, ◌<◌, ◌≡◌, ◌∙◌, inl, inr, true, false, ◌&&◌, [], ◌∷◌, arith, ltb, leb,
  Bool-cases, take, drop, All, nat_key, string_key,
}
use Prim.{tt}
use gvector.Types.{VectorId, F64}
use gvector.Meta.Number.{bits_to_f64, f64_le}
use gvector.Numeric.{F64Arith, Sorted, NumericFieldIndex, buckets, bucket, sum}
use gvector.Numeric.Weights.{weigh}
use gvector.Numeric.Keys.{IsKeyed}
use gvector.Numeric.Histogram.{IsValid, in_bucket}
use gvector.Numeric.Sums.{
  weigh-add, total_from, sum-slice, weigh-le, weigh-zeros, total_from-weigh, total_from-one,
}
use gvector.Numeric.Floats.{IsMonotone, IsNumber, IsInside}
use gvector.Numeric.Between.{bucket_within, low_side, high_side}
use gvector.Numeric.Ranges.{within, in_range}

all_placed :
    (lo hi : F64) (s : Sorted)
    → IsKeyed s
    → All (λ e. (f64_le lo (bits_to_f64 e.0) ≡ true) × (f64_le (bits_to_f64 e.0) hi ≡ true)) s
    → All
        (λ e.
          (e.0 < 2 ^ 64)
          × (f64_le lo (bits_to_f64 e.0) ≡ true)
          × (f64_le (bits_to_f64 e.0) hi ≡ true))
        s
all_placed lo hi [] k h = tt
all_placed lo hi (e ∷ s) (l, n, a, k) ((below, above), h) =
    ((l, below, above), all_placed lo hi s k h)

module _ (ops : F64Arith) (mono : IsMonotone ops) (idx : NumericFieldIndex) (from to : F64)
    (f : IsNumber from) (t : IsNumber to) (valid : IsValid ops idx) (inside : IsInside idx) where
  abbrev pub bucket_of : ℕ → ℕ
  bucket_of k = bucket ops idx.lo idx.hi (bits_to_f64 k)

  abbrev pub first : ℕ
  first = bucket ops idx.lo idx.hi (ops.max_of from idx.lo)

  abbrev pub last : ℕ
  last = bucket ops idx.lo idx.hi (ops.min_of to idx.hi)

  abbrev pub IsHere : ℕ → Type 0
  IsHere k =
      (k < 2 ^ 64) × (f64_le idx.lo (bits_to_f64 k) ≡ true) × (f64_le (bits_to_f64 k) idx.hi ≡ true)

  pub placed : All (λ e. IsHere e.0) idx.sorted
  placed = all_placed idx.lo idx.hi idx.sorted valid.keyed inside

  abbrev pub held : ℕ
  held = weigh (in_range from to) idx.sorted

  abbrev pub inner : ℕ → ℕ → VectorId → ℕ
  inner n k x = total_from (λ b. in_bucket ops idx.lo idx.hi b k x) (first + 1) n

  pub counted_inner :
      (n : ℕ)
      → first + 1 + n ≤ buckets
      → sum (take n (drop (first + 1) idx.hist)) ≡ weigh (inner n) idx.sorted
  counted_inner n h =
      sum-slice idx.hist (λ b. weigh (in_bucket ops idx.lo idx.hi b) idx.sorted) (first + 1) n
        (omega (arith, valid.size)) (λ b l. valid.counted b (omega (arith, valid.size)))
      ∙ total_from-weigh (in_bucket ops idx.lo idx.hi) (first + 1) n idx.sorted

  pub nothing : ((k : ℕ) → IsHere k → within from to k ≡ false) → held ≡ 0
  nothing h =
      let l =
        weigh-le IsHere (in_range from to) (λ k x. 0) idx.sorted placed
          (λ k x p. rw (h k p) (omega arith)) in
      omega (arith, l, weigh-zeros idx.sorted)

  pub inner_le : (n : ℕ) → first + 1 + n ≡ last → weigh (inner n) idx.sorted ≤ held
  inner_le n e = weigh-le IsHere (inner n) (in_range from to) idx.sorted placed (λ k x p.
      let one = total_from-one (bucket_of k) (first + 1) n in
      elim (Bool-cases (leb (first + 1) (bucket_of k) && ltb (bucket_of k) (first + 1 + n))) [
        | inl between ↦
            let low = low_side ops mono idx from to f t k p (ground arith) in
            let high = high_side ops mono idx from to f t k p (ground arith) in
            ground (arith, one, low, high)
        | inr not_between ↦ ground (arith, one)
      ])

  pub held_le :
      (n : ℕ)
      → first + 1 + n ≡ last
      → held
        ≤ weigh (inner n) idx.sorted
          + weigh (in_bucket ops idx.lo idx.hi first) idx.sorted
          + weigh (in_bucket ops idx.lo idx.hi last) idx.sorted
  held_le n e =
      let every =
        weigh-le IsHere (in_range from to)
          (λ k x.
            inner n k x
            + in_bucket ops idx.lo idx.hi first k x
            + in_bucket ops idx.lo idx.hi last k x)
          idx.sorted placed
          (λ k x p.
            let one = total_from-one (bucket_of k) (first + 1) n in
            elim (Bool-cases (within from to k)) [
              | inl listed ↦
                  let (low, high) = bucket_within ops mono idx from to f t k p listed in
                  ground (arith, one, low, high)
              | inr other ↦ rw other (omega arith)
            ]) in
      omega (
        arith,
        every,
        weigh-add (λ k x. inner n k x + in_bucket ops idx.lo idx.hi first k x)
            (in_bucket ops idx.lo idx.hi last) idx.sorted,
        weigh-add (inner n) (in_bucket ops idx.lo idx.hi first) idx.sorted,
      )

  pub one_bucket_le : first ≡ last → held ≤ weigh (in_bucket ops idx.lo idx.hi first) idx.sorted
  one_bucket_le e =
      weigh-le IsHere (in_range from to) (in_bucket ops idx.lo idx.hi first) idx.sorted placed
        (λ k x p. elim (Bool-cases (within from to k)) [
          | inl listed ↦
              let (low, high) = bucket_within ops mono idx from to f t k p listed in
              ground (arith, low, high)
          | inr other ↦ rw other (omega arith)
        ])
