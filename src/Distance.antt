-- ===== src/Distance.antt =====
-- src/distance.rs: the metrics over `f32` slices, with the loops as they are written. The
-- arithmetic of `f32` and the lane sum of the `wide` crate are the fields of `F32Ops`; lanes are
-- lists of eight.
pub mod Symmetry
use gvector.Prelude.{
  ℕ, zero, suc, ◌*◌, ◌/◌, min, ◌≡◌, refl, Bool, true, false, List, [], ◌∷◌, map, arith,
  if◌then◌else◌, length, take, drop, replicate, length-map, nat_key, string_key,
}
use gvector.Types.{F32}

pub record F32Ops : Type 0 where
  pub add : F32 → F32 → F32
  pub sub : F32 → F32 → F32
  pub mul : F32 → F32 → F32
  pub div : F32 → F32 → F32
  pub neg : F32 → F32
  pub sqrt : F32 → F32
  -- the IEEE test `a > b`
  pub gt : F32 → F32 → Bool
  -- `f32x8::reduce_add`
  pub reduce_add : List F32 → F32

pub data Metric : Type 0 where
  l2 dot cosine : Metric

unfoldable pub requires_normalization : Metric → Bool
requires_normalization cosine = true
requires_normalization _ = false

abbrev zip_with : (F32 → F32 → F32) → List F32 → List F32 → List F32
zip_with f [] ys = []
zip_with f (x ∷ xs) [] = []
zip_with f (x ∷ xs) (y ∷ ys) = f x y ∷ zip_with f xs ys

abbrev zero_lanes : List F32
zero_lanes = replicate 8 0

-- `chunks_exact(16).remainder()`
abbrev remainder : List F32 → List F32
remainder v = drop (16 * (length v / 16)) v

module _ (ops : F32Ops) where
  open ops use {add, sub, mul, div, neg, sqrt, gt, reduce_add}

  -- One kernel of eight lanes: `acc += x * y`, or `d = x - y; acc += d * d`.
  mul_acc : List F32 → List F32 → List F32 → List F32
  mul_acc acc x y = zip_with add acc (zip_with mul x y)

  square_acc : List F32 → List F32 → List F32 → List F32
  square_acc acc x y = let d = zip_with sub x y in zip_with add acc (zip_with mul d d)

  -- The loop over the pairs of 16-element chunks, `n` of them left.
  chunk_loop :
      (List F32 → List F32 → List F32 → List F32)
      → ℕ
      → List F32
      → List F32
      → List F32
      → List F32
      → List F32 × List F32
  chunk_loop acc zero a b acc0 acc1 = (acc0, acc1)
  chunk_loop acc (suc n) a b acc0 acc1 =
      let x = take 16 a in
      let y = take 16 b in
      chunk_loop acc n (drop 16 a) (drop 16 b) (acc acc0 (take 8 x) (take 8 y))
        (acc acc1 (drop 8 x) (drop 8 y))

  dot_tail : F32 → List F32 → List F32 → F32
  dot_tail sum [] ys = sum
  dot_tail sum (x ∷ xs) [] = sum
  dot_tail sum (x ∷ xs) (y ∷ ys) = dot_tail (add sum (mul x y)) xs ys

  l2_tail : F32 → List F32 → List F32 → F32
  l2_tail sum [] ys = sum
  l2_tail sum (x ∷ xs) [] = sum
  l2_tail sum (x ∷ xs) (y ∷ ys) = let d = sub x y in l2_tail (add sum (mul d d)) xs ys

  -- Chunks are paired until the shorter slice runs out.
  chunk_sum : (List F32 → List F32 → List F32 → List F32) → List F32 → List F32 → F32
  unfolding chunk_loop
  chunk_sum acc a b =
      let (acc0, acc1) =
        chunk_loop acc (min (length a / 16) (length b / 16)) a b zero_lanes zero_lanes in
      reduce_add (zip_with add acc0 acc1)

  -- `dot`
  unfoldable pub dot_product : List F32 → List F32 → F32
  unfolding mul_acc chunk_sum dot_tail
  dot_product a b = dot_tail (chunk_sum mul_acc a b) (remainder a) (remainder b)

  unfoldable pub l2_squared : List F32 → List F32 → F32
  unfolding square_acc chunk_sum l2_tail
  l2_squared a b = l2_tail (chunk_sum square_acc a b) (remainder a) (remainder b)

  -- `Metric::distance`
  unfoldable pub distance : Metric → List F32 → List F32 → F32
  unfolding l2_squared dot_product
  distance l2 a b = l2_squared a b
  distance dot a b = neg (dot_product a b)
  distance cosine a b = neg (dot_product a b)

  -- A vector of norm 0 stays as it is.
  unfoldable pub normalize : List F32 → List F32
  normalize v =
      let norm = sqrt (dot_product v v) in if gt norm 0 then map (λ x. div x norm) v else v

  -- What an index does with a vector on insert and with a query on search.
  unfoldable pub prepare : Metric → List F32 → List F32
  unfolding requires_normalization
  prepare metric v = if requires_normalization metric then normalize v else v

  length-normalize : (v : List F32) → length (normalize v) ≡ length v
  unfolding normalize
  length-normalize v = ground (arith, length-map v (λ x. div x (sqrt (dot_product v v))))

  pub length-prepare : (metric : Metric) (v : List F32) → length (prepare metric v) ≡ length v
  unfolding prepare
  length-prepare metric v = ground (arith, length-normalize v)
