-- ===== src/Distance/Symmetry.antt =====
-- A distance does not depend on the order of its two vectors.
use gvector.Prelude.{
  ℕ, zero, suc, ◌/◌, min, ◌≡◌, refl, ap, ◌∙◌, List, [], ◌∷◌, arith, length, take, drop, nat_key,
  string_key,
}
use gvector.Types.{F32}
use gvector.Distance.{
  F32Ops, Metric, l2, dot, cosine, distance, dot_product, l2_squared, mul_acc, square_acc,
  chunk_loop, chunk_sum, dot_tail, l2_tail, zip_with, zero_lanes, remainder,
}
use Prim.Native.Nat.{min}

-- What IEEE arithmetic gives: products commute, and `x - y` and `y - x` have the same square.
pub record IsSymmetric (ops : F32Ops) : Type 0 where
  pub mul_comm : (x y : F32) → ops.mul x y ≡ ops.mul y x
  pub square-sub :
      (x y : F32) → ops.mul (ops.sub x y) (ops.sub x y) ≡ ops.mul (ops.sub y x) (ops.sub y x)

min_comm : (a b : ℕ) → min a b ≡ min b a
min_comm a b = omega arith

module _ (ops : F32Ops) (laws : IsSymmetric ops) where
  zip-mul_comm : (x y : List F32) → zip_with ops.mul x y ≡ zip_with ops.mul y x
  zip-mul_comm [] [] = refl
  zip-mul_comm [] (y ∷ ys) = refl
  zip-mul_comm (x ∷ xs) [] = refl
  zip-mul_comm (x ∷ xs) (y ∷ ys) = rw (laws.mul_comm x y, zip-mul_comm xs ys)

  zip-square :
      (x y : List F32)
      → zip_with ops.mul (zip_with ops.sub x y) (zip_with ops.sub x y)
        ≡ zip_with ops.mul (zip_with ops.sub y x) (zip_with ops.sub y x)
  zip-square [] [] = refl
  zip-square [] (y ∷ ys) = refl
  zip-square (x ∷ xs) [] = refl
  zip-square (x ∷ xs) (y ∷ ys) = rw (laws.square-sub x y, zip-square xs ys)

  chunk_loop_comm :
      (acc : List F32 → List F32 → List F32 → List F32)
      → ((s x y : List F32) → acc s x y ≡ acc s y x)
      → (n : ℕ) (a b s t : List F32) → chunk_loop ops acc n a b s t ≡ chunk_loop ops acc n b a s t
  unfolding chunk_loop
  chunk_loop_comm acc h zero a b s t = refl
  chunk_loop_comm acc h (suc n) a b s t =
      rw
        (
          h s (take 8 (take 16 a)) (take 8 (take 16 b)),
          h t (drop 8 (take 16 a)) (drop 8 (take 16 b)),
        )
        (chunk_loop_comm acc h n (drop 16 a) (drop 16 b) _ _)

  chunk_sum_comm :
      (acc : List F32 → List F32 → List F32 → List F32)
      → ((s x y : List F32) → acc s x y ≡ acc s y x)
      → (a b : List F32) → chunk_sum ops acc a b ≡ chunk_sum ops acc b a
  unfolding chunk_sum
  chunk_sum_comm acc h a b =
      ap (λ r. ops.reduce_add (zip_with ops.add r.0 r.1))
        (chunk_loop_comm acc h (min (length a / 16) (length b / 16)) a b zero_lanes zero_lanes
          ∙ ap (λ n. chunk_loop ops acc n b a zero_lanes zero_lanes)
              (min_comm (length a / 16) (length b / 16)))

  dot_tail_comm : (s : F32) (x y : List F32) → dot_tail ops s x y ≡ dot_tail ops s y x
  unfolding dot_tail
  dot_tail_comm s [] [] = refl
  dot_tail_comm s [] (y ∷ ys) = refl
  dot_tail_comm s (x ∷ xs) [] = refl
  dot_tail_comm s (x ∷ xs) (y ∷ ys) =
      dot_tail_comm (ops.add s (ops.mul x y)) xs ys
      ∙ ap (λ p. dot_tail ops (ops.add s p) ys xs) (laws.mul_comm x y)

  l2_tail_comm : (s : F32) (x y : List F32) → l2_tail ops s x y ≡ l2_tail ops s y x
  unfolding l2_tail
  l2_tail_comm s [] [] = refl
  l2_tail_comm s [] (y ∷ ys) = refl
  l2_tail_comm s (x ∷ xs) [] = refl
  l2_tail_comm s (x ∷ xs) (y ∷ ys) =
      l2_tail_comm (ops.add s (ops.mul (ops.sub x y) (ops.sub x y))) xs ys
      ∙ ap (λ p. l2_tail ops (ops.add s p) ys xs) (laws.square-sub x y)

  mul_acc_comm : (s x y : List F32) → mul_acc ops s x y ≡ mul_acc ops s y x
  unfolding mul_acc
  mul_acc_comm s x y = ap (zip_with ops.add s) (zip-mul_comm x y)

  square_acc_comm : (s x y : List F32) → square_acc ops s x y ≡ square_acc ops s y x
  unfolding square_acc
  square_acc_comm s x y = ap (zip_with ops.add s) (zip-square x y)

  dot_product_comm : (a b : List F32) → dot_product ops a b ≡ dot_product ops b a
  unfolding dot_product
  dot_product_comm a b =
      ap (λ s. dot_tail ops s (remainder a) (remainder b))
        (chunk_sum_comm (mul_acc ops) mul_acc_comm a b)
      ∙ dot_tail_comm _ (remainder a) (remainder b)

  l2_squared_comm : (a b : List F32) → l2_squared ops a b ≡ l2_squared ops b a
  unfolding l2_squared
  l2_squared_comm a b =
      ap (λ s. l2_tail ops s (remainder a) (remainder b))
        (chunk_sum_comm (square_acc ops) square_acc_comm a b)
      ∙ l2_tail_comm _ (remainder a) (remainder b)

  -- Under every metric the distance is symmetric.
  pub distance_comm : (m : Metric) (a b : List F32) → distance ops m a b ≡ distance ops m b a
  unfolding distance
  distance_comm l2 a b = l2_squared_comm a b
  distance_comm dot a b = ap ops.neg (dot_product_comm a b)
  distance_comm cosine a b = ap ops.neg (dot_product_comm a b)
