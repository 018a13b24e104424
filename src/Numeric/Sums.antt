-- ===== src/Numeric/Sums.antt =====
-- Sums over the buckets of a slice, as one weight.
use gvector.Prelude.{
  ℕ, zero, suc, ◌+◌, ◌≤◌, ◌<◌, ◌≡◌, refl, sym, ap, ◌∙◌, ◌&&◌, List, [], ◌∷◌, arith, ltb, leb, eqb,
  if◌then◌else◌, length, get_or, take, drop, All, nat_key, string_key,
}
use gvector.Types.{VectorId}
use gvector.Numeric.{Sorted, sum}
use gvector.Numeric.Weights.{sum_ids, weigh}
use gvector.Numeric.Ranges.{sum_ids-zero}

-- The sum of `n` values from `a` on.
unfoldable pub total_from : (ℕ → ℕ) → ℕ → ℕ → ℕ
total_from f a zero = 0
total_from f a (suc n) = f a + total_from f (a + 1) n

drop-cons : (xs : List ℕ) (a : ℕ) → a < length xs → drop a xs ≡ get_or xs a 0 ∷ drop (suc a) xs
drop-cons [] a h = absurd (omega arith)
drop-cons (x ∷ xs) zero h = refl
drop-cons (x ∷ xs) (suc a) h = drop-cons xs a (omega arith)

pub sum-slice :
    (xs : List ℕ) (f : ℕ → ℕ) (a n : ℕ)
    → a + n ≤ length xs
    → ((b : ℕ) → b < length xs → get_or xs b 0 ≡ f b)
    → sum (take n (drop a xs)) ≡ total_from f a n
unfolding sum total_from
sum-slice xs f a zero h e = refl
sum-slice xs f a (suc n) h e =
    let next : suc a ≡ a + 1 = omega arith in
    rw (drop-cons xs a (omega arith), next)
      (omega (arith, e a (omega arith), sum-slice xs f (a + 1) n (omega arith) e))

sum_ids-add :
    (g h : VectorId → ℕ) (xs : List VectorId)
    → sum_ids (λ x. g x + h x) xs ≡ sum_ids g xs + sum_ids h xs
unfolding sum_ids
sum_ids-add g h [] = refl
sum_ids-add g h (x ∷ xs) = omega (arith, sum_ids-add g h xs)

pub weigh-add :
    (f g : ℕ → VectorId → ℕ) (s : Sorted) → weigh (λ k x. f k x + g k x) s ≡ weigh f s + weigh g s
unfolding weigh
weigh-add f g [] = refl
weigh-add f g ((k, ids) ∷ s) = omega (arith, sum_ids-add (f k) (g k) ids, weigh-add f g s)

sum_ids-le :
    (g h : VectorId → ℕ) (xs : List VectorId)
    → ((x : VectorId) → g x ≤ h x)
    → sum_ids g xs ≤ sum_ids h xs
unfolding sum_ids
sum_ids-le g h [] l = omega arith
sum_ids-le g h (x ∷ xs) l = omega (arith, l x, sum_ids-le g h xs l)

-- A weight that is nowhere greater gives no more.
pub weigh-le :
    (P : ℕ → Type 0) (f g : ℕ → VectorId → ℕ) (s : Sorted)
    → All (λ e. P e.0) s
    → ((k : ℕ) (x : VectorId) → P k → f k x ≤ g k x)
    → weigh f s ≤ weigh g s
unfolding weigh
weigh-le P f g [] h l = omega arith
weigh-le P f g ((k, ids) ∷ s) (p, h) l =
    omega (arith, sum_ids-le (f k) (g k) ids (λ x. l k x p), weigh-le P f g s h l)

pub weigh-zeros : (s : Sorted) → weigh (λ k x. 0) s ≡ 0
unfolding weigh
weigh-zeros [] = refl
weigh-zeros ((k, ids) ∷ s) = omega (arith, sum_ids-zero ids, weigh-zeros s)

-- A sum of weights is the weight of the sums.
pub total_from-weigh :
    (f : ℕ → ℕ → VectorId → ℕ) (a n : ℕ) (s : Sorted)
    → total_from (λ b. weigh (f b) s) a n ≡ weigh (λ k x. total_from (λ b. f b k x) a n) s
unfolding total_from
total_from-weigh f a zero s = sym (weigh-zeros s)
total_from-weigh f a (suc n) s =
    ap (λ m. weigh (f a) s + m) (total_from-weigh f (a + 1) n s)
    ∙ sym (weigh-add (f a) (λ k x. total_from (λ b. f b k x) (a + 1) n) s)

-- One bucket counts for a slice when it lies in it.
pub total_from-one :
    (c a n : ℕ)
    → total_from (λ b. if eqb c b then 1 else 0) a n ≡ (if leb a c && ltb c (a + n) then 1 else 0)
unfolding total_from
total_from-one c a zero = ground arith
total_from-one c a (suc n) = ground (arith, total_from-one c (a + 1) n)
