-- ===== src/Numeric/Weights.antt =====
-- What the sorted map holds, weighed by any function of a key and an id.
use gvector.Prelude.{
  ℕ, zero, suc, ◌+◌, ◌-◌, ◌<◌, ◌≡◌, refl, sym, ap, ◌∙◌, subst, inl, inr, some, List, [], ◌∷◌, ◌++◌,
  arith, ltb, eqb, eqb_iff, Bool-cases, Option-cases, some_inj, length, get_elem?, get_or, set,
  take, length-set, get_elem?-lt, nat_key, string_key,
}
use gvector.Types.{VectorId}
use gvector.Numeric.{Sorted, push_id, ids_at, put_ids, replace_ids, position, swap_remove}

unfoldable pub sum_ids : (VectorId → ℕ) → List VectorId → ℕ
sum_ids g [] = 0
sum_ids g (x ∷ xs) = g x + sum_ids g xs

unfoldable pub weigh : (ℕ → VectorId → ℕ) → Sorted → ℕ
unfolding sum_ids
weigh f [] = 0
weigh f ((k, ids) ∷ rest) = sum_ids (f k) ids + weigh f rest

sum_ids-snoc :
    (g : VectorId → ℕ) (xs : List VectorId) (x : VectorId)
    → sum_ids g (xs ++ (x ∷ [])) ≡ g x + sum_ids g xs
unfolding sum_ids
sum_ids-snoc g [] x = refl
sum_ids-snoc g (y ∷ xs) x = omega (arith, sum_ids-snoc g xs x)

-- A write changes the sum by what it puts there.
sum_ids-set :
    (g : VectorId → ℕ) (xs : List VectorId) (i x v : ℕ)
    → get_elem? xs i ≡ some x
    → sum_ids g (set xs i v) + g x ≡ sum_ids g xs + g v
unfolding sum_ids
sum_ids-set g [] i x v h = cc
sum_ids-set g (y ∷ xs) zero x v h = omega (arith, ap g (some_inj h))
sum_ids-set g (y ∷ xs) (suc i) x v h = omega (arith, sum_ids-set g xs i x v h)

sum_ids-last :
    (g : VectorId → ℕ) (x : VectorId) (xs : List VectorId)
    → sum_ids g (x ∷ xs) ≡ sum_ids g (take (length xs) (x ∷ xs)) + g (get_or (x ∷ xs) (length xs) 0)
unfolding sum_ids
sum_ids-last g x [] = omega arith
sum_ids-last g x (y ∷ ys) = omega (arith, sum_ids-last g y ys)

get_or-set_same : (xs : List ℕ) (i j : ℕ) → get_or (set xs i (get_or xs j 0)) j 0 ≡ get_or xs j 0
get_or-set_same [] i j = refl
get_or-set_same (x ∷ xs) zero zero = refl
get_or-set_same (x ∷ xs) zero (suc j) = refl
get_or-set_same (x ∷ xs) (suc i) zero = refl
get_or-set_same (x ∷ xs) (suc i) (suc j) = get_or-set_same xs i j

last_sum :
    (g : VectorId → ℕ) (xs : List VectorId)
    → 0 < length xs
    → sum_ids g xs ≡ sum_ids g (take (length xs - 1) xs) + g (get_or xs (length xs - 1) 0)
unfolding sum_ids
last_sum g [] h = absurd (omega arith)
last_sum g (x ∷ xs) h =
    let less : length xs ≡ suc (length xs) - 1 = omega arith in
    subst (λ n. sum_ids g (x ∷ xs) ≡ sum_ids g (take n (x ∷ xs)) + g (get_or (x ∷ xs) n 0)) less
      (sum_ids-last g x xs)

-- The removed id is gone, and only it.
pub sum_ids-swap_remove :
    (g : VectorId → ℕ) (xs : List VectorId) (i x : ℕ)
    → get_elem? xs i ≡ some x
    → sum_ids g xs ≡ g x + sum_ids g (swap_remove xs i)
unfolding swap_remove
sum_ids-swap_remove g xs i x h =
    let final = get_or xs (length xs - 1) 0 in
    let size = length-set xs i final in
    let inside = get_elem?-lt xs i x h in
    let parts = last_sum g (set xs i final) (omega arith) in
    let kept : get_or (set xs i final) (length (set xs i final) - 1) 0 ≡ final =
      ap (λ n. get_or (set xs i final) (n - 1) 0) size ∙ get_or-set_same xs i (length xs - 1) in
    let shorter = ap (λ n. sum_ids g (take (n - 1) (set xs i final))) size in
    omega (arith, sum_ids-set g xs i x final h, parts, ap g kept, shorter)

pub position_at :
    (id : VectorId) (xs : List VectorId) (pos : ℕ)
    → position id xs ≡ some pos
    → get_elem? xs pos ≡ some id
unfolding position
position_at id [] pos e = cc
position_at id (x ∷ xs) pos e = elim (Bool-cases (eqb x id)) [
  | inl same ↦
      let here : pos ≡ 0 = sym (some_inj (rw same at e)) in
      rw here (ap some ((eqb_iff x id).0 same))
  | inr other ↦ elim (Option-cases (position id xs)) [
    | inl none_left ↦ absurd (cc (rw (other, none_left) at e))
    | inr (n, q) ↦
        let here : pos ≡ suc n = sym (some_inj (rw (other, q) at e)) in
        rw here (position_at id xs n q)
  ]
]

-- A push adds the new pair.
pub weigh-push_id :
    (f : ℕ → VectorId → ℕ) (key : ℕ) (id : VectorId) (s : Sorted)
    → weigh f (push_id key id s) ≡ f key id + weigh f s
unfolding weigh push_id sum_ids
weigh-push_id f key id [] = omega arith
weigh-push_id f key id ((k, ids) ∷ rest) =
    let later = weigh-push_id f key id rest in
    let here = sum_ids-snoc (f k) ids id in
    elim (Bool-cases (eqb k key)) [
      | inl same ↦ rw same (omega (arith, here, ap (λ j. f j id) ((eqb_iff k key).0 same)))
      | inr other ↦ rw other (elim (Bool-cases (ltb key k)) [
        | inl below ↦ rw below (omega arith)
        | inr above ↦ rw above (omega (arith, later))
      ])
    ]

weigh-put_ids :
    (f : ℕ → VectorId → ℕ) (new : List VectorId) (k : ℕ) (rest : Sorted)
    → weigh f (put_ids new k rest) ≡ sum_ids (f k) new + weigh f rest
unfolding weigh put_ids sum_ids
weigh-put_ids f [] k rest = omega arith
weigh-put_ids f (x ∷ xs) k rest = refl

-- A removal takes out the pair.
pub weigh-replace_ids :
    (f : ℕ → VectorId → ℕ) (key : ℕ) (id : VectorId) (ids new : List VectorId) (s : Sorted)
    → ids_at key s ≡ some ids
    → sum_ids (f key) ids ≡ f key id + sum_ids (f key) new
    → weigh f s ≡ f key id + weigh f (replace_ids key new s)
unfolding weigh ids_at replace_ids
weigh-replace_ids f key id ids new [] e h = cc
weigh-replace_ids f key id ids new ((k, here) ∷ rest) e h = elim (Bool-cases (eqb k key)) [
  | inl same ↦
      let found : here ≡ ids = some_inj (rw same at e) in
      let key_eq : k ≡ key = (eqb_iff k key).0 same in
      let put = weigh-put_ids f new k rest in
      rw same (
        omega (
          arith,
          put,
          h,
          ap (sum_ids (f k)) found,
          ap (λ j. sum_ids (f j) ids) key_eq,
          ap (λ j. sum_ids (f j) new) key_eq,
        ))
  | inr other ↦
      let later = weigh-replace_ids f key id ids new rest (rw other at e) h in
      rw other (omega (arith, later))
]
