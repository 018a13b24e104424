-- ===== src/Numeric/Keys.antt =====
-- The keys of the sorted map stay in order and below a bound, and no key is without ids.
use gvector.Prelude.{
  ℕ, ◌^◌, ◌<◌, inl, inr, List, [], ◌∷◌, arith, ltb, eqb, Bool-cases, length, All, length-append,
  nat_key, string_key,
}
use Prim.{Unit, tt}
use gvector.Types.{VectorId}
use gvector.Numeric.{Sorted, push_id, put_ids, replace_ids}

abbrev pub IsAbove : ℕ → Sorted → Type 0
IsAbove k s = All (λ e. k < e.0) s

-- Ascending keys of 64 bits, each with an id.
abbrev pub IsKeyed : Sorted → Type 0
IsKeyed [] = Unit
IsKeyed ((k, ids) ∷ rest) = (k < 2 ^ 64) × (0 < length ids) × IsAbove k rest × IsKeyed rest

IsAbove-push_id :
    (k key : ℕ) (id : VectorId) (s : Sorted) → k < key → IsAbove k s → IsAbove k (push_id key id s)
unfolding push_id
IsAbove-push_id k key id [] l h = (l, tt)
IsAbove-push_id k key id ((j, ids) ∷ rest) l (h, hs) = elim (Bool-cases (eqb j key)) [
  | inl same ↦ rw same (h, hs)
  | inr other ↦ rw other (elim (Bool-cases (ltb key j)) [
    | inl below ↦ rw below (l, (h, hs))
    | inr above ↦ rw above (h, IsAbove-push_id k key id rest l hs)
  ])
]

IsAbove-weaken : (j k : ℕ) (s : Sorted) → j < k → IsAbove k s → IsAbove j s
IsAbove-weaken j k [] l h = tt
IsAbove-weaken j k (e ∷ s) l (h, hs) = (omega arith, IsAbove-weaken j k s l hs)

pub IsKeyed-push_id :
    (key : ℕ) (id : VectorId) (s : Sorted) → key < 2 ^ 64 → IsKeyed s → IsKeyed (push_id key id s)
unfolding push_id
IsKeyed-push_id key id [] l h = (l, omega arith, tt, tt)
IsKeyed-push_id key id ((k, ids) ∷ rest) l (low, some_ids, above, h) =
    elim (Bool-cases (eqb k key)) [
      | inl same ↦ rw same (low, omega (arith, length-append ids (id ∷ [])), above, h)
      | inr other ↦ rw other (elim (Bool-cases (ltb key k)) [
        | inl below ↦ rw below (
          l,
          omega arith,
          (ground arith, IsAbove-weaken key k rest (ground arith) above),
          (low, some_ids, above, h),
        )
        | inr not_below ↦ rw not_below (
          low,
          some_ids,
          IsAbove-push_id k key id rest (ground arith) above,
          IsKeyed-push_id key id rest l h,
        )
      ])
    ]

IsAbove-replace_ids :
    (k key : ℕ) (new : List VectorId) (s : Sorted) → IsAbove k s → IsAbove k (replace_ids key new s)
unfolding replace_ids put_ids
IsAbove-replace_ids k key new [] h = tt
IsAbove-replace_ids k key [] ((j, ids) ∷ rest) (h, hs) = elim (Bool-cases (eqb j key)) [
  | inl same ↦ rw same hs
  | inr other ↦ rw other (h, IsAbove-replace_ids k key [] rest hs)
]
IsAbove-replace_ids k key (x ∷ new) ((j, ids) ∷ rest) (h, hs) = elim (Bool-cases (eqb j key)) [
  | inl same ↦ rw same (h, hs)
  | inr other ↦ rw other (h, IsAbove-replace_ids k key (x ∷ new) rest hs)
]

IsKeyed-put_ids :
    (k : ℕ) (new : List VectorId) (rest : Sorted)
    → k < 2 ^ 64
    → IsAbove k rest
    → IsKeyed rest
    → IsKeyed (put_ids new k rest)
unfolding put_ids
IsKeyed-put_ids k [] rest l a h = h
IsKeyed-put_ids k (x ∷ xs) rest l a h = (l, omega arith, a, h)

pub IsKeyed-replace_ids :
    (key : ℕ) (new : List VectorId) (s : Sorted) → IsKeyed s → IsKeyed (replace_ids key new s)
unfolding replace_ids
IsKeyed-replace_ids key new [] h = tt
IsKeyed-replace_ids key new ((k, ids) ∷ rest) (low, some_ids, above, h) =
    elim (Bool-cases (eqb k key)) [
      | inl same ↦ rw same (IsKeyed-put_ids k new rest low above h)
      | inr other ↦ rw other (
        low,
        some_ids,
        IsAbove-replace_ids k key new rest above,
        IsKeyed-replace_ids key new rest h,
      )
    ]
