-- ===== src/BruteForce/Nearest.antt =====
-- What "the k nearest" means, without the code's order and its sort.
use gvector.Prelude.{
  ℕ, zero, suc, ◌-◌, ◌≤◌, ◌<◌, min, ◌≡◌, sym, ap, ◌∙◌, subst, ◌⊎◌, inl, inr, Bool, false, List, [],
  ◌∷◌, ◌++◌, map, arith, ltb, if◌then◌else◌, ltb→lt, Bool-cases, length, take, drop, filterb, All,
  length-take, take-append-drop, nat_key, string_key,
}
use Prim.{Unit, tt}
use mathlib.Core.List.{Permᴰ}
use gvector.Prelude.Int.{ℤ, pos, negsuc}
use gvector.Types.{VectorId, F32, SearchResult, sign32, total_cmp, cmp}
use gvector.Types.Order.{result_ord, lt_result}
use gvector.Order.Sort.{sort, IsSorted, AtMost, sort-IsSorted, sort_perm, length-sort}
use gvector.Order.TopK.{top}
use gvector.Distance.{F32Ops, prepare}
use gvector.BruteForce.{BruteForceIndex, search_filtered, entries}
use gvector.BruteForce.Search.{result_of, search_filtered-top}

-- The place of a float on the line, by its bit pattern: the patterns with the sign bit run
-- backwards below zero.
abbrev pub on_line : F32 → ℤ
on_line x = if ltb x sign32 then pos x else negsuc (x - sign32)

abbrev pub IsLess : ℤ → ℤ → Type 0
IsLess (pos a) (pos b) = a < b
IsLess (pos a) (negsuc b) = ⊥
IsLess (negsuc a) (pos b) = Unit
IsLess (negsuc a) (negsuc b) = b < a

-- A result is nearer than another, or as near with an id that is not greater.
abbrev pub IsNearer : SearchResult → SearchResult → Type 0
IsNearer a b =
    IsLess (on_line a.distance) (on_line b.distance) ⊎ ((a.distance ≡ b.distance) × (a.id ≤ b.id))

-- Each result is nearer than all that follow.
abbrev pub IsInOrder : List SearchResult → Type 0
IsInOrder [] = Unit
IsInOrder (r ∷ rs) = All (IsNearer r) rs × IsInOrder rs

not_after : (a b : SearchResult) → lt_result b a ≡ false → IsNearer a b
unfolding lt_result cmp total_cmp
not_after a b h = elim (Bool-cases (ltb a.distance sign32)) [
  | inl pa ↦ elim (Bool-cases (ltb b.distance sign32)) [
    | inl pb ↦ elim (Bool-cases (ltb a.distance b.distance)) [
      | inl less ↦ inl (rw (pa, pb) (ltb→lt a.distance b.distance less))
      | inr not_less ↦ inr (ground arith, ground arith)
    ]
    | inr nb ↦ absurd (ground arith)
  ]
  | inr na ↦ elim (Bool-cases (ltb b.distance sign32)) [
    | inl pb ↦ inl (rw (na, pb) tt)
    | inr nb ↦ elim (Bool-cases (ltb b.distance a.distance)) [
      | inl less ↦
          let below : b.distance - sign32 < a.distance - sign32 = ground arith in
          inl (rw (na, nb) below)
      | inr not_less ↦ inr (ground arith, ground arith)
    ]
  ]
]

AtMost-All : (r : SearchResult) (rs : List SearchResult) → AtMost r rs → All (IsNearer r) rs
unfolding lt_result
AtMost-All r [] h = tt
AtMost-All r (x ∷ rs) (h, hs) = (not_after r x h, AtMost-All r rs hs)

IsSorted-IsInOrder : (rs : List SearchResult) → IsSorted rs → IsInOrder rs
IsSorted-IsInOrder [] h = tt
IsSorted-IsInOrder (r ∷ rs) (h, hs) = (AtMost-All r rs h, IsSorted-IsInOrder rs hs)

All-take :
    (P : SearchResult → Type 0) (k : ℕ) (rs : List SearchResult) → All P rs → All P (take k rs)
All-take P zero rs h = tt
All-take P (suc k) [] h = tt
All-take P (suc k) (r ∷ rs) (h, hs) = (h, All-take P k rs hs)

All-drop :
    (P : SearchResult → Type 0) (k : ℕ) (rs : List SearchResult) → All P rs → All P (drop k rs)
All-drop P zero rs h = h
All-drop P (suc k) [] h = tt
All-drop P (suc k) (r ∷ rs) (h, hs) = All-drop P k rs hs

IsInOrder-take : (k : ℕ) (rs : List SearchResult) → IsInOrder rs → IsInOrder (take k rs)
IsInOrder-take zero rs h = tt
IsInOrder-take (suc k) [] h = tt
IsInOrder-take (suc k) (r ∷ rs) (h, hs) = (All-take (IsNearer r) k rs h, IsInOrder-take k rs hs)

-- What is taken of a list in order is nearer than what is left.
taken_first :
    (k : ℕ) (rs : List SearchResult)
    → IsInOrder rs
    → All (λ r. All (IsNearer r) (drop k rs)) (take k rs)
taken_first zero rs h = tt
taken_first (suc k) [] h = tt
taken_first (suc k) (r ∷ rs) (h, hs) = (All-drop (IsNearer r) k rs h, taken_first k rs hs)

-- The entries that pass, as results for a query.
abbrev pub passing : F32Ops → BruteForceIndex → List F32 → (VectorId → Bool) → List SearchResult
passing ops idx query allow =
    map (result_of ops idx.metric (prepare ops idx.metric query))
      (filterb (λ e. allow e.0) (entries idx))

-- A filtered search gives `k` of the entries that pass, or all when they are fewer, each as often as
-- it is there and with its distance from the prepared query; they are in order of distance, then of
-- id, and no entry that passes and is left out is nearer than one of them.
pub search_filtered-nearest :
    (ops : F32Ops) (idx : BruteForceIndex) (query : List F32) (k : ℕ) (allow : VectorId → Bool)
    → let results = search_filtered ops idx query k allow in
      (left_out : List SearchResult) × (Permᴰ (results ++ left_out) (passing ops idx query allow)
        × IsInOrder results
        × All (λ r. All (IsNearer r) left_out) results
        × (length results ≡ min k (length (passing ops idx query allow))))
unfolding top
search_filtered-nearest ops idx query k allow =
    let all = passing ops idx query allow in
    let sorted = sort all in
    let order = IsSorted-IsInOrder sorted (sort-IsSorted all) in
    rw (search_filtered-top ops idx query k allow) (
      drop k sorted,
      (
        subst (λ l. Permᴰ l all) (sym (take-append-drop k sorted)) (sort_perm all),
        IsInOrder-take k sorted order,
        taken_first k sorted order,
        length-take k sorted ∙ ap (min k) (length-sort all),
      ),
    )
