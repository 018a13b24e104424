-- ===== src/BruteForce/Named.antt =====
-- The ids that the results of a search name, and those of a buffer's search.
use gvector.Prelude.{
  ℕ, zero, suc, ◌+◌, ◌≤◌, ◌≡◌, refl, sym, ap, ◌∙◌, inl, inr, Bool, true, ◌||◌, List, [], ◌∷◌, ◌++◌,
  arith, eqb, if◌then◌else◌, Bool-cases, List-cases, length, take, anyb, take-all, nat_key,
  string_key,
}
use gvector.Types.{VectorId, F32, SearchResult}
use gvector.Types.Order.{result_ord}
use gvector.Order.Sort.{sort, insert_sorted, length-sort}
use gvector.Distance.{F32Ops, prepare}
use gvector.BruteForce.{
  BruteForceIndex, Rayon, search, search_filtered, filtered_candidates, contains,
}
use gvector.BruteForce.Search.{search_exact}
use gvector.BruteForce.Invariant.{IsValid}
use gvector.BruteForce.Contains.{contains-ids}

abbrev pub names_id : VectorId → List SearchResult → Bool
names_id id rs = anyb (λ r. eqb id r.id) rs

pub names_id-append :
    (id : VectorId) (xs ys : List SearchResult)
    → names_id id (xs ++ ys) ≡ (names_id id xs || names_id id ys)
names_id-append id [] ys = refl
names_id-append id (x ∷ xs) ys = ground (arith, names_id-append id xs ys)

names_id-insert_sorted :
    (id : VectorId) (r : SearchResult) (rs : List SearchResult)
    → names_id id (insert_sorted r rs) ≡ names_id id (r ∷ rs)
unfolding insert_sorted
names_id-insert_sorted id r [] = refl
names_id-insert_sorted id r (x ∷ rs) = elim (Bool-cases (result_ord.lt r x)) [
  | inl e ↦ rw e refl
  | inr e ↦ rw e (ground (arith, names_id-insert_sorted id r rs))
]

pub names_id-sort :
    (id : VectorId) (rs : List SearchResult) → names_id id (sort rs) ≡ names_id id rs
unfolding sort
names_id-sort id [] = refl
names_id-sort id (r ∷ rs) =
    names_id-insert_sorted id r (sort rs)
    ∙ ap (λ b. if eqb id r.id then true else b) (names_id-sort id rs)

pub names_id-take :
    (id : VectorId) (k : ℕ) (rs : List SearchResult)
    → names_id id (take k rs) ≡ true
    → names_id id rs ≡ true
names_id-take id zero rs h = absurd (ground arith)
names_id-take id (suc k) [] h = absurd (ground arith)
names_id-take id (suc k) (r ∷ rs) h = elim (Bool-cases (eqb id r.id)) [
  | inl e ↦ rw e refl
  | inr e ↦ rw e (names_id-take id k rs (rw e at h))
]

candidates-ids :
    (ops : F32Ops) (idx : BruteForceIndex) (q : List F32) (slot : ℕ) (ids : List VectorId)
    (id : VectorId)
    → names_id id (filtered_candidates ops idx q (λ _. true) slot ids) ≡ anyb (eqb id) ids
unfolding filtered_candidates
candidates-ids ops idx q slot [] id = refl
candidates-ids ops idx q slot (x ∷ ids) id =
    ap (λ b. if eqb id x then true else b) (candidates-ids ops idx q (slot + 1) ids id)

length-candidates :
    (ops : F32Ops) (idx : BruteForceIndex) (q : List F32) (slot : ℕ) (ids : List VectorId)
    → length (filtered_candidates ops idx q (λ _. true) slot ids) ≡ length ids
unfolding filtered_candidates
length-candidates ops idx q slot [] = refl
length-candidates ops idx q slot (x ∷ ids) = ap suc (length-candidates ops idx q (slot + 1) ids)

module _ (ops : F32Ops) (pool : Rayon) (idx : BruteForceIndex) (query : List F32) (k : ℕ)
    (id : VectorId) (valid : IsValid idx) where
  abbrev all : List SearchResult
  all = filtered_candidates ops idx (prepare ops idx.metric query) (λ _. true) 0 idx.ids

  all_ids : names_id id (sort all) ≡ contains idx id
  all_ids =
      names_id-sort id all
      ∙ candidates-ids ops idx (prepare ops idx.metric query) 0 idx.ids id
      ∙ contains-ids idx id valid

  -- A search names ids that the buffer holds.
  pub search-contains : names_id id (search ops pool idx query k) ≡ true → contains idx id ≡ true
  unfolding search_filtered
  search-contains h =
      let found = rw (search_exact ops pool idx query k) at h in
      elim (Bool-cases (eqb k 0)) [
        | inl z ↦ absurd (ground arith)
        | inr nz ↦ sym all_ids ∙ names_id-take id k (sort all) (ground arith)
      ]

  -- A search for as many as there are names them all.
  pub search-names_all :
      length idx.ids ≤ k → contains idx id ≡ true → names_id id (search ops pool idx query k) ≡ true
  unfolding search_filtered
  search-names_all few h =
      let size = length-candidates ops idx (prepare ops idx.metric query) 0 idx.ids in
      let whole = take-all k (sort all) (omega (arith, length-sort all, size)) in
      let named = all_ids ∙ h in
      ap (names_id id) (search_exact ops pool idx query k) ∙ elim (Bool-cases (eqb k 0)) [
        | inl z ↦
            let none_left : idx.ids ≡ [] = elim (List-cases idx.ids) [
              | inl e ↦ e
              | inr (x, xs, e) ↦ absurd (ground arith)
            ] in
            absurd (cc (contains-ids idx id valid ∙ h, ap (anyb (eqb id)) none_left))
        | inr nz ↦ rw (nz, whole) named
      ]
