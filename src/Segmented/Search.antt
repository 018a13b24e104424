-- ===== src/Segmented/Search.antt =====
-- src/index/segmented.rs: the search over all sources, `search_shared_with_ef`.
pub mod Live
use gvector.Prelude.{
  ℕ, zero, suc, ◌+◌, ◌≤◌, min, max, ◌≡◌, refl, ap, inl, inr, true, false, not, List, [], ◌∷◌, ◌++◌,
  map, arith, eqb, if◌then◌else◌, eqb_iff, eqb_refl, Bool-cases, length, take, filterb, length-take,
  nat_key, string_key,
}
use Prim.{tt}
use gvector.Types.{VectorId, F32, SearchResult}
use gvector.Types.Order.{result_ord}
use gvector.Order.Sort.{sort, IsSorted, AtMost, sort-IsSorted}
use gvector.Distance.{F32Ops}
use gvector.BruteForce.{Rayon, search, BruteForceIndex}
use gvector.BruteForce.Contains.{IsDistinct}
use gvector.Segmented.{Graph, Part, SegmentedIndex, has_id}

-- `all.retain(|r| seen.insert(r.id))`
unfoldable pub retain_unseen : List VectorId → List SearchResult → List SearchResult
retain_unseen seen [] = []
retain_unseen seen (r ∷ rs) =
    let rest = retain_unseen (r.id ∷ seen) rs in
    if has_id r.id seen then retain_unseen seen rs else r ∷ rest

-- The results of one source without those that its tombstones bury.
unfoldable pub unburied : List VectorId → List SearchResult → List SearchResult
unburied tombstones rs = filterb (λ r. not (has_id r.id tombstones)) rs

module _ {G : Type 0} (ops : F32Ops) (pool : Rayon) (graph : Graph G) where
  unfoldable pub segment_results : List F32 → ℕ → ℕ → List (Part G) → List SearchResult
  unfolding unburied
  segment_results query k ef [] = []
  segment_results query k ef (p ∷ parts) =
      let want = k + min (length p.tombstones) k in
      unburied p.tombstones (graph.search_with_ef p.data_of query want (max ef want))
      ++ segment_results query k ef parts

  unfoldable pub sealing_results : List F32 → ℕ → List (Part BruteForceIndex) → List SearchResult
  unfolding unburied
  sealing_results query k [] = []
  sealing_results query k (p ∷ parts) =
      unburied p.tombstones (search ops pool p.data_of query (k + min (length p.tombstones) k))
      ++ sealing_results query k parts

  -- `search_shared_with_ef`
  unfoldable pub search_shared_with_ef : SegmentedIndex G → List F32 → ℕ → ℕ → List SearchResult
  unfolding segment_results sealing_results retain_unseen
  search_shared_with_ef idx query k ef =
      let all =
        segment_results query k ef idx.segments
        ++ (sealing_results query k idx.sealing ++ search ops pool idx.buffer query k) in
      if eqb k 0 then [] else take k (retain_unseen [] (sort all))

result_ids : List SearchResult → List VectorId
result_ids rs = map (λ r. r.id) rs

retain-seen :
    (id : VectorId) (seen : List VectorId) (rs : List SearchResult)
    → has_id id seen ≡ true
    → has_id id (result_ids (retain_unseen seen rs)) ≡ false
unfolding retain_unseen result_ids
retain-seen id seen [] h = refl
retain-seen id seen (r ∷ rs) h = elim (Bool-cases (has_id r.id seen)) [
  | inl q ↦ rw q (retain-seen id seen rs h)
  | inr q ↦
      let other : eqb id r.id ≡ false = elim (Bool-cases (eqb id r.id)) [
        | inl e ↦ absurd (cc (h, q, ap (λ z. has_id z seen) ((eqb_iff id r.id).0 e)))
        | inr e ↦ e
      ] in
      rw q (ground (arith, other, retain-seen id (r.id ∷ seen) rs (ground (arith, h))))
]

retain-IsDistinct :
    (seen : List VectorId) (rs : List SearchResult)
    → IsDistinct (result_ids (retain_unseen seen rs))
unfolding retain_unseen result_ids
retain-IsDistinct seen [] = tt
retain-IsDistinct seen (r ∷ rs) = elim (Bool-cases (has_id r.id seen)) [
  | inl q ↦ rw q (retain-IsDistinct seen rs)
  | inr q ↦ rw q (
    retain-seen r.id (r.id ∷ seen) rs (ground (arith, eqb_refl r.id)),
    retain-IsDistinct (r.id ∷ seen) rs,
  )
]

retain-AtMost :
    (x : SearchResult) (seen : List VectorId) (rs : List SearchResult)
    → AtMost x rs
    → AtMost x (retain_unseen seen rs)
unfolding retain_unseen
retain-AtMost x seen [] h = tt
retain-AtMost x seen (r ∷ rs) (h, hs) = elim (Bool-cases (has_id r.id seen)) [
  | inl q ↦ rw q (retain-AtMost x seen rs hs)
  | inr q ↦ rw q (h, retain-AtMost x (r.id ∷ seen) rs hs)
]

retain-IsSorted :
    (seen : List VectorId) (rs : List SearchResult) → IsSorted rs → IsSorted (retain_unseen seen rs)
unfolding retain_unseen
retain-IsSorted seen [] h = tt
retain-IsSorted seen (r ∷ rs) (h, hs) = elim (Bool-cases (has_id r.id seen)) [
  | inl q ↦ rw q (retain-IsSorted seen rs hs)
  | inr q ↦ rw q (retain-AtMost r (r.id ∷ seen) rs h, retain-IsSorted (r.id ∷ seen) rs hs)
]

take-AtMost :
    (x : SearchResult) (k : ℕ) (rs : List SearchResult) → AtMost x rs → AtMost x (take k rs)
take-AtMost x zero rs h = tt
take-AtMost x (suc k) [] h = tt
take-AtMost x (suc k) (r ∷ rs) (h, hs) = (h, take-AtMost x k rs hs)

take-IsSorted : (k : ℕ) (rs : List SearchResult) → IsSorted rs → IsSorted (take k rs)
take-IsSorted zero rs h = tt
take-IsSorted (suc k) [] h = tt
take-IsSorted (suc k) (r ∷ rs) (h, hs) = (take-AtMost r k rs h, take-IsSorted k rs hs)

take-absent :
    (id : VectorId) (k : ℕ) (rs : List SearchResult)
    → has_id id (result_ids rs) ≡ false
    → has_id id (result_ids (take k rs)) ≡ false
unfolding result_ids
take-absent id zero rs h = refl
take-absent id (suc k) [] h = refl
take-absent id (suc k) (r ∷ rs) h = ground (arith, take-absent id k rs, h)

take-IsDistinct :
    (k : ℕ) (rs : List SearchResult)
    → IsDistinct (result_ids rs)
    → IsDistinct (result_ids (take k rs))
unfolding result_ids
take-IsDistinct zero rs h = tt
take-IsDistinct (suc k) [] h = tt
take-IsDistinct (suc k) (r ∷ rs) (h, hs) = (take-absent r.id k rs h, take-IsDistinct k rs hs)

-- The results of a search over all sources are in order, at most `k`, and name no id twice, even
-- while a buffer is being sealed or segments are merged.
pub search_shared-IsSorted :
    {G : Type 0} (ops : F32Ops) (pool : Rayon) (graph : Graph G) (idx : SegmentedIndex G)
    (query : List F32) (k ef : ℕ)
    → let results = search_shared_with_ef ops pool graph idx query k ef in
      IsSorted results × IsDistinct (map (λ r. r.id) results) × (length results ≤ k)
unfolding search_shared_with_ef result_ids
search_shared-IsSorted ops pool graph idx query k ef =
    let all =
      segment_results ops pool graph query k ef idx.segments
      ++ (sealing_results ops pool graph query k idx.sealing
          ++ search ops pool idx.buffer query k) in
    let kept = retain_unseen [] (sort all) in
    elim (Bool-cases (eqb k 0)) [
      | inl z ↦ rw z (tt, tt, omega arith)
      | inr z ↦ rw z (
        take-IsSorted k kept (retain-IsSorted [] (sort all) (sort-IsSorted all)),
        take-IsDistinct k kept (retain-IsDistinct [] (sort all)),
        omega (arith, length-take k kept),
      )
    ]
