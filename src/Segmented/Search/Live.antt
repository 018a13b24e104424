-- ===== src/Segmented/Search/Live.antt =====
-- The ids that a search over all sources names are alive, and a search that finds too few leaves
-- none of them out.
use gvector.Prelude.{
  ℕ, ◌+◌, ◌≤◌, ◌<◌, min, max, ◌≡◌, refl, sym, ap, ◌∙◌, ◌⊎◌, inl, inr, Bool, true, false, not, ◌&&◌,
  ◌||◌, List, [], ◌∷◌, ◌++◌, map, arith, eqb, eqb_iff, Bool-cases, length, take, anyb, All,
  length-take, take-all, nat_key, string_key,
}
use Prim.{tt}
use gvector.Types.{VectorId, F32, SearchResult}
use gvector.Types.Order.{result_ord}
use gvector.Order.Sort.{sort, IsSorted}
use gvector.Distance.{F32Ops}
use gvector.BruteForce.{BruteForceIndex, Rayon, search, contains}
use gvector.BruteForce.Contains.{IsDistinct}
use gvector.BruteForce.Invariant.{IsValid}
use gvector.BruteForce.Named.{
  names_id, names_id-append, names_id-sort, names_id-take, search-contains, search-names_all,
}
use gvector.Segmented.{Graph, Part, SegmentedIndex, has_id, is_live, is_buried, contains_live}
use gvector.Segmented.Search.{
  retain_unseen, unburied, segment_results, sealing_results, search_shared_with_ef,
  search_shared-IsSorted,
}

-- What the search relies on of a graph: it names nodes that are alive in it.
pub record IsSearchable {G : Type 0} (graph : Graph G) : Type 1 where
  pub IsGood : G → Type 0
  pub finds_live :
      (g : G) (query : List F32) (k ef : ℕ) (id : VectorId)
      → IsGood g
      → names_id id (graph.search_with_ef g query k ef) ≡ true
      → graph.has_node g id ≡ true

All-both :
    (k : ℕ) (parts : List (Part BruteForceIndex))
    → All (λ p. IsValid p.data_of) parts
    → All (λ p. length p.data_of.ids ≤ k) parts
    → All (λ p. IsValid p.data_of × (length p.data_of.ids ≤ k)) parts
All-both k [] a b = tt
All-both k (p ∷ parts) (a, rest) (b, more) = ((a, b), All-both k parts rest more)

one_of_three :
    (a b c : Bool) {x y z : Bool}
    → (a || (b || c)) ≡ true
    → (a ≡ true → x ≡ true)
    → (b ≡ true → y ≡ true)
    → (c ≡ true → z ≡ true)
    → (z || (y || x)) ≡ true
one_of_three true b c h from_a from_b from_c = let e = from_a refl in ground (arith, e)
one_of_three false true c h from_a from_b from_c = let e = from_b refl in ground (arith, e)
one_of_three false false true h from_a from_b from_c = let e = from_c refl in ground (arith, e)
one_of_three false false false h from_a from_b from_c = absurd (cc h)

names_id-unburied :
    (id : VectorId) (tombstones : List VectorId) (rs : List SearchResult)
    → names_id id (unburied tombstones rs) ≡ (names_id id rs && not (has_id id tombstones))
unfolding unburied
names_id-unburied id tombstones [] = refl
names_id-unburied id tombstones (r ∷ rs) =
    let rest = names_id-unburied id tombstones rs in
    elim (Bool-cases (eqb id r.id)) [
      | inl e ↦
          let same = ap (λ i. has_id i tombstones) ((eqb_iff id r.id).0 e) in
          ground (arith, rest, same, e)
      | inr e ↦ ground (arith, rest, e)
    ]

names_id-retain_unseen :
    (id : VectorId) (seen : List VectorId) (rs : List SearchResult)
    → names_id id (retain_unseen seen rs) ≡ (names_id id rs && not (has_id id seen))
unfolding retain_unseen
names_id-retain_unseen id seen [] = refl
names_id-retain_unseen id seen (r ∷ rs) =
    let old = names_id-retain_unseen id seen rs in
    let next = names_id-retain_unseen id (r.id ∷ seen) rs in
    elim (Bool-cases (eqb id r.id)) [
      | inl e ↦
          let same = ap (λ i. has_id i seen) ((eqb_iff id r.id).0 e) in
          ground (arith, old, next, same, e)
      | inr e ↦ ground (arith, old, next, e)
    ]

module _ {G : Type 0} (ops : F32Ops) (pool : Rayon) (graph : Graph G) (law : IsSearchable graph)
    (query : List F32) (k ef : ℕ) (id : VectorId) where
  -- The graph of a segment finds the id.
  abbrev pub finds : Part G → Bool
  finds p =
      let want = k + min (length p.tombstones) k in
      names_id id (graph.search_with_ef p.data_of query want (max ef want))
      && not (is_buried graph.has_node id p)

  segments-finds :
      (parts : List (Part G))
      → names_id id (segment_results ops pool graph query k ef parts) ≡ anyb finds parts
  unfolding segment_results
  segments-finds [] = refl
  segments-finds (p ∷ parts) =
      let want = k + min (length p.tombstones) k in
      let found = graph.search_with_ef p.data_of query want (max ef want) in
      names_id-append id (unburied p.tombstones found)
        (segment_results ops pool graph query k ef parts)
      ∙ ground (arith, names_id-unburied id p.tombstones found, segments-finds parts)

  found_alive :
      (parts : List (Part G))
      → All (λ p. law.IsGood p.data_of) parts
      → anyb finds parts ≡ true
      → anyb (is_live graph.has_node id) parts ≡ true
  found_alive [] good h = h
  found_alive (p ∷ parts) (good, goods) h = elim (Bool-cases (finds p)) [
    | inl here ↦
        let want = k + min (length p.tombstones) k in
        let alive = law.finds_live p.data_of query want (max ef want) id good (ground arith) in
        ground (arith, alive, here)
    | inr not_here ↦ let rest = found_alive parts goods (ground arith) in ground (arith, rest)
  ]

  sealing_alive :
      (parts : List (Part BruteForceIndex))
      → All (λ p. IsValid p.data_of) parts
      → names_id id (sealing_results ops pool graph query k parts) ≡ true
      → anyb (is_live contains id) parts ≡ true
  unfolding sealing_results
  sealing_alive [] valid h = h
  sealing_alive (p ∷ parts) (valid, valids) h =
      let found = search ops pool p.data_of query (k + min (length p.tombstones) k) in
      let split =
        names_id-append id (unburied p.tombstones found)
          (sealing_results ops pool graph query k parts) in
      let unhidden = names_id-unburied id p.tombstones found in
      elim (Bool-cases (names_id id found && not (has_id id p.tombstones))) [
        | inl here ↦
            let alive =
              search-contains ops pool p.data_of query (k + min (length p.tombstones) k) id valid
                (ground arith) in
            ground (arith, alive, here)
        | inr not_here ↦
            let rest = sealing_alive parts valids (ground (arith, split, unhidden)) in
            ground (arith, rest)
      ]

  sealing_found :
      (parts : List (Part BruteForceIndex))
      → All (λ p. IsValid p.data_of × (length p.data_of.ids ≤ k)) parts
      → anyb (is_live contains id) parts ≡ true
      → names_id id (sealing_results ops pool graph query k parts) ≡ true
  unfolding sealing_results
  sealing_found [] valid h = h
  sealing_found (p ∷ parts) ((valid, few), valids) h =
      let found = search ops pool p.data_of query (k + min (length p.tombstones) k) in
      let split =
        names_id-append id (unburied p.tombstones found)
          (sealing_results ops pool graph query k parts) in
      let unhidden = names_id-unburied id p.tombstones found in
      elim (Bool-cases (is_live contains id p)) [
        | inl here ↦
            let named =
              search-names_all ops pool p.data_of query (k + min (length p.tombstones) k) id valid
                (omega arith) (ground arith) in
            ground (arith, named, here, split, unhidden)
        | inr not_here ↦
            let rest = sealing_found parts valids (ground arith) in ground (arith, rest, split)
      ]

module _ {G : Type 0} (ops : F32Ops) (pool : Rayon) (graph : Graph G) (law : IsSearchable graph)
    (idx : SegmentedIndex G) (query : List F32) (k ef : ℕ) where
  abbrev all : List SearchResult
  all =
      segment_results ops pool graph query k ef idx.segments
      ++ (sealing_results ops pool graph query k idx.sealing ++ search ops pool idx.buffer query k)

  names_id-all :
      (id : VectorId)
      → names_id id (retain_unseen [] (sort all)) ≡ (
          anyb (finds ops pool graph law query k ef id) idx.segments
          || (names_id id (sealing_results ops pool graph query k idx.sealing)
              || names_id id (search ops pool idx.buffer query k)))
  names_id-all id =
      let in_segments = segments-finds ops pool graph law query k ef id idx.segments in
      let waiting = sealing_results ops pool graph query k idx.sealing in
      let buffered = search ops pool idx.buffer query k in
      let found = segment_results ops pool graph query k ef idx.segments in
      let whole = names_id-retain_unseen id [] (sort all) in
      ground (
        arith,
        whole,
        names_id-sort id all,
        names_id-append id found (waiting ++ buffered),
        names_id-append id waiting buffered,
        in_segments,
      )

  -- Every result names an id that is alive in the index.
  results_alive :
      All (λ p. law.IsGood p.data_of) idx.segments
      → All (λ p. IsValid p.data_of) idx.sealing
      → IsValid idx.buffer
      → (id : VectorId) → names_id id (search_shared_with_ef ops pool graph idx query k ef) ≡ true
      → contains_live ops graph idx id ≡ true
  unfolding search_shared_with_ef contains_live
  results_alive good valid buffer id h = elim (Bool-cases (eqb k 0)) [
    | inl z ↦ absurd (ground arith)
    | inr nz ↦
        let named = names_id-take id k (retain_unseen [] (sort all)) (rw nz at h) in
        let sources = sym (names_id-all id) ∙ named in
        let segments = found_alive ops pool graph law query k ef id idx.segments good in
        let sealing = sealing_alive ops pool graph law query k ef id idx.sealing valid in
        let buffered = search-contains ops pool idx.buffer query k id buffer in
        one_of_three (anyb (finds ops pool graph law query k ef id) idx.segments)
          (names_id id (sealing_results ops pool graph query k idx.sealing))
          (names_id id (search ops pool idx.buffer query k)) sources segments sealing buffered
  ]

  -- With fewer than `k` results nothing that a source gave is cut off.
  results_whole :
      length (search_shared_with_ef ops pool graph idx query k ef) < k
      → search_shared_with_ef ops pool graph idx query k ef ≡ retain_unseen [] (sort all)
  unfolding search_shared_with_ef
  results_whole few = elim (Bool-cases (eqb k 0)) [
    | inl z ↦ absurd (ground arith)
    | inr nz ↦
        let kept = retain_unseen [] (sort all) in
        let short : length (take k kept) < k = rw nz at few in
        rw nz (take-all k kept (omega (arith, length-take k kept, short)))
  ]

  -- A live id that the search must come across: in a buffer with at most `k` vectors, or found by the
  -- graph of a segment.
  abbrev pub IsInReach : VectorId → Type 0
  IsInReach id =
      ((length idx.buffer.ids ≤ k) × (contains idx.buffer id ≡ true))
      ⊎ ((All (λ p. length p.data_of.ids ≤ k) idx.sealing
            × (anyb (is_live contains id) idx.sealing ≡ true))
          ⊎ (anyb (finds ops pool graph law query k ef id) idx.segments ≡ true))

  results_complete :
      All (λ p. IsValid p.data_of) idx.sealing
      → IsValid idx.buffer
      → length (search_shared_with_ef ops pool graph idx query k ef) < k
      → (id : VectorId) → IsInReach id
      → names_id id (search_shared_with_ef ops pool graph idx query k ef) ≡ true
  results_complete valid buffer few id reach =
      ap (names_id id) (results_whole few) ∙ names_id-all id ∙ elim reach [
        | inl (small, h) ↦
            let named = search-names_all ops pool idx.buffer query k id buffer small h in
            ground (arith, named)
        | inr (inl (small, h)) ↦
            let named =
              sealing_found ops pool graph law query k ef id idx.sealing
                (All-both k idx.sealing valid small) h in
            ground (arith, named)
        | inr (inr h) ↦ ground (arith, h)
      ]

  -- Over a graph that finds only nodes that are alive in it: the results of a search over all sources
  -- are in order, at most `k`, name no id twice, and every id that they name is alive in the index.
  -- When they are fewer than `k`, they name every id of a write buffer of at most `k` vectors, every
  -- live id of the buffers being sealed when each has at most `k` vectors, and every id that the graph
  -- of a segment finds and the segment's tombstones do not bury.
  pub search_shared-alive :
      All (λ p. law.IsGood p.data_of) idx.segments
      → All (λ p. IsValid p.data_of) idx.sealing
      → IsValid idx.buffer
      → let results = search_shared_with_ef ops pool graph idx query k ef in
        IsSorted results
        × IsDistinct (map (λ r. r.id) results)
        × (length results ≤ k)
        × ((id : VectorId) → names_id id results ≡ true → contains_live ops graph idx id ≡ true)
        × (length results < k → (id : VectorId) → IsInReach id → names_id id results ≡ true)
  search_shared-alive good valid buffer =
      let (sorted, distinct, few) = search_shared-IsSorted ops pool graph idx query k ef in
      (sorted, distinct, few, results_alive good valid buffer, results_complete valid buffer)
