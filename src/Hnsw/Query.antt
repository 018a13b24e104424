-- ===== src/Hnsw/Query.antt =====
-- src/index/hnsw.rs: `search_with_ef`, `search_filtered_stats` and the searches that wrap them.
pub mod Descend
pub mod Answers
pub mod Searches
pub mod Filtered
use gvector.Prelude.{
  ℕ, zero, suc, ◌-◌, max, refl, Bool, true, false, not, ◌&&◌, Option, none, some, List, [], ◌∷◌,
  map, leb, eqb, if◌then◌else◌, length, get_or, take, nat_key, string_key,
}
use gvector.Types.{VectorId, F32, SearchResult, Cand}
use gvector.Types.Order.{result_ord}
use gvector.Order.Sort.{sort}
use gvector.Distance.{F32Ops, prepare}
use gvector.Hnsw.{HnswIndex, levels_at, range_from, count_down, dist_to, result_at}
use gvector.Hnsw.Layer.{LayerQuery, search_layer}

pub record FilterSearchStats : Type 0 where
  pub visited : ℕ
  pub admitted : ℕ
  pub fallback_used : Bool
  pub budget_exhausted : Bool

abbrev pub no_stats : FilterSearchStats
no_stats = record { visited = 0; admitted = 0; fallback_used = false; budget_exhausted = false }

-- The slot of the first candidate: `.0[0].slot`.
abbrev pub first_slot : List Cand → ℕ
first_slot [] = 0
first_slot (c ∷ cs) = c.slot

-- A search that only guides the way, tombstones included.
abbrev pub plain : List F32 → ℕ → ℕ → LayerQuery
plain query ef level = record {
  query = query;
  ef = ef;
  level = level;
  exclude_deleted = false;
  filter = none;
  visited_budget = none;
}

-- The search of the base layer, whose results are alive and pass.
abbrev pub base : List F32 → ℕ → Option (ℕ → Bool) → Option ℕ → LayerQuery
base query ef filter budget = record {
  query = query;
  ef = ef;
  level = 0;
  exclude_deleted = true;
  filter = filter;
  visited_budget = budget;
}

module _ (ops : F32Ops) {R : Type 0} where
  -- The greedy descent: `for level in .. { ep = search_layer(.., &[ep], 1, level, ..).0[0].slot }`.
  unfoldable pub descend : HnswIndex R → List F32 → List ℕ → ℕ → ℕ
  descend idx query [] ep = ep
  descend idx query (level ∷ levels) ep =
      descend idx query levels (first_slot (search_layer ops idx (plain query 1 level) (ep ∷ [])).0)

  unfoldable pub search_with_ef : HnswIndex R → List F32 → ℕ → ℕ → List SearchResult
  unfolding descend
  search_with_ef idx query k ef = elim idx.entry [
    | none ↦ []
    | some entry ↦
        let q = prepare ops idx.metric query in
        let top = length (levels_at idx.links entry) - 1 in
        let ep = descend idx q (count_down top) entry in
        let found = (search_layer ops idx (base q (max ef k) none none) (ep ∷ [])).0 in
        if eqb k 0 then [] else map (result_at ops idx) (take k found)
  ]

  -- The linear scan over the slots that are alive and pass.
  unfoldable pub scan_slots :
      HnswIndex R → List F32 → (VectorId → Bool) → List ℕ → List SearchResult
  scan_slots idx query allow [] = []
  scan_slots idx query allow (s ∷ slots) =
      let rest = scan_slots idx query allow slots in
      if not (get_or idx.deleted s false) && allow (get_or idx.ids s 0)
      then record { id = get_or idx.ids s 0; distance = dist_to ops idx query s } ∷ rest
      else rest

  unfoldable pub search_filtered_stats :
      HnswIndex R
      → List F32
      → ℕ
      → ℕ
      → (VectorId → Bool)
      → Option ℕ
      → List SearchResult × FilterSearchStats
  unfolding descend scan_slots
  search_filtered_stats idx query k ef allow budget = elim idx.entry [
    | none ↦ ([], no_stats)
    | some entry ↦
        let q = prepare ops idx.metric query in
        let top = length (levels_at idx.links entry) - 1 in
        let ep = descend idx q (count_down top) entry in
        let slot_allow = λ (slot : ℕ). allow (get_or idx.ids slot 0) in
        let (found, visited, admitted) =
          search_layer ops idx (base q (max ef k) (some slot_allow) budget) (ep ∷ []) in
        let exhausted : Bool = elim budget [ none ↦ false | some b ↦ leb b visited ] in
        let stats : Bool → FilterSearchStats = λ fallback. record {
          visited = visited;
          admitted = admitted;
          fallback_used = fallback;
          budget_exhausted = exhausted;
        } in
        let out = map (result_at ops idx) (take k found) in
        if eqb k 0
        then ([], no_stats)
        else if exhausted
        then (out, stats false)
        else if leb k (length found)
        then (out, stats false)
        else (take k (sort (scan_slots idx q allow (range_from 0 (length idx.ids)))), stats true)
  ]

  unfoldable pub search_filtered_with_ef :
      HnswIndex R → List F32 → ℕ → ℕ → (VectorId → Bool) → List SearchResult
  unfolding search_filtered_stats
  search_filtered_with_ef idx query k ef allow = (search_filtered_stats idx query k ef allow none).0

  -- `VectorIndex::search`
  unfoldable pub search : HnswIndex R → List F32 → ℕ → List SearchResult
  unfolding search_with_ef
  search idx query k = search_with_ef idx query k idx.params.ef_search
