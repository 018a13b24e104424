-- ===== src/Hnsw/Update/Rows.antt =====
-- The rows of the graph index: what an insert's edges leave alone.
use gvector.Prelude.{
  ℕ, ◌-◌, min, ◌≡◌, refl, ◌∙◌, inl, inr, Bool, List, [], ◌∷◌, map, arith, ltb, Bool-cases,
  Option-cases, length, nat_key, string_key,
}
use gvector.Types.{VectorId, F32}
use gvector.Distance.{F32Ops, Metric}
use gvector.Hnsw.{HnswIndex, HnswParams, levels_at, vector_at}
use gvector.Hnsw.Layer.{search_layer}
use gvector.Hnsw.Neighbors.{shrink_links, select_neighbors_heuristic}
use gvector.Hnsw.Query.{plain}
use gvector.Hnsw.Update.{connect, connect_all, link_levels, link_from, link_node, count_down_to}

-- Everything but the edges, the entry point and the random state.
pub record Rows : Type 0 where
  pub params : HnswParams
  pub metric : Metric
  pub dim : ℕ
  pub storage : List F32
  pub ids : List VectorId
  pub slot_of : List (VectorId × ℕ)
  pub deleted : List Bool
  pub deleted_count : ℕ

abbrev pub rows : {R : Type 0} → HnswIndex R → Rows
rows idx = record {
  params = idx.params;
  metric = idx.metric;
  dim = idx.dim;
  storage = idx.storage;
  ids = idx.ids;
  slot_of = idx.slot_of;
  deleted = idx.deleted;
  deleted_count = idx.deleted_count;
}

module _ (ops : F32Ops) {R : Type 0} where
  rows-shrink_links :
      (idx : HnswIndex R) (node level : ℕ) → rows (shrink_links ops idx node level) ≡ rows idx
  unfolding shrink_links
  rows-shrink_links idx node level = ground arith

  rows-connect_all :
      (slot lc : ℕ) (nbs : List ℕ) (idx : HnswIndex R)
      → rows (connect_all ops slot lc nbs idx) ≡ rows idx
  unfolding connect_all connect
  rows-connect_all slot lc [] idx = refl
  rows-connect_all slot lc (nb ∷ nbs) idx =
      rows-connect_all slot lc nbs (connect ops slot lc nb idx) ∙ rows-shrink_links _ nb lc

  pub rows-link_levels :
      (slot : ℕ) (query : List F32) (levels eps : List ℕ) (idx : HnswIndex R)
      → rows (link_levels ops slot query levels eps idx) ≡ rows idx
  unfolding link_levels
  rows-link_levels slot query [] eps idx = refl
  rows-link_levels slot query (lc ∷ levels) eps idx =
      let found = (search_layer ops idx (plain query idx.params.ef_construction lc) eps).0 in
      let nbs = select_neighbors_heuristic ops idx found idx.params.m in
      rows-link_levels slot query levels (map (λ c. c.slot) found) (connect_all ops slot lc nbs idx)
      ∙ rows-connect_all slot lc nbs idx

  rows-link_from :
      (slot level entry : ℕ) (idx : HnswIndex R)
      → rows (link_from ops slot level entry idx) ≡ rows idx
  unfolding link_from
  rows-link_from slot level entry idx =
      let top = length (levels_at idx.links entry) - 1 in
      let kept = λ (eps : List ℕ).
        rows-link_levels slot (vector_at idx slot) (count_down_to 0 (min level top)) eps idx in
      elim (Bool-cases (ltb top level)) [ inl q ↦ rw q (kept _) | inr q ↦ rw q (kept _) ]

  -- Linking a node changes nothing but edges and the entry point.
  pub rows-link_node :
      (slot level : ℕ) (idx : HnswIndex R) → rows (link_node ops slot level idx) ≡ rows idx
  unfolding link_node
  rows-link_node slot level idx = elim (Option-cases idx.entry) [
    | inl e ↦ ground arith
    | inr (entry, e) ↦ ground (arith, rows-link_from slot level entry idx)
  ]
