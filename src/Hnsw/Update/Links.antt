-- ===== src/Hnsw/Update/Links.antt =====
-- The graph through an insert: every edge keeps ending in a node of its level.
use gvector.Prelude.{
  ℕ, zero, suc, ◌+◌, ◌-◌, ◌≤◌, min, ◌≡◌, refl, ◌∙◌, ◌⊎◌, inl, inr, some, List, [], ◌∷◌, ◌++◌, map,
  arith, ltb, leb, eqb, leb→le, Bool-cases, length, All, nat_key, string_key,
}
use gvector.Types.{F32}
use gvector.Distance.{F32Ops}
use gvector.Hnsw.{HnswIndex, levels_at, neighbors_at, set_neighbors, vector_at}
use gvector.Hnsw.Layer.{search_layer}
use gvector.Hnsw.Layer.Found.{HasLevel, IsClosed, IsHit}
use gvector.Hnsw.Layer.Results.{search_layer-IsHit}
use gvector.Hnsw.Neighbors.{select_neighbors_heuristic, shrink_links}
use gvector.Hnsw.Neighbors.Select.{snoc_All, select_neighbors-All, All-slots}
use gvector.Hnsw.Neighbors.Links.{
  SameHeights, All-heights, All-weaken, height-set, length-set_neighbors, set_neighbors-IsClosed,
  shrink_links-IsClosed,
}
use gvector.Hnsw.Query.{plain, descend}
use gvector.Hnsw.Query.Descend.{Descends, descend-HasLevel}
use gvector.Hnsw.Update.{count_down_to, connect, connect_all, link_levels, link_from}

-- What an insert's edges leave of a graph.
abbrev pub Kept : {R : Type 0} → HnswIndex R → HnswIndex R → Type 0
Kept idx' idx =
    IsClosed idx'.links × SameHeights idx'.links idx.links × (length idx'.links ≡ length idx.links)

pub Kept-trans : {R : Type 0} (a b c : HnswIndex R) → Kept a b → Kept b c → Kept a c
Kept-trans a b c (p, same, e) (q, same', e') = (p, (λ s. same s ∙ same' s), e ∙ e')

count_down_to-Descends : (low high h : ℕ) → high ≤ h → Descends h (count_down_to low high)
unfolding count_down_to
count_down_to-Descends low zero h l = elim (Bool-cases (eqb low 0)) [
  | inl q ↦ rw q (l, tt)
  | inr q ↦ rw q tt
]
count_down_to-Descends low (suc high) h l = elim (Bool-cases (leb low (suc high))) [
  | inl q ↦ rw q (l, count_down_to-Descends low high (suc high) (omega arith))
  | inr q ↦ rw q tt
]

count_down_to-All : (low high : ℕ) → All (λ n. low ≤ n) (count_down_to low high)
unfolding count_down_to
count_down_to-All low zero = elim (Bool-cases (eqb low 0)) [
  | inl q ↦ rw q (ground arith, tt)
  | inr q ↦ rw q tt
]
count_down_to-All low (suc high) = elim (Bool-cases (leb low (suc high))) [
  | inl q ↦ rw q (leb→le low (suc high) q, count_down_to-All low high)
  | inr q ↦ rw q tt
]

module _ (ops : F32Ops) {R : Type 0} where
  connect-Kept :
      (slot lc nb : ℕ) (idx : HnswIndex R)
      → IsClosed idx.links
      → HasLevel idx.links lc slot
      → HasLevel idx.links lc nb
      → Kept (connect ops slot lc nb idx) idx
  unfolding connect
  connect-Kept slot lc nb idx closed at_slot at_nb =
      let out = neighbors_at idx.links slot lc ++ (nb ∷ []) in
      let there = set_neighbors idx.links slot lc out in
      let closed_there = set_neighbors-IsClosed idx.links slot lc out closed (
        snoc_All (HasLevel idx.links lc) (neighbors_at idx.links slot lc) nb (closed slot lc)
          at_nb) in
      let back = neighbors_at there nb lc ++ (slot ∷ []) in
      let both = set_neighbors there nb lc back in
      let closed_both = set_neighbors-IsClosed there nb lc back closed_there (
        snoc_All (HasLevel there lc) (neighbors_at there nb lc) slot (closed_there nb lc)
          (omega (arith, height-set idx.links slot lc out slot))) in
      let (closed', same, len) =
        shrink_links-IsClosed ops (record idx { links = both }) nb lc closed_both in
      (
        closed',
        (λ s. same s ∙ height-set there nb lc back s ∙ height-set idx.links slot lc out s),
        len ∙ length-set_neighbors there nb lc back ∙ length-set_neighbors idx.links slot lc out,
      )

  connect_all-Kept :
      (slot lc : ℕ) (nbs : List ℕ) (idx : HnswIndex R)
      → IsClosed idx.links
      → HasLevel idx.links lc slot
      → All (HasLevel idx.links lc) nbs
      → Kept (connect_all ops slot lc nbs idx) idx
  unfolding connect_all
  connect_all-Kept slot lc [] idx closed at_slot h = (closed, (λ s. refl), refl)
  connect_all-Kept slot lc (nb ∷ nbs) idx closed at_slot (h, hs) =
      let next = connect ops slot lc nb idx in
      let kept = connect-Kept slot lc nb idx closed at_slot h in
      Kept-trans (connect_all ops slot lc nbs next) next idx
        (connect_all-Kept slot lc nbs next kept.0 (omega (arith, kept.1 slot))
          (All-heights next.links idx.links lc nbs kept.1 hs))
        kept

  link_levels-Kept :
      (slot : ℕ) (query : List F32) (levels eps : List ℕ) (h : ℕ) (idx : HnswIndex R)
      → IsClosed idx.links
      → Descends h levels
      → HasLevel idx.links h slot
      → All (HasLevel idx.links h) eps
      → Kept (link_levels ops slot query levels eps idx) idx
  unfolding link_levels
  link_levels-Kept slot query [] eps h idx closed d at_slot p = (closed, (λ s. refl), refl)
  link_levels-Kept slot query (lc ∷ levels) eps h idx closed (d, ds) at_slot p =
      let ask = plain query idx.params.ef_construction lc in
      let found = (search_layer ops idx ask eps).0 in
      let lower =
        All-weaken (HasLevel idx.links h) (HasLevel idx.links lc) eps (λ s q. omega arith) p in
      let (hits, _, _, _) = search_layer-IsHit ops idx ask eps closed lower in
      let places =
        All-weaken (IsHit ops idx ask) (λ c. HasLevel idx.links lc c.slot) found (λ c q. q.0)
          hits in
      let nbs = select_neighbors_heuristic ops idx found idx.params.m in
      let next = connect_all ops slot lc nbs idx in
      let kept =
        connect_all-Kept slot lc nbs idx closed (omega arith)
          (select_neighbors-All ops idx idx.params.m (HasLevel idx.links lc) found places) in
      Kept-trans (link_levels ops slot query levels (map (λ c. c.slot) found) next) next idx
        (link_levels-Kept slot query levels (map (λ c. c.slot) found) lc next kept.0 ds
          (omega (arith, kept.1 slot))
          (All-heights next.links idx.links lc (map (λ c. c.slot) found) kept.1
            (All-slots (HasLevel idx.links lc) found places)))
        kept

  entry-connect_all :
      (slot lc : ℕ) (nbs : List ℕ) (idx : HnswIndex R)
      → (connect_all ops slot lc nbs idx).entry ≡ idx.entry
  unfolding connect_all connect shrink_links
  entry-connect_all slot lc [] idx = refl
  entry-connect_all slot lc (nb ∷ nbs) idx =
      entry-connect_all slot lc nbs (connect ops slot lc nb idx) ∙ ground arith

  entry-link_levels :
      (slot : ℕ) (query : List F32) (levels eps : List ℕ) (idx : HnswIndex R)
      → (link_levels ops slot query levels eps idx).entry ≡ idx.entry
  unfolding link_levels
  entry-link_levels slot query [] eps idx = refl
  entry-link_levels slot query (lc ∷ levels) eps idx =
      let found = (search_layer ops idx (plain query idx.params.ef_construction lc) eps).0 in
      let nbs = select_neighbors_heuristic ops idx found idx.params.m in
      entry-link_levels slot query levels (map (λ c. c.slot) found)
        (connect_all ops slot lc nbs idx)
      ∙ entry-connect_all slot lc nbs idx

  pub link_from-Kept :
      (slot level entry : ℕ) (idx : HnswIndex R)
      → IsClosed idx.links
      → HasLevel idx.links level slot
      → HasLevel idx.links 0 entry
      → Kept (link_from ops slot level entry idx) idx
        × (((link_from ops slot level entry idx).entry ≡ some slot)
            ⊎ ((link_from ops slot level entry idx).entry ≡ idx.entry))
  unfolding link_from
  link_from-Kept slot level entry idx closed at_slot at_entry =
      let query = vector_at idx slot in
      let top = length (levels_at idx.links entry) - 1 in
      let h = min level top in
      let upper = count_down_to (level + 1) top in
      let ep = descend ops idx query upper entry in
      let place : HasLevel idx.links h ep =
        descend-HasLevel ops idx query upper top h entry closed
          (count_down_to-Descends (level + 1) top top (omega arith))
          (All-weaken (λ n. level + 1 ≤ n) (λ n. h ≤ n) upper (λ n l. omega arith)
            (count_down_to-All (level + 1) top))
          (omega arith) (omega arith) in
      let kept =
        link_levels-Kept slot query (count_down_to 0 h) (ep ∷ []) h idx closed
          (count_down_to-Descends 0 h h (omega arith)) (omega arith) (place, tt) in
      elim (Bool-cases (ltb top level)) [
        | inl q ↦ rw q (kept, inl refl)
        | inr q ↦ rw q (kept, inr (entry-link_levels slot query (count_down_to 0 h) (ep ∷ []) idx))
      ]
