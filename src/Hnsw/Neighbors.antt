-- ===== src/Hnsw/Neighbors.antt =====
-- src/index/hnsw.rs, `select_neighbors_heuristic` and `shrink_links`.
pub mod Select
pub mod Links
use gvector.Prelude.{
  ℕ, zero, suc, refl, Bool, List, [], ◌∷◌, ◌++◌, map, leb, if◌then◌else◌, length, anyb, nat_key,
  string_key,
}
use gvector.Types.{Cand}
use gvector.Types.Order.{cand_ord}
use gvector.Order.Sort.{sort}
use gvector.Distance.{F32Ops, distance}
use gvector.Hnsw.{HnswIndex, vector_at, max_links, neighbors_at, set_neighbors, cand_at}

-- `for c in pruned`, up to the quota
unfoldable pub top_up : ℕ → List Cand → List Cand → List Cand
top_up m [] selected = selected
top_up m (c ∷ pruned) selected =
    let rest = top_up m pruned (selected ++ (c ∷ [])) in
    if leb m (length selected) then selected else rest

module _ (ops : F32Ops) {R : Type 0} where
  -- Is `c` closer to one of the selected than to the query?
  unfoldable pub dominated : HnswIndex R → Cand → List Cand → Bool
  dominated idx c selected =
      anyb
        (λ s. ops.gt c.dist (distance ops idx.metric (vector_at idx c.slot) (vector_at idx s.slot)))
        selected

  -- The loop over the candidates, with what is selected and what is pruned.
  unfoldable pub select_loop :
      HnswIndex R → ℕ → List Cand → List Cand → List Cand → List Cand × List Cand
  unfolding dominated
  select_loop idx m [] selected pruned = (selected, pruned)
  select_loop idx m (c ∷ candidates) selected pruned =
      let close = dominated idx c selected in
      let rest =
        select_loop idx m candidates (if close then selected else selected ++ (c ∷ []))
          (if close then pruned ++ (c ∷ []) else pruned) in
      if leb m (length selected) then (selected, pruned) else rest

  unfoldable pub select_neighbors_heuristic : HnswIndex R → List Cand → ℕ → List ℕ
  unfolding select_loop top_up
  select_neighbors_heuristic idx candidates m =
      let (selected, pruned) = select_loop idx m candidates [] [] in
      map (λ c. c.slot) (top_up m pruned selected)

  unfoldable pub shrink_links : HnswIndex R → ℕ → ℕ → HnswIndex R
  unfolding select_neighbors_heuristic
  shrink_links idx node level =
      let limit = max_links idx level in
      let list = neighbors_at idx.links node level in
      let cands = sort (map (cand_at ops idx (vector_at idx node)) list) in
      if leb (length list) limit then idx else record idx {
        links = set_neighbors idx.links node level (select_neighbors_heuristic idx cands limit);
      }
