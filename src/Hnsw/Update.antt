-- ===== src/Hnsw/Update.antt =====
-- src/index/hnsw.rs: `insert`, `delete`, `pick_new_entry` and `compact`.
pub mod Links
pub mod Rows
pub mod Tracked
pub mod Valid
pub mod Inserted
pub mod Compacted
pub mod Picked
pub mod Deleted
pub mod Entries
use gvector.Prelude.{
  true, ℕ, zero, suc, ◌+◌, ◌-◌, min, refl, false, not, Option, none, some, List, [], ◌∷◌, ◌++◌, map,
  ltb, leb, eqb, if◌then◌else◌, length, get_or, set, replicate, filterb, nat_key, string_key,
  lookup, insert, erase,
}
use gvector.Types.{VectorId, Vector, F32}
use gvector.Index.{Result, ok, err, dimension_mismatch, duplicate_id, not_found}
use gvector.Distance.{F32Ops, prepare}
use gvector.Hnsw.{
  HnswIndex, Randomness, new, random_level, vector_at, contains, levels_at, neighbors_at,
  set_neighbors, range_from,
}
use gvector.Hnsw.Layer.{search_layer}
use gvector.Hnsw.Neighbors.{select_neighbors_heuristic, shrink_links}
use gvector.Hnsw.Query.{plain, descend}

-- `(low..=high).rev()`
unfoldable pub count_down_to : ℕ → ℕ → List ℕ
count_down_to low zero = if eqb low 0 then 0 ∷ [] else []
count_down_to low (suc high) = if leb low (suc high) then suc high ∷ count_down_to low high else []

-- The highest of the slots, the last of equals: `max_by_key(|&s| self.links[s].len())`.
unfoldable pub highest : List (List (List ℕ)) → List ℕ → Option ℕ → Option ℕ
highest links [] best = best
highest links (s ∷ slots) best = highest links slots (elim best [
  | none ↦ some s
  | some b ↦
      if leb (length (levels_at links b)) (length (levels_at links s)) then some s else some b
])

module _ {R : Type 0} where
  unfoldable pub pick_new_entry : HnswIndex R → HnswIndex R
  unfolding highest
  pick_new_entry idx = record idx {
    entry =
        highest idx.links
          (filterb (λ s. not (get_or idx.deleted s false)) (range_from 0 (length idx.ids))) none;
  }

  -- The flag and the count of a delete.
  unfoldable pub bury : ℕ → VectorId → HnswIndex R → HnswIndex R
  bury slot id idx = record idx {
    slot_of = erase id idx.slot_of;
    deleted = set idx.deleted slot true;
    deleted_count = idx.deleted_count + 1;
  }

  unfoldable pub replace_entry : ℕ → HnswIndex R → HnswIndex R
  unfolding pick_new_entry
  replace_entry slot idx = elim idx.entry [
    | none ↦ idx
    | some e ↦ if eqb e slot then pick_new_entry idx else idx
  ]

module _ (ops : F32Ops) {R : Type 0} where
  -- One round of `for &nb in &neighbors`: the edges both ways, and the prune.
  unfoldable pub connect : ℕ → ℕ → ℕ → HnswIndex R → HnswIndex R
  connect slot lc nb idx =
      let there = set_neighbors idx.links slot lc (neighbors_at idx.links slot lc ++ (nb ∷ [])) in
      let back = set_neighbors there nb lc (neighbors_at there nb lc ++ (slot ∷ [])) in
      shrink_links ops (record idx { links = back }) nb lc

  unfoldable pub connect_all : ℕ → ℕ → List ℕ → HnswIndex R → HnswIndex R
  unfolding connect
  connect_all slot lc [] idx = idx
  connect_all slot lc (nb ∷ nbs) idx = connect_all slot lc nbs (connect slot lc nb idx)

  -- Phase 2, over the levels from the top of the new node down.
  unfoldable pub link_levels : ℕ → List F32 → List ℕ → List ℕ → HnswIndex R → HnswIndex R
  unfolding connect_all
  link_levels slot query [] eps idx = idx
  link_levels slot query (lc ∷ levels) eps idx =
      let found = (search_layer ops idx (plain query idx.params.ef_construction lc) eps).0 in
      let neighbors = select_neighbors_heuristic ops idx found idx.params.m in
      link_levels slot query levels (map (λ c. c.slot) found) (connect_all slot lc neighbors idx)

  -- The phases of an insert into a graph with an entry point.
  unfoldable pub link_from : ℕ → ℕ → ℕ → HnswIndex R → HnswIndex R
  unfolding link_levels
  link_from slot level entry idx =
      let query = vector_at idx slot in
      let top = length (levels_at idx.links entry) - 1 in
      let ep = descend ops idx query (count_down_to (level + 1) top) entry in
      let linked = link_levels slot query (count_down_to 0 (min level top)) (ep ∷ []) idx in
      if ltb top level then record linked { entry = some slot } else linked

  -- What an insert does once its row is in place.
  unfoldable pub link_node : ℕ → ℕ → HnswIndex R → HnswIndex R
  unfolding link_from
  link_node slot level idx = elim idx.entry [
    | none ↦ record idx { entry = some slot }
    | some entry ↦ link_from slot level entry idx
  ]

  -- The row of an insert: the vector, the id, the tombstone flag.
  unfoldable pub push_row : HnswIndex R → VectorId → Vector → HnswIndex R
  push_row idx id vector = record idx {
    storage = idx.storage ++ prepare ops idx.metric vector;
    ids = idx.ids ++ (id ∷ []);
    slot_of = insert id (length idx.ids) idx.slot_of;
    deleted = idx.deleted ++ (false ∷ []);
  }

  module _ (random : Randomness R) where
    -- `VectorIndex::insert`
    unfoldable pub insert_vector : HnswIndex R → VectorId → Vector → Result (HnswIndex R)
    unfolding push_row link_node
    insert_vector idx id vector =
        let slot = length idx.ids in
        let (level, drawn) = random_level random (push_row idx id vector) in
        let placed = record drawn { links = drawn.links ++ (replicate (level + 1) [] ∷ []) } in
        if not (eqb (length vector) idx.dim)
        then err (dimension_mismatch idx.dim (length vector))
        else if contains idx id
        then err (duplicate_id id)
        else ok (link_node slot level placed)

    -- The loop of `compact`; `none` is an insert that fails, where the code's `expect` panics.
    -- Reads and writes by index are total here and in the insert.
    unfoldable pub compact_loop : HnswIndex R → List ℕ → HnswIndex R → Option (HnswIndex R)
    compact_loop idx [] fresh = some fresh
    compact_loop idx (slot ∷ slots) fresh =
        if get_or idx.deleted slot false
        then compact_loop idx slots fresh
        else elim (insert_vector fresh (get_or idx.ids slot 0) (vector_at idx slot)) [
          | err e ↦ none
          | ok next ↦ compact_loop idx slots next
        ]

    unfoldable pub compact : HnswIndex R → Option (HnswIndex R)
    unfolding compact_loop
    compact idx =
        compact_loop idx (range_from 0 (length idx.ids)) (new random idx.dim idx.metric idx.params)

    -- `VectorIndex::delete`; `none` is an insert of the compaction that fails.
    unfoldable pub delete : HnswIndex R → VectorId → Option (Result (HnswIndex R))
    unfolding compact bury replace_entry
    delete idx id = elim (lookup id idx.slot_of) [
      | none ↦ some (err (not_found id))
      | some slot ↦
          let buried = replace_entry slot (bury slot id idx) in
          let ratio =
            random.div (random.of_usize buried.deleted_count)
              (random.of_usize (length buried.ids)) in
          if random.ge ratio buried.params.tombstone_threshold
          then elim (compact buried) [ none ↦ none | some fresh ↦ some (ok fresh) ]
          else some (ok buried)
    ]
