-- ===== src/Segmented/Background.antt =====
-- src/index/segmented.rs: what the background threads do. A build or a merge reads data that no
-- longer changes, so its long part is one function of what it started from; what it then does
-- under the write locks is one step.
pub mod Retain
pub mod Build
pub mod Kept
pub mod Merge
use gvector.Prelude.{
  ℕ, zero, suc, ◌+◌, ◌-◌, ◌%◌, ◌^◌, refl, not, ◌||◌, Option, none, some, List, [], ◌∷◌, ◌++◌, leb,
  eqb, if◌then◌else◌, length, filterb, nat_key, string_key,
}
use gvector.Types.{VectorId, Vector}
use gvector.Index.{Result, ok, err}
use gvector.Distance.{F32Ops}
use gvector.BruteForce.{BruteForceIndex, len, entries}
use gvector.Segmented.{Graph, Part, SegmentedIndex, has_id, insert_all}

-- `retain(|s| !Arc::ptr_eq(s, ..))`
unfoldable pub retain_others : {D : Type 0} → ℕ → List (Part D) → List (Part D)
retain_others ticket parts = filterb (λ p. not (eqb p.ticket ticket)) parts

-- Whether a part is still in the list, and as it is now
unfoldable pub find_part : {D : Type 0} → ℕ → List (Part D) → Option (Part D)
find_part ticket [] = none
find_part ticket (p ∷ ps) = if eqb p.ticket ticket then some p else find_part ticket ps

-- `difference`, and the insertion of its members into a set
unfoldable pub extend_difference : List VectorId → List VectorId → List VectorId → List VectorId
extend_difference carried [] snap = carried
extend_difference carried (id ∷ now) snap =
    let rest = extend_difference carried now snap in
    if has_id id snap || has_id id rest then rest else id ∷ rest

-- The victims of a merge as they were when it began, tombstones included.
pub record MergeTask (G : Type 0) : Type 0 where
  pub first : Part G
  pub second : Part G

module _ {G : Type 0} (ops : F32Ops) (graph : Graph G) where
  build_done : SegmentedIndex G → Part BruteForceIndex → Result G → Result (SegmentedIndex G)
  unfolding retain_others
  build_done idx next (err e) = err e
  build_done idx next (ok hnsw) = ok (record idx {
    segments =
        idx.segments
        ++ (record { ticket = idx.next_ticket; data_of = hnsw; tombstones = next.tombstones } ∷ []);
    sealing = retain_others next.ticket idx.sealing;
    next_ticket = idx.next_ticket + 1;
  })

  build_queue : SegmentedIndex G → List (Part BruteForceIndex) → Result (SegmentedIndex G)
  unfolding build_done
  build_queue idx [] = ok idx
  build_queue idx (next ∷ rest) = build_done idx next (
      insert_all ops graph (entries next.data_of)
        (graph.create idx.dim idx.metric ((idx.seed + len next.data_of) % 2 ^ 64)))

  -- One round of the sealing worker: `build_one` of the first buffer in the queue, up to its start of a
  -- merge, which is a step of its own. An error is the panic of its `expect`.
  unfoldable pub build_first : SegmentedIndex G → Result (SegmentedIndex G)
  unfolding build_queue
  build_first idx = build_queue idx idx.sealing

  abbrev pub live_size : Part G → ℕ
  live_size part = graph.node_count part.data_of - length part.tombstones

  -- `order.sort_by_key(|&i| live(&segs[i]))`, a stable sort
  insert_by_size : Part G → List (Part G) → List (Part G)
  insert_by_size part [] = part ∷ []
  insert_by_size part (p ∷ ps) =
      if leb (live_size part) (live_size p) then part ∷ (p ∷ ps) else p ∷ insert_by_size part ps

  sort_by_size : List (Part G) → List (Part G)
  unfolding insert_by_size
  sort_by_size [] = []
  sort_by_size (p ∷ ps) = insert_by_size p (sort_by_size ps)

  -- The first part of `merge_smallest_pair_bg`
  unfoldable pub merge_begin : SegmentedIndex G → Option (MergeTask G)
  unfolding sort_by_size
  merge_begin idx = elim (sort_by_size idx.segments) [
    | [] ↦ none
    | a ∷ rest ↦ elim rest [ [] ↦ none | b ∷ others ↦ some (record { first = a; second = b }) ]
  ]

  -- The records of a victim that its snapshot does not bury
  unfoldable pub carried_entries : Part G → List (VectorId × Vector)
  carried_entries part =
      filterb (λ e. not (has_id e.0 part.tombstones)) (graph.live_entries part.data_of)

  -- The second part: the rebuild
  unfoldable pub merge_build : SegmentedIndex G → MergeTask G → Result G
  unfolding carried_entries
  merge_build idx task =
      let total = graph.node_count task.first.data_of + graph.node_count task.second.data_of in
      insert_all ops graph (carried_entries task.first ++ carried_entries task.second)
        (graph.create idx.dim idx.metric ((idx.seed + total + 1) % 2 ^ 64))

  -- The third part: the swap, with the tombstones that landed meanwhile.
  unfoldable pub merge_finish : SegmentedIndex G → MergeTask G → G → SegmentedIndex G
  unfolding find_part retain_others extend_difference
  merge_finish idx task merged = elim (find_part task.first.ticket idx.segments) [
    | none ↦ idx
    | some a ↦ elim (find_part task.second.ticket idx.segments) [
      | none ↦ idx
      | some b ↦
          let carried =
            extend_difference (extend_difference [] a.tombstones task.first.tombstones) b.tombstones
              task.second.tombstones in
          record idx {
            segments =
                retain_others task.second.ticket (retain_others task.first.ticket idx.segments)
                ++ (record { ticket = idx.next_ticket; data_of = merged; tombstones = carried }
                    ∷ []);
            next_ticket = idx.next_ticket + 1;
          }
    ]
  ]
