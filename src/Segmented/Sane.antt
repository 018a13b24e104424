-- ===== src/Segmented/Sane.antt =====
-- src/index/segmented.rs: what every index that inserts, deletes and builds have made keeps.
-- A living copy of an id is its newest.
pub mod Insert
pub mod Delete
pub mod Build
use gvector.Prelude.{◌≡◌, refl, ◌⊎◌, inl, inr, false, not, ◌&&◌, [], ◌∷◌, ◌++◌, map, arith, All}
use Prim.{tt}
use gvector.Types.{VectorId}
use gvector.Distance.{F32Ops}
use gvector.BruteForce.{BruteForceIndex, contains}
use gvector.BruteForce.Invariant.{IsValid}
use gvector.Segmented.{Graph, SegmentedIndex, contains_live}
use gvector.Segmented.Live.{
  mark, marks, buffer_mark, IsUnshadowed, IsUnshadowed-append, append-IsUnshadowed, alive_any-map,
}
use gvector.Segmented.Background.Retain.{IsTicketed}
use gvector.Segmented.Below.{Below-refl, Below-append, Below-IsUnshadowed}

module _ {G : Type 0} (ops : F32Ops) (graph : Graph G) where
  -- A sane index: valid rows of the index's dimension, distinct tickets in the queue, and no id whose
  -- living copy is followed by a later copy.
  pub record IsSane (idx : SegmentedIndex G) : Type 0 where
    pub buffer_valid : IsValid idx.buffer
    pub buffer_dim : idx.buffer.dim ≡ idx.dim
    pub sealing_valid : All (λ p. IsValid p.data_of × (p.data_of.dim ≡ idx.dim)) idx.sealing
    pub tickets : IsTicketed idx.next_ticket idx.sealing
    pub unshadowed : (id : VectorId) → IsUnshadowed (marks graph idx id)

  -- A new buffer, whose ids are the old ones or alive nowhere else.
  pub buffer-IsUnshadowed :
      (idx : SegmentedIndex G) (key : VectorId) (buffer : BruteForceIndex)
      → IsUnshadowed (marks graph idx key)
      → ((contains buffer key && not (contains idx.buffer key)) ≡ false)
        ⊎ (contains_live ops graph idx key ≡ false)
      → IsUnshadowed (marks graph (record idx { buffer = buffer }) key)
  unfolding contains_live
  buffer-IsUnshadowed idx key buffer u h =
      let segs = map (mark graph.has_node key) idx.segments in
      let seals = map (mark contains key) idx.sealing in
      let old = buffer_mark idx.buffer key ∷ [] in
      let new = buffer_mark buffer key ∷ [] in
      elim h [
        | inl less ↦
            Below-IsUnshadowed (segs ++ (seals ++ new)) (segs ++ (seals ++ old))
              (Below-append segs segs (seals ++ new) (seals ++ old) (Below-refl segs)
                (Below-append seals seals new old (Below-refl seals) (less, less, tt)))
              u
        | inr dead ↦
            let (us, ub) = IsUnshadowed-append segs (seals ++ old) u in
            let (ul, un) = IsUnshadowed-append seals old ub in
            let dead_segs = alive_any-map graph.has_node key idx.segments in
            let dead_seals = alive_any-map contains key idx.sealing in
            append-IsUnshadowed segs (seals ++ new) us
              (append-IsUnshadowed seals new ul (ground arith, tt)
                (ground (arith, dead, dead_seals)))
              (ground (arith, dead, dead_segs))
      ]
