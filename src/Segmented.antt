-- ===== src/Segmented.antt =====
-- src/index/segmented.rs: the sources of the segmented index, and the operations that move vectors
-- between them. A vector is in the write buffer, in a buffer that is being sealed or in a segment.
-- What runs in the background is cut into the steps that a lock makes atomic.
pub mod Live
pub mod Postings
pub mod Search
pub mod Insert
pub mod Bury
pub mod Delete
pub mod Background
pub mod Below
pub mod Sane
pub mod Spec
pub mod Refines
use gvector.Prelude.{
  ℕ, zero, suc, ◌+◌, refl, Bool, true, false, not, ◌&&◌, ◌||◌, Option, none, some, List, [], ◌∷◌,
  ◌++◌, leb, eqb, if◌then◌else◌, length, anyb, nat_key, string_key,
}
use gvector.Types.{VectorId, Vector, F32, SearchResult}
use gvector.Index.{Result, ok, err, IndexError, dimension_mismatch, duplicate_id, not_found}
use gvector.Distance.{F32Ops, Metric}
use gvector.BruteForce.{BruteForceIndex, insert_vector, contains, len, delete as delete_row}
use gvector.BruteForce as BruteForce

-- What the segments use of `HnswIndex` (src/index/hnsw.rs).
pub record Graph (G : Type 0) : Type 0 where
  pub create : ℕ → Metric → ℕ → G
  pub dim_of : G → ℕ
  pub insert_node : G → VectorId → Vector → Result G
  pub has_node : G → VectorId → Bool
  pub live_entries : G → List (VectorId × Vector)
  pub node_count : G → ℕ
  pub search_with_ef : G → List F32 → ℕ → ℕ → List SearchResult

abbrev pub has_id : VectorId → List VectorId → Bool
has_id id ids = anyb (eqb id) ids

-- `Sealing` and `Segment`: data that no insert reaches any more, with the tombstones of its own.
-- The ticket stands for the address of the `Arc`.
pub record Part (D : Type 0) : Type 0 where
  pub ticket : ℕ
  pub data_of : D
  pub tombstones : List VectorId

pub record SegmentedIndex (G : Type 0) : Type 0 where
  pub dim : ℕ
  pub metric : Metric
  pub seed : ℕ
  pub seal_threshold : ℕ
  pub segments : List (Part G)
  pub sealing : List (Part BruteForceIndex)
  pub buffer : BruteForceIndex
  pub next_ticket : ℕ

module _ {D : Type 0} (has : D → VectorId → Bool) where
  abbrev pub is_buried : VectorId → Part D → Bool
  is_buried id part = has_id id part.tombstones

  abbrev pub is_live : VectorId → Part D → Bool
  is_live id part = has part.data_of id && not (is_buried id part)

  -- `tombs.insert(id)`: a `HashSet` holds an id once.
  abbrev pub bury : VectorId → Part D → Part D
  bury id part = record part { tombstones = id ∷ part.tombstones }

  -- The part at the front is the newest that may hold the id.
  bury_here : VectorId → Part D → List (Part D) → Option (Bool × List (Part D))
  bury_here id part parts =
      if has part.data_of id
      then if is_buried id part
        then some (false, part ∷ parts)
        else some (true, bury id part ∷ parts)
      else none

  -- The search for the newest part with the id, from the back of the list: whether the id was live
  -- there, and the list with its tombstone.
  unfoldable pub bury_newest : VectorId → List (Part D) → Option (Bool × List (Part D))
  unfolding bury_here
  bury_newest id [] = none
  bury_newest id (part ∷ parts) = elim (bury_newest id parts) [
    | some (was_live, parts') ↦ some (was_live, part ∷ parts')
    | none ↦ bury_here id part parts
  ]

module _ {G : Type 0} (ops : F32Ops) (graph : Graph G) where
  -- `sealing_contains_live`
  abbrev pub sealing_contains_live : SegmentedIndex G → VectorId → Bool
  sealing_contains_live idx id = anyb (is_live contains id) idx.sealing

  abbrev pub segments_contain_live : SegmentedIndex G → VectorId → Bool
  segments_contain_live idx id = anyb (is_live graph.has_node id) idx.segments

  unfoldable pub contains_live : SegmentedIndex G → VectorId → Bool
  contains_live idx id =
      contains idx.buffer id || (sealing_contains_live idx id || segments_contain_live idx id)

  unfoldable pub validate_insert : SegmentedIndex G → VectorId → Vector → Option IndexError
  validate_insert idx id vector =
      if not (eqb (length vector) idx.dim)
      then some (dimension_mismatch idx.dim (length vector))
      else if contains idx.buffer id
      then some (duplicate_id id)
      else if sealing_contains_live idx id
      then some (duplicate_id id)
      else if segments_contain_live idx id
      then some (duplicate_id id)
      else none

  -- A fresh buffer takes the place of the full one, which joins the list of those being sealed.
  pub queued : SegmentedIndex G → SegmentedIndex G
  queued idx = record idx {
    buffer = BruteForce.new idx.dim idx.metric;
    sealing =
        idx.sealing
        ++ (record { ticket = idx.next_ticket; data_of = idx.buffer; tombstones = [] } ∷ []);
    next_ticket = idx.next_ticket + 1;
  }

  unfoldable pub seal : SegmentedIndex G → SegmentedIndex G
  unfolding queued
  seal idx = if eqb (len idx.buffer) 0 then idx else queued idx

  buffered : SegmentedIndex G → Result BruteForceIndex → Result (SegmentedIndex G)
  unfolding seal
  buffered idx (err e) = err e
  buffered idx (ok buffer) =
      let idx' = record idx { buffer = buffer } in
      ok (if leb idx.seal_threshold (len buffer) then seal idx' else idx')

  -- `apply_insert`, for the vectors
  unfoldable pub apply_insert : SegmentedIndex G → VectorId → Vector → Result (SegmentedIndex G)
  unfolding buffered
  apply_insert idx id vector = buffered idx (insert_vector ops idx.buffer id vector)

  -- `insert_shared` of an index without a log, for a vector without metadata
  unfoldable pub insert_shared : SegmentedIndex G → VectorId → Vector → Result (SegmentedIndex G)
  unfolding apply_insert validate_insert
  insert_shared idx id vector = elim (validate_insert idx id vector) [
    | some e ↦ err e
    | none ↦ apply_insert idx id vector
  ]

  delete_segment : SegmentedIndex G → VectorId → Result (SegmentedIndex G)
  unfolding bury_newest
  delete_segment idx id = elim (bury_newest graph.has_node id idx.segments) [
    | none ↦ err (not_found id)
    | some (was_live, segments') ↦
        if was_live then ok (record idx { segments = segments' }) else err (not_found id)
  ]

  delete_sealing : SegmentedIndex G → VectorId → Result (SegmentedIndex G)
  unfolding bury_newest delete_segment
  delete_sealing idx id = elim (bury_newest contains id idx.sealing) [
    | none ↦ delete_segment idx id
    | some (was_live, sealing') ↦
        if was_live then ok (record idx { sealing = sealing' }) else err (not_found id)
  ]

  delete_buffered : SegmentedIndex G → VectorId → Result BruteForceIndex → Result (SegmentedIndex G)
  unfolding delete_sealing
  delete_buffered idx id (ok buffer) = ok (record idx { buffer = buffer })
  delete_buffered idx id (err (not_found other)) = delete_sealing idx id
  delete_buffered idx id (err e) = err e

  unfoldable pub delete_vector_only : SegmentedIndex G → VectorId → Result (SegmentedIndex G)
  unfolding delete_buffered
  delete_vector_only idx id = delete_buffered idx id (delete_row idx.buffer id)

  -- `delete_shared` of an index without a log, for an id without metadata
  unfoldable pub delete_shared : SegmentedIndex G → VectorId → Result (SegmentedIndex G)
  unfolding delete_vector_only contains_live
  delete_shared idx id =
      if not (contains_live idx id) then err (not_found id) else delete_vector_only idx id

  -- `for (id, v) in .. { hnsw.insert(id, v).expect(..) }`; a failed insert is a panic.
  unfoldable pub insert_all : List (VectorId × Vector) → G → Result G
  insert_all [] g = ok g
  insert_all ((id, v) ∷ es) g = elim (graph.insert_node g id v) [
    | ok g' ↦ insert_all es g'
    | err e ↦ err e
  ]
