-- ===== src/BruteForce.antt =====
-- src/index/bruteforce.rs: the linear-scan index. A slice `data[a..b]` is `slice a b data`; the
-- invariant of BruteForce/Invariant.antt keeps every slice that the code takes within the block.
pub mod Rows
pub mod Slots
pub mod Invariant
pub mod Lookup
pub mod Search
pub mod Nearest
pub mod Named
pub mod Contains
use gvector.Prelude.{
  ℕ, zero, suc, ◌+◌, ◌-◌, ◌*◌, ◌/◌, min, max, ◌≡◌, refl, Bool, true, false, not, ◌||◌, Option, none,
  some, List, [], ◌∷◌, ◌++◌, map, ltb, eqb, if◌then◌else◌, length, get_or, set, take, drop, nat_key,
  string_key, lookup, insert, erase,
}
use mathlib.Core.List.{reverse}
use mathlib.Core.Option
use gvector.Types.{VectorId, F32, Vector, SearchResult}
use gvector.Types.Order.{result_ord}
use gvector.Index.{dimension_mismatch, duplicate_id, not_found, Result, ok, err}
use gvector.Distance.{F32Ops, Metric, distance, prepare}
use gvector.Order.Sort.{sort}
use gvector.Order.TopK.{offer, offer_all, drain}

pub record BruteForceIndex : Type 0 where
  pub metric : Metric
  pub dim : ℕ
  -- the vectors, row after row
  pub data_block : List F32
  -- slot to id
  pub ids : List VectorId
  -- id to slot
  pub slot_of : List (VectorId × ℕ)

-- `new`, and `with_capacity`, whose capacities show nowhere in the contents
unfoldable pub new : ℕ → Metric → BruteForceIndex
new dim metric = record { metric = metric; dim = dim; data_block = []; ids = []; slot_of = [] }

-- How rayon may combine the chunks' heaps: in order, in any bracketing, with empty heaps between.
pub data Reduction : Type 0 where
  identity : Reduction
  leaf : List SearchResult → Reduction
  both : Reduction → Reduction → Reduction

abbrev pub leaves : Reduction → List (List SearchResult)
leaves identity = []
leaves (leaf h) = h ∷ []
leaves (both a b) = leaves a ++ leaves b

-- The thread pool: how many threads it has, and how it brackets a reduction.
pub record Rayon : Type 0 where
  pub threads : ℕ
  pub shape : List (List SearchResult) → Reduction
  pub leaves-shape : (hs : List (List SearchResult)) → leaves (shape hs) ≡ hs

abbrev slice : ℕ → ℕ → List F32 → List F32
slice a b block = take (b - a) (drop a block)

unfoldable pub vector_at : BruteForceIndex → ℕ → List F32
vector_at idx slot = slice (slot * idx.dim) ((slot + 1) * idx.dim) idx.data_block

pub is_some {ℓ} : {A : Type ℓ} → Option A → Bool
is_some none = false
is_some (some a) = true

unfoldable pub contains : BruteForceIndex → VectorId → Bool
unfolding is_some
contains idx id = is_some (lookup id idx.slot_of)

unfoldable pub vector_of : BruteForceIndex → VectorId → Option (List F32)
vector_of idx id = Option.map (vector_at idx) (lookup id idx.slot_of)

unfoldable pub len : BruteForceIndex → ℕ
len idx = length idx.ids

-- `(slot, &id) -> (id, vector_at(slot))`, from a slot on
entries_from : BruteForceIndex → ℕ → List VectorId → List (VectorId × List F32)
entries_from idx slot [] = []
entries_from idx slot (id ∷ ids) = (id, vector_at idx slot) ∷ entries_from idx (slot + 1) ids

unfoldable pub entries : BruteForceIndex → List (VectorId × List F32)
unfolding entries_from
entries idx = entries_from idx 0 idx.ids

module _ (ops : F32Ops) where
  -- `VectorIndex::insert`
  unfoldable pub insert_vector : BruteForceIndex → VectorId → Vector → Result BruteForceIndex
  unfolding contains
  insert_vector idx id vector =
      if not (eqb (length vector) idx.dim)
      then err (dimension_mismatch idx.dim (length vector))
      else if contains idx id
      then err (duplicate_id id)
      else ok (record idx {
        data_block = idx.data_block ++ prepare ops idx.metric vector;
        ids = idx.ids ++ (id ∷ []);
        slot_of = insert id (length idx.ids) idx.slot_of;
      })

  -- The candidate at a slot.
  candidate : BruteForceIndex → List F32 → ℕ → SearchResult
  candidate idx query slot = record {
    id = get_or idx.ids slot 0;
    distance = distance ops idx.metric query (vector_at idx slot);
  }

  -- The scan of `n` slots from `start`.
  scan_loop : BruteForceIndex → List F32 → ℕ → ℕ → ℕ → List SearchResult → List SearchResult
  scan_loop idx query k zero slot heap = heap
  scan_loop idx query k (suc n) slot heap =
      scan_loop idx query k n (slot + 1) (offer k (candidate idx query slot) heap)

  -- `scan_range(query, k, start..end)`
  pub scan_range : BruteForceIndex → List F32 → ℕ → ℕ → ℕ → List SearchResult
  unfolding scan_loop candidate
  scan_range idx query k start end = scan_loop idx query k (end - start) start []

  -- `(0..n).into_par_iter().step_by(chunk)`: each chunk's heap, by fuel.
  chunk_heaps : BruteForceIndex → List F32 → ℕ → ℕ → ℕ → ℕ → ℕ → List (List SearchResult)
  chunk_heaps idx query k chunk n zero start = []
  chunk_heaps idx query k chunk n (suc fuel) start =
      if ltb start n
      then scan_range idx query k start (min (start + chunk) n)
        ∷ chunk_heaps idx query k chunk n fuel (start + chunk)
      else []

  -- `reduce(BinaryHeap::new, ..)` along the pool's tree
  reduce_heaps : ℕ → Reduction → List SearchResult
  reduce_heaps k identity = []
  reduce_heaps k (leaf heap) = heap
  reduce_heaps k (both a b) = offer_all k (reduce_heaps k b) (reduce_heaps k a)

  abbrev parallel_threshold : ℕ
  parallel_threshold = 20_000

  -- `VectorIndex::search`
  unfoldable pub search : Rayon → BruteForceIndex → List F32 → ℕ → List SearchResult
  unfolding scan_range chunk_heaps reduce_heaps
  search pool idx query k =
      let n = length idx.ids in
      let q = prepare ops idx.metric query in
      let workers = max pool.threads 1 in
      let chunk = (n + workers - 1) / workers in
      if eqb k 0 || eqb n 0
      then []
      else reverse (
          drain (
            if ltb n parallel_threshold
            then scan_range idx q k 0 n
            else reduce_heaps k (pool.shape (chunk_heaps idx q k chunk n n 0))))

  filtered_candidates :
      BruteForceIndex → List F32 → (VectorId → Bool) → ℕ → List VectorId → List SearchResult
  filtered_candidates idx query allow slot [] = []
  filtered_candidates idx query allow slot (id ∷ ids) =
      let rest = filtered_candidates idx query allow (slot + 1) ids in
      if allow id
      then record { id = id; distance = distance ops idx.metric query (vector_at idx slot) } ∷ rest
      else rest

  -- `search_filtered`
  unfoldable pub search_filtered :
      BruteForceIndex → List F32 → ℕ → (VectorId → Bool) → List SearchResult
  unfolding filtered_candidates
  search_filtered idx query k allow =
      let q = prepare ops idx.metric query in
      if eqb k 0 then [] else take k (sort (filtered_candidates idx q allow 0 idx.ids))

-- `VectorIndex::delete`: the last row moves into the freed slot.
unfoldable pub delete : BruteForceIndex → VectorId → Result BruteForceIndex
delete idx id = elim (lookup id idx.slot_of) [
  | none ↦ err (not_found id)
  | some slot ↦
      let last = length idx.ids - 1 in
      let dim = idx.dim in
      let removed = erase id idx.slot_of in
      let moved_id = get_or idx.ids last 0 in
      let moved =
        take (slot * dim) idx.data_block
        ++ (take dim (drop (last * dim) idx.data_block)
            ++ drop ((slot + 1) * dim) idx.data_block) in
      if not (eqb slot last)
      then ok (record idx {
        data_block = take (last * dim) moved;
        ids = take last (set idx.ids slot moved_id);
        slot_of = insert moved_id slot removed;
      })
      else ok (record idx {
        data_block = take (last * dim) idx.data_block;
        ids = take last idx.ids;
        slot_of = removed;
      })
]
