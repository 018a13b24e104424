-- ===== src/Hnsw.antt =====
-- src/index/hnsw.rs: the state of the graph index and what reads it. A node is a slot, and
-- `links[slot][level]` lists the slots of its neighbours. The random generator of the `rand` crate
-- and the arithmetic of `f64` are parameters.
pub mod Layer
pub mod Neighbors
pub mod Query
pub mod Update
pub mod AsGraph
pub mod Persist
use gvector.Prelude.{
  ℕ, zero, suc, ◌+◌, ◌-◌, ◌*◌, refl, Bool, true, false, Option, none, some, List, [], ◌∷◌, eqb,
  if◌then◌else◌, length, get_or, set, take, drop, nat_key, string_key, lookup,
}
use gvector.Types.{VectorId, F32, F64, SearchResult, Cand}
use gvector.Distance.{F32Ops, Metric, distance}

pub record HnswParams : Type 0 where
  pub m : ℕ
  pub m_max0 : ℕ
  pub ef_construction : ℕ
  pub ef_search : ℕ
  pub seed : ℕ
  pub tombstone_threshold : F64

-- `StdRng` and the operations on `f64` that the index uses.
pub record Randomness (R : Type 0) : Type 0 where
  pub seed_from_u64 : ℕ → R
  -- `gen_range(f64::MIN_POSITIVE..1.0)`
  pub gen_range : R → F64 × R
  pub of_usize : ℕ → F64
  pub one : F64
  pub ln : F64 → F64
  pub neg : F64 → F64
  pub mul : F64 → F64 → F64
  pub div : F64 → F64 → F64
  pub ge : F64 → F64 → Bool
  -- `floor() as usize`
  pub floor_to_usize : F64 → ℕ

pub record HnswIndex (R : Type 0) : Type 0 where
  pub params : HnswParams
  pub metric : Metric
  pub dim : ℕ
  pub ml : F64
  -- `VectorStorage::Owned`: the other variant is never constructed
  pub storage : List F32
  pub ids : List VectorId
  pub slot_of : List (VectorId × ℕ)
  pub links : List (List (List ℕ))
  pub entry : Option ℕ
  pub deleted : List Bool
  pub deleted_count : ℕ
  pub rng : R

-- `links[slot]` and `links[slot][level]`
abbrev pub levels_at : List (List (List ℕ)) → ℕ → List (List ℕ)
levels_at links slot = get_or links slot []

abbrev pub neighbors_at : List (List (List ℕ)) → ℕ → ℕ → List ℕ
neighbors_at links slot level = get_or (levels_at links slot) level []

-- `links[slot][level] = list`
unfoldable pub set_neighbors : List (List (List ℕ)) → ℕ → ℕ → List ℕ → List (List (List ℕ))
set_neighbors links slot level list = set links slot (set (levels_at links slot) level list)

-- `0..n`
unfoldable pub range_from : ℕ → ℕ → List ℕ
range_from start zero = []
range_from start (suc n) = start ∷ range_from (start + 1) n

-- `(1..=n).rev()`
unfoldable pub count_down : ℕ → List ℕ
count_down zero = []
count_down (suc n) = suc n ∷ count_down n

module _ {R : Type 0} (random : Randomness R) where
  open random use {seed_from_u64, gen_range, of_usize, one, ln, neg, mul, div, floor_to_usize}

  -- `HnswIndex::new`
  unfoldable pub new : ℕ → Metric → HnswParams → HnswIndex R
  new dim metric params = record {
    params = params;
    metric = metric;
    dim = dim;
    ml = div one (ln (of_usize params.m));
    storage = [];
    ids = [];
    slot_of = [];
    links = [];
    entry = none;
    deleted = [];
    deleted_count = 0;
    rng = seed_from_u64 params.seed;
  }

  unfoldable pub random_level : HnswIndex R → ℕ × HnswIndex R
  random_level idx =
      let (u, rng) = gen_range idx.rng in
      (floor_to_usize (mul (neg (ln u)) idx.ml), record idx { rng = rng })

module _ {R : Type 0} where
  unfoldable pub vector_at : HnswIndex R → ℕ → List F32
  vector_at idx slot = take idx.dim (drop (slot * idx.dim) idx.storage)

  -- The neighbour limit at a level.
  unfoldable pub max_links : HnswIndex R → ℕ → ℕ
  max_links idx level = if eqb level 0 then idx.params.m_max0 else idx.params.m

  unfoldable pub contains : HnswIndex R → VectorId → Bool
  contains idx id = elim (lookup id idx.slot_of) [ none ↦ false | some slot ↦ true ]

  unfoldable pub vector_of : HnswIndex R → VectorId → Option (List F32)
  vector_of idx id = elim (lookup id idx.slot_of) [
    | none ↦ none
    | some slot ↦ some (vector_at idx slot)
  ]

  -- `ids.iter().enumerate().filter(..)`, from a slot on
  unfoldable pub entries_from : HnswIndex R → ℕ → List VectorId → List (VectorId × List F32)
  entries_from idx slot [] = []
  entries_from idx slot (id ∷ ids) =
      let rest = entries_from idx (slot + 1) ids in
      if get_or idx.deleted slot false then rest else (id, vector_at idx slot) ∷ rest

  unfoldable pub live_entries : HnswIndex R → List (VectorId × List F32)
  unfolding entries_from
  live_entries idx = entries_from idx 0 idx.ids

  unfoldable pub len : HnswIndex R → ℕ
  len idx = length idx.ids - idx.deleted_count

  module _ (ops : F32Ops) where
    unfoldable pub dist_to : HnswIndex R → List F32 → ℕ → F32
    dist_to idx query slot = distance ops idx.metric query (vector_at idx slot)

    -- A slot as a candidate for a query.
    abbrev pub cand_at : HnswIndex R → List F32 → ℕ → Cand
    cand_at idx query slot = record { dist = dist_to idx query slot; slot = slot }

    -- `SearchResult::new(self.ids[c.slot], c.dist)`
    abbrev pub result_at : HnswIndex R → Cand → SearchResult
    result_at idx c = record { id = get_or idx.ids c.slot 0; distance = c.dist }
