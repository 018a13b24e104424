-- ===== src/Hnsw/Persist.antt =====
-- src/index/hnsw.rs, the file of a graph index: `to_bytes`, `parse`, `rebuild`, `load_from_bytes`.
pub mod Rebuild
pub mod Checks
pub mod Loads
pub mod Accepts
pub mod Parts
pub mod RoundTrip
use gvector.Prelude.{
  ℕ, zero, suc, ◌+◌, ◌-◌, ◌*◌, ◌/◌, ◌%◌, ◌^◌, max, ◌≡◌, refl, ◌⊎◌, inl, inr, Bool, true, false, not,
  ◌&&◌, ◌||◌, Option, none, some, List, [], ◌∷◌, ◌++◌, ltb, leb, eqb, if◌then◌else◌, length, get_or,
  take, drop, replicate, anyb, nat_key, string_key, lookup, insert,
}
use Prim.Native.Nat.{bit_xor}
use gvector.Types.{VectorId, F32}
use gvector.Bytes.{to_le_bytes, from_le_bytes}
use gvector.Distance.{Metric}
use gvector.Storage.Codec.{Codec}
use gvector.Hnsw.{HnswIndex, HnswParams, Randomness}

pub data Reason : Type 0 where
  too_short : Reason
  magic_mismatch : Reason
  crc_mismatch : Reason
  meta_len_overflows : Reason
  meta_len_exceeds : Reason
  size_overflows : Reason
  wrong_size : Reason
  implausible_dim : Reason
  wrong_count : Reason
  no_levels : Reason
  neighbor_out_of_bounds : Reason
  wrong_deleted : Reason
  entry_out_of_bounds : Reason
  no_entry : Reason
  duplicate_live : Reason

-- Reading the file is not part of the model, so there is no `Io`.
pub data PersistError : Type 0 where
  corrupt : Reason → PersistError
  unsupported_version : ℕ → PersistError
  encode : PersistError

pub data PersistResult (A : Type 0) : Type 0 where
  done : A → PersistResult A
  failed : PersistError → PersistResult A

infixl 5 ◌>>=◌ ◌>>◌
abbrev pub ◌>>=◌ : {A B : Type 0} → PersistResult A → (A → PersistResult B) → PersistResult B
done a >>= f = f a
failed e >>= f = failed e

abbrev pub ◌>>◌ : {B : Type 0} → PersistResult (Unit {0}) → PersistResult B → PersistResult B
m >> k = m >>= λ _. k

abbrev pub refuse_if : Bool → PersistError → PersistResult (Unit {0})
refuse_if true e = failed e
refuse_if false e = done tt

pub Result-cases :
    {A : Type 0} (r : PersistResult A)
    → ((a : A) × (r ≡ done a)) ⊎ ((e : PersistError) × (r ≡ failed e))
Result-cases (done a) = inl (a, refl)
Result-cases (failed e) = inr (e, refl)

pub record Meta : Type 0 where
  pub params : HnswParams
  pub metric : Metric
  pub dim : ℕ
  pub n : ℕ
  pub ids : List VectorId
  pub links : List (List (List ℕ))
  pub entry : Option ℕ
  pub deleted : List Bool

-- `GVDB`
abbrev pub magic : List ℕ
magic = 71 ∷ 86 ∷ 68 ∷ 66 ∷ []

abbrev pub format_version : ℕ
format_version = 1

unfoldable pub eq_bytes : List ℕ → List ℕ → Bool
eq_bytes [] [] = true
eq_bytes [] (b ∷ bs) = false
eq_bytes (a ∷ xs) [] = false
eq_bytes (a ∷ xs) (b ∷ bs) = eqb a b && eq_bytes xs bs

-- `cast_slice::<f32, u8>`
unfoldable pub cast_slice : List F32 → List ℕ
cast_slice [] = []
cast_slice (x ∷ xs) = to_le_bytes 4 x ++ cast_slice xs

-- `chunks_exact(4)` and `f32::from_le_bytes`, for `n` chunks
unfoldable pub read_floats : ℕ → List ℕ → List F32
read_floats zero bytes = []
read_floats (suc n) bytes = from_le_bytes (take 4 bytes) ∷ read_floats n (drop 4 bytes)

-- The zeros that `while !buf.len().is_multiple_of(4)` pushes.
abbrev pub padding : ℕ → List ℕ
padding len = replicate ((4 - len % 4) % 4) 0

-- `div_ceil(4) * 4`
abbrev pub data_off : ℕ → ℕ
data_off meta_end = (meta_end + 3) / 4 * 4

unfoldable pub count_deleted : List Bool → ℕ
count_deleted [] = 0
count_deleted (true ∷ ds) = suc (count_deleted ds)
count_deleted (false ∷ ds) = count_deleted ds

-- The checks of the neighbours of a node.
unfoldable pub check_links : ℕ → List (List (List ℕ)) → PersistResult (Unit {0})
check_links n [] = done tt
check_links n ([] ∷ links) = failed (corrupt no_levels)
check_links n ((level ∷ levels) ∷ links) =
    if anyb (λ list. anyb (λ s. leb n s) list) (level ∷ levels)
    then failed (corrupt neighbor_out_of_bounds)
    else check_links n links

unfoldable pub check_entry : ℕ → ℕ → Option ℕ → PersistResult (Unit {0})
check_entry n deleted_count (some e) =
    if ltb e n then done tt else failed (corrupt entry_out_of_bounds)
check_entry n deleted_count none =
    if eqb deleted_count n then done tt else failed (corrupt no_entry)

-- The id map of the slots that are alive, from a slot on.
unfoldable pub map_live :
    List Bool → ℕ → List VectorId → List (VectorId × ℕ) → PersistResult (List (VectorId × ℕ))
map_live deleted slot [] slot_of = done slot_of
map_live deleted slot (id ∷ ids) slot_of =
    let skipped = map_live deleted (slot + 1) ids slot_of in
    let mapped = map_live deleted (slot + 1) ids (insert id slot slot_of) in
    if get_or deleted slot false
    then skipped
    else elim (lookup id slot_of) [ none ↦ mapped | some s ↦ failed (corrupt duplicate_live) ]

module _ {R : Type 0} (c : Codec Meta) (random : Randomness R) where
  abbrev pub meta_of : HnswIndex R → Meta
  meta_of idx = record {
    params = idx.params;
    metric = idx.metric;
    dim = idx.dim;
    n = length idx.ids;
    ids = idx.ids;
    links = idx.links;
    entry = idx.entry;
    deleted = idx.deleted;
  }

  -- What stands before the padding and the floats.
  abbrev pub head_bytes : List ℕ → List ℕ
  head_bytes meta_bytes =
      magic ++ (to_le_bytes 4 format_version ++ (to_le_bytes 8 (length meta_bytes) ++ meta_bytes))

  abbrev pub body_bytes : List ℕ → List F32 → List ℕ
  body_bytes meta_bytes storage =
      head_bytes meta_bytes ++ (padding (length (head_bytes meta_bytes)) ++ cast_slice storage)

  unfoldable pub to_bytes : HnswIndex R → PersistResult (List ℕ)
  unfolding cast_slice
  to_bytes idx = elim (c.serialize (meta_of idx)) [
    | none ↦ failed encode
    | some meta_bytes ↦
        let buf = body_bytes meta_bytes idx.storage in done (buf ++ to_le_bytes 4 (c.crc32 buf))
  ]

  unfoldable pub decoded : Option Meta → PersistResult Meta
  decoded none = failed encode
  decoded (some meta) = done meta

  -- The metadata and where the floats begin and how many bytes they take.
  unfoldable pub parse : List ℕ → PersistResult (Meta × ℕ × ℕ)
  unfolding eq_bytes decoded
  parse bytes =
      let version = from_le_bytes (take 4 (drop 4 bytes)) in
      let body = take (length bytes - 4) bytes in
      let stored_crc = from_le_bytes (drop (length bytes - 4) bytes) in
      let meta_len = from_le_bytes (take 8 (drop 8 bytes)) in
      let meta_end = 16 + meta_len in
      do
        refuse_if (ltb (length bytes) 20) (corrupt too_short)
        refuse_if (not (eq_bytes (take 4 bytes) magic)) (corrupt magic_mismatch)
        refuse_if (not (eqb version format_version)) (unsupported_version version)
        refuse_if (not (eqb (c.crc32 body) stored_crc)) (corrupt crc_mismatch)
        refuse_if (leb (2 ^ 64) meta_end) (corrupt meta_len_overflows)
        refuse_if (ltb (length body) meta_end) (corrupt meta_len_exceeds)
        meta ← decoded (c.deserialize (take meta_len (drop 16 bytes)))
        let expected = meta.n * meta.dim * 4
        refuse_if (leb (2 ^ 64) (meta.n * meta.dim) || leb (2 ^ 64) expected)
            (corrupt size_overflows)
        refuse_if
            (ltb (length body) (data_off meta_end)
              || not (eqb (length body - data_off meta_end) expected))
            (corrupt wrong_size)
        done (meta, data_off meta_end, expected)

  -- The index of checked metadata.
  abbrev pub loaded : Meta → List F32 → List (VectorId × ℕ) → HnswIndex R
  loaded meta storage slot_of = record {
    params = meta.params;
    metric = meta.metric;
    dim = meta.dim;
    ml = random.div random.one (random.ln (random.of_usize (max meta.params.m 2)));
    storage = storage;
    ids = meta.ids;
    slot_of = slot_of;
    links = meta.links;
    entry = meta.entry;
    deleted = meta.deleted;
    deleted_count = count_deleted meta.deleted;
    rng = random.seed_from_u64 (bit_xor meta.params.seed meta.n);
  }

  unfoldable pub rebuild : Meta → List F32 → PersistResult (HnswIndex R)
  unfolding check_links check_entry map_live count_deleted
  rebuild meta storage =
      let deleted_count = count_deleted meta.deleted in
      do
        refuse_if (eqb meta.dim 0 || ltb (2 ^ 20) meta.dim) (corrupt implausible_dim)
        refuse_if (not (eqb (length meta.ids) meta.n) || not (eqb (length meta.links) meta.n))
            (corrupt wrong_count)
        _ ← check_links meta.n meta.links
        refuse_if (not (eqb (length meta.deleted) meta.n)) (corrupt wrong_deleted)
        _ ← check_entry meta.n deleted_count meta.entry
        slot_of ← map_live meta.deleted 0 meta.ids []
        done (loaded meta storage slot_of)

  unfoldable pub load_from_bytes : List ℕ → PersistResult (HnswIndex R)
  unfolding parse rebuild read_floats
  load_from_bytes bytes = do
    found ← parse bytes
    rebuild found.0 (read_floats (found.2 / 4) (take found.2 (drop found.1 bytes)))
