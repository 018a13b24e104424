-- ===== src/Storage/Manifest.antt =====
-- src/storage/mod.rs: the manifest, the files that it names, and the collection of the others.
pub mod Collection
use gvector.Prelude.{
  ℕ, ◌+◌, refl, Bool, true, false, not, ◌&&◌, ◌||◌, Option, none, some, List, [], ◌∷◌, ◌++◌, map,
  eqb, if◌then◌else◌, anyb, ◌==◌, nat_key, string_key,
}
use Prim.Native.String.{String}
use Prim.Native.Char.{code}
use gvector.Distance.{Metric}
use gvector.Storage.{StorageResult, done, failed, io}

pub record SegmentRef : Type 0 where
  pub file : String
  pub crc32 : ℕ
  pub records : ℕ
  pub tombstones : List ℕ

-- `HnswParams` (src/index/hnsw.rs) is the parameter of the type.
pub record Manifest (HnswParams : Type 0) : Type 0 where
  pub generation : ℕ
  pub dim : ℕ
  pub metric : Metric
  pub hnsw_params : HnswParams
  pub seal_threshold : ℕ
  pub max_segments : ℕ
  pub segments : List SegmentRef
  pub metadata_file : Option String
  pub metadata_crc : ℕ
  pub wal_file : Option String
  pub created_unix_secs : ℕ

abbrev pub manifest_name : String
manifest_name = "MANIFEST"

abbrev pub optional : Option String → List String
optional none = []
optional (some name) = name ∷ []

-- `Manifest::referenced_files`
unfoldable pub referenced_files : {P : Type 0} → Manifest P → List String
referenced_files m =
    map (λ s. s.file) m.segments
    ++ (optional m.metadata_file ++ (optional m.wal_file ++ (manifest_name ∷ [])))

starts_with : String → String → Bool
starts_with String.[] s = true
starts_with (String.◌∷◌ p ps) String.[] = false
starts_with (String.◌∷◌ p ps) (String.◌∷◌ c cs) = eqb (code p) (code c) && starts_with ps cs

ends_with : String → String → Bool
ends_with suffix String.[] = suffix == String.[]
ends_with suffix (String.◌∷◌ c cs) = suffix == String.◌∷◌ c cs || ends_with suffix cs

-- The names that the collection may delete
unfoldable pub is_ours : String → Bool
unfolding starts_with ends_with
is_ours name =
    starts_with "segment-" name
    || (starts_with "meta-" name || (starts_with "wal-" name || ends_with ".tmp" name))

-- Whether the collection deletes a file: `removes` says of which files the removal succeeds.
pub deletes : List String → (String → Bool) → String → Bool
unfolding is_ours
deletes keep removes name = is_ours name && not (anyb (λ k. k == name) keep) && removes name

-- `gc_unreferenced`. The directory is what `read_dir` gives, `none` for an error, and an entry of it
-- may be an error as well. The files that are removed, and the result.
unfoldable pub gc_loop :
    List String → (String → Bool) → List (Option String) → ℕ → List String × StorageResult ℕ
unfolding deletes
gc_loop keep removes [] removed = ([], done removed)
gc_loop keep removes (none ∷ entries) removed = ([], failed io)
gc_loop keep removes (some name ∷ entries) removed =
    let gone = deletes keep removes name in
    let rest = gc_loop keep removes entries (if gone then removed + 1 else removed) in
    if gone then (name ∷ rest.0, rest.1) else rest

unfoldable pub gc_unreferenced :
    {P : Type 0}
    → Manifest P
    → (String → Bool)
    → Option (List (Option String))
    → List String × StorageResult ℕ
unfolding gc_loop referenced_files
gc_unreferenced m removes none = ([], failed io)
gc_unreferenced m removes (some entries) = gc_loop (referenced_files m) removes entries 0
