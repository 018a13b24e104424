-- ===== src/Meta/Store.antt =====
-- src/meta.rs: `MetaStore`, the compact store of metadata: field names once in a dictionary, and
-- records of field ids and values.
pub mod Collects
pub mod Refines
use gvector.Prelude.{
  ℕ, zero, suc, ◌%◌, ◌^◌, refl, Option, none, some, List, [], ◌∷◌, ◌++◌, leb, if◌then◌else◌, length,
  nat_key, string_key, lookup, insert, erase,
}
use Prim.Native.String.{String}
use gvector.Types.{VectorId}
use gvector.Meta.{MetaValue, Metadata}

abbrev pub Record : Type 0
Record = List (ℕ × MetaValue)

pub record MetaStore : Type 0 where
  pub fields : List String
  pub field_ids : List (String × ℕ)
  pub records : List (VectorId × Record)

unfoldable pub new : MetaStore
new = record { fields = []; field_ids = []; records = [] }

-- `field_id`: the id of a name, which is given one if it has none. An id is a `u32`.
unfoldable pub field_id : MetaStore → String → MetaStore × ℕ
field_id store name = elim (lookup name store.field_ids) [
  | some id ↦ (store, id)
  | none ↦
      let id = length store.fields % 2 ^ 32 in
      (
        record store {
          fields = store.fields ++ (name ∷ []);
          field_ids = insert name id store.field_ids;
        },
        id,
      )
]

-- `meta.into_iter().map(|(k, v)| (self.field_id(&k), v)).collect()`
unfoldable pub collect_fields : MetaStore → Metadata → MetaStore × Record
unfolding field_id
collect_fields store [] = (store, [])
collect_fields store ((k, v) ∷ meta) =
    let (store', id) = field_id store k in
    let (store'', rest) = collect_fields store' meta in (store'', (id, v) ∷ rest)

-- `rec.sort_by_key(|(f, _)| *f)`, a stable sort
insert_field : ℕ × MetaValue → Record → Record
insert_field (f, v) [] = (f, v) ∷ []
insert_field (f, v) ((g, w) ∷ rest) =
    if leb f g then (f, v) ∷ ((g, w) ∷ rest) else (g, w) ∷ insert_field (f, v) rest

pub sort_fields : Record → Record
unfolding insert_field
sort_fields [] = []
sort_fields (entry ∷ rest) = insert_field entry (sort_fields rest)

-- `MetaStore::insert`
unfoldable pub insert_meta : MetaStore → VectorId → Metadata → MetaStore
unfolding collect_fields sort_fields
insert_meta store id meta =
    let (store', fields_of) = collect_fields store meta in
    record store' { records = insert id (sort_fields fields_of) store'.records }

-- `MetaRef::get`: the linear search of a record
unfoldable pub get_field : MetaStore → Record → String → Option MetaValue
get_field store fields_of key = elim (lookup key store.field_ids) [
  | none ↦ none
  | some fid ↦ lookup fid fields_of
]

-- `store.get(id)` and then `get(key)`
unfoldable pub get_value : MetaStore → VectorId → String → Option MetaValue
unfolding get_field
get_value store id key = elim (lookup id store.records) [
  | none ↦ none
  | some fields_of ↦ get_field store fields_of key
]

-- `MetaStore::remove`, without the record that it hands back
unfoldable pub remove_meta : MetaStore → VectorId → MetaStore
remove_meta store id = record store { records = erase id store.records }
