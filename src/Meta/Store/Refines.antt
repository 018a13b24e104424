-- ===== src/Meta/Store/Refines.antt =====
-- The store is a map from ids to maps from names to values.
use gvector.Prelude.{
  ◌+◌, ◌^◌, ◌<◌, ◌≡◌, sym, ap, ◌∙◌, inl, inr, none, some, arith, if◌then◌else◌, Bool-cases,
  Option-cases, length, ◌==◌, nat_key, string_key, lookup, lookup-insert, lookup-erase,
}
use Prim.Native.String.{String}
use gvector.Types.{VectorId}
use gvector.Meta.{Metadata}
use gvector.Meta.Store.{
  MetaStore, Record, collect_fields, sort_fields, insert_meta, get_field, get_value, remove_meta,
}
use gvector.Meta.Store.Collects.{IsValid, Collects, lookup-sort_fields, collect_fields-Collects}

module _ (store : MetaStore) (id : VectorId) (meta : Metadata) (valid : IsValid store)
    (small : length store.fields + length meta < 2 ^ 32) where
  abbrev last : MetaStore
  last = (collect_fields store meta).0

  abbrev fields_of_new : Record
  fields_of_new = (collect_fields store meta).1

  collected : Collects store meta (collect_fields store meta)
  collected = collect_fields-Collects store meta valid small

  -- The records after the insert.
  pub stored :
      (other : VectorId)
      → lookup other (insert_meta store id meta).records
        ≡ (if id == other then some (sort_fields fields_of_new) else lookup other store.records)
  unfolding insert_meta
  stored other =
      lookup-insert id other (sort_fields fields_of_new) last.records
      ∙ ap (λ z. if id == other then some (sort_fields fields_of_new) else lookup other z)
          collected.extends.records_eq

  -- An insert keeps the dictionary and the records in step.
  pub insert_meta-IsValid : IsValid (insert_meta store id meta)
  unfolding insert_meta
  insert_meta-IsValid = record {
    named = collected.extends.valid.named;
    bounded = λ other fields_of n e l. elim (Bool-cases (id == other)) [
      | inl q ↦
          let same : sort_fields fields_of_new ≡ fields_of = ground (arith, stored other, q, e) in
          ap (lookup n) (sym same) ∙ lookup-sort_fields n fields_of_new ∙ collected.below n l
      | inr q ↦
          valid.bounded other fields_of n (ground (arith, stored other, q, e))
            (omega (arith, collected.extends.grown))
    ];
  }

  -- The new record answers every name as the metadata does.
  pub new_field :
      (key : String)
      → get_field (insert_meta store id meta) (sort_fields fields_of_new) key ≡ lookup key meta
  unfolding get_field insert_meta
  new_field key = elim (Option-cases (lookup key last.field_ids)) [
    | inl n ↦ ground (arith, n, collected.absent key n)
    | inr (fid, e) ↦
        ground (arith, e, lookup-sort_fields fid fields_of_new, collected.values key fid e)
  ]

  -- Every other record answers as it did, though the dictionary has grown.
  old_field :
      (other : VectorId) (fields_of : Record) (key : String)
      → lookup other store.records ≡ some fields_of
      → get_field (insert_meta store id meta) fields_of key ≡ get_field store fields_of key
  unfolding get_field insert_meta
  old_field other fields_of key e = elim (Option-cases (lookup key store.field_ids)) [
    | inr (fid, f) ↦ ground (arith, f, collected.extends.old key fid f)
    | inl n ↦ elim (Option-cases (lookup key last.field_ids)) [
      | inl m ↦ ground (arith, n, m)
      | inr (fid, f) ↦
          ground
            (arith, n, f, valid.bounded other fields_of fid e (collected.extends.fresh key fid n f))
    ]
  ]

  -- After an insert an id has the values of its metadata, and every other id those it had.
  pub get_value-insert_meta :
      (other : VectorId) (key : String)
      → get_value (insert_meta store id meta) other key
        ≡ (if id == other then lookup key meta else get_value store other key)
  unfolding get_value
  get_value-insert_meta other key = elim (Bool-cases (id == other)) [
    | inl q ↦ ground (arith, q, stored other, new_field key)
    | inr q ↦ elim (Option-cases (lookup other store.records)) [
      | inl n ↦ ground (arith, q, stored other, n)
      | inr (fields_of, e) ↦ ground (arith, q, stored other, e, old_field other fields_of key e)
    ]
  ]

-- After a removal an id has no values, and every other id those it had.
pub get_value-remove_meta :
    (store : MetaStore) (id other : VectorId) (key : String)
    → get_value (remove_meta store id) other key
      ≡ (if id == other then none else get_value store other key)
unfolding get_value get_field remove_meta
get_value-remove_meta store id other key =
    ground (arith, lookup-erase id other store.records, Option-cases (lookup other store.records))
