-- ===== src/Meta/Filter/Agree.antt =====
-- A filter gives the same answer on the compact store as on the raw metadata that was stored.
use gvector.Prelude.{
  ◌+◌, ◌^◌, ◌<◌, min, max, ◌≡◌, refl, ap, ◌∙◌, Option, some, [], ◌∷◌, arith, eqb_refl, length, allb,
  nat_key, string_key, lookup,
}
use Prim.Native.String.{String}
use gvector.Types.{VectorId}
use gvector.Meta.{MetaValue, Metadata}
use gvector.Meta.Store.{MetaStore, get_field, insert_meta, collect_fields, sort_fields}
use gvector.Meta.Store.Collects.{IsValid}
use gvector.Meta.Store.Refines.{new_field, stored}
use gvector.Meta.Filter.{
  F64Ops, Predicate, Filter, eq_pred, range, matches_with, matches, matches_record, matches_id,
  in_range, number_of, equals_found,
}

module _ (ops : F64Ops) where
  with_congr :
      (f g : String → Option MetaValue) (p : Predicate)
      → ((key : String) → f key ≡ g key)
      → matches_with ops f p ≡ matches_with ops g p
  unfolding matches_with
  with_congr f g (eq_pred key value) h = ap (equals_found ops value) (h key)
  with_congr f g (range key min max) h = ap (λ o. in_range ops min max (number_of ops o)) (h key)

  all_congr :
      (f g : String → Option MetaValue) (filter : Filter)
      → ((key : String) → f key ≡ g key)
      → allb (matches_with ops f) filter ≡ allb (matches_with ops g) filter
  all_congr f g [] h = refl
  all_congr f g (p ∷ ps) h = ground (arith, with_congr f g p h, all_congr f g ps h)

  -- After metadata is stored under an id, a filter accepts the id in the store exactly when it accepts
  -- the metadata.
  pub matches_id-insert_meta :
      (store : MetaStore) (id : VectorId) (meta : Metadata) (filter : Filter)
      → IsValid store
      → length store.fields + length meta < 2 ^ 32
      → matches_id ops filter (insert_meta store id meta) id ≡ matches ops filter meta
  unfolding matches_id matches matches_record
  matches_id-insert_meta store id meta [] valid small = refl
  matches_id-insert_meta store id meta (p ∷ ps) valid small =
      let fields_of = sort_fields (collect_fields store meta).1 in
      let there : lookup id (insert_meta store id meta).records ≡ some fields_of =
        ground (arith, stored store id meta valid small id, eqb_refl id) in
      ap (matches_record ops (insert_meta store id meta) (p ∷ ps)) there
      ∙ all_congr (get_field (insert_meta store id meta) fields_of) (λ key. lookup key meta)
          (p ∷ ps) (new_field store id meta valid small)
