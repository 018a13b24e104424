-- ===== src/Meta/Filter.antt =====
-- src/meta.rs: predicates and filters, over the raw metadata and over the compact store.
pub mod Agree
pub mod Accepts
use gvector.Prelude.{
  ℕ, zero, suc, min, max, refl, Bool, true, false, not, ◌&&◌, Option, none, some, List, [], ◌∷◌,
  eqb, if◌then◌else◌, allb, ◌==◌, nat_key, string_key, lookup,
}
use Prim.Native.String.{String}
use gvector.Prelude.Int.{ℤ, pos, negsuc}
use gvector.Types.{VectorId, F64}
use gvector.Meta.{MetaValue, Metadata, bool, int, float, str}
use gvector.Meta.Number.{f64_le, f64_eq}
use gvector.Meta.Store.{MetaStore, Record, get_field}

-- What the code does with `f64` besides comparing: `as f64`, and whether a float is a whole number
-- within `i64`, `as i64`.
pub record F64Ops : Type 0 where
  pub as_f64 : ℤ → F64
  pub is_whole : F64 → Bool
  pub as_i64 : F64 → ℤ

eq_int : ℤ → ℤ → Bool
eq_int (pos a) (pos b) = eqb a b
eq_int (negsuc a) (negsuc b) = eqb a b
eq_int (pos a) (negsuc b) = false
eq_int (negsuc a) (pos b) = false

unfoldable pub eq_bool : Bool → Bool → Bool
eq_bool true b = b
eq_bool false b = not b

-- The derived `==` of `MetaValue`
unfoldable pub same_value : MetaValue → MetaValue → Bool
unfolding eq_int eq_bool
same_value (bool a) (bool b) = eq_bool a b
same_value (int a) (int b) = eq_int a b
same_value (float a) (float b) = f64_eq a b
same_value (str a) (str b) = a == b
same_value (bool a) (int b) = false
same_value (bool a) (float b) = false
same_value (bool a) (str b) = false
same_value (int a) (bool b) = false
same_value (int a) (float b) = false
same_value (int a) (str b) = false
same_value (float a) (bool b) = false
same_value (float a) (int b) = false
same_value (float a) (str b) = false
same_value (str a) (bool b) = false
same_value (str a) (int b) = false
same_value (str a) (float b) = false

-- `MetaKey`
pub data MetaKey : Type 0 where
  bool_key : Bool → MetaKey
  int_key : ℤ → MetaKey
  float_bits : ℕ → MetaKey
  str_key : String → MetaKey

pub data Predicate : Type 0 where
  eq_pred : String → MetaValue → Predicate
  range : String → F64 → F64 → Predicate

-- The predicates of `must`
abbrev pub Filter : Type 0
Filter = List Predicate

module _ (ops : F64Ops) where
  unfoldable pub as_number : MetaValue → Option F64
  as_number (int i) = some (ops.as_f64 i)
  as_number (float f) = some f
  as_number (bool b) = none
  as_number (str s) = none

  -- `MetaValue::equals`
  unfoldable pub equals : MetaValue → MetaValue → Bool
  unfolding same_value as_number
  equals a b = elim (as_number a) [
    | none ↦ same_value a b
    | some x ↦ elim (as_number b) [ none ↦ same_value a b | some y ↦ f64_eq x y ]
  ]

  -- `MetaValue::key`
  unfoldable pub key_of : MetaValue → MetaKey
  key_of (bool b) = bool_key b
  key_of (int i) = int_key i
  key_of (float f) = if ops.is_whole f then int_key (ops.as_i64 f) else float_bits f
  key_of (str s) = str_key s

  unfoldable pub in_range : F64 → F64 → Option F64 → Bool
  in_range min max none = false
  in_range min max (some x) = f64_le min x && f64_le x max

  unfoldable pub number_of : Option MetaValue → Option F64
  unfolding as_number
  number_of none = none
  number_of (some v) = as_number v

  unfoldable pub equals_found : MetaValue → Option MetaValue → Bool
  unfolding equals
  equals_found value none = false
  equals_found value (some v) = equals v value

  -- `Predicate::matches_with`
  unfoldable pub matches_with : (String → Option MetaValue) → Predicate → Bool
  unfolding in_range number_of equals_found
  matches_with get (eq_pred key value) = equals_found value (get key)
  matches_with get (range key min max) = in_range min max (number_of (get key))

  -- `Filter::matches`
  unfoldable pub matches : Filter → Metadata → Bool
  unfolding matches_with
  matches filter meta = allb (matches_with (λ key. lookup key meta)) filter

  pub matches_record : MetaStore → Filter → Option Record → Bool
  unfolding matches_with
  matches_record store filter none = false
  matches_record store filter (some fields_of) =
      allb (matches_with (get_field store fields_of)) filter

  -- `Filter::matches_id`
  unfoldable pub matches_id : Filter → MetaStore → VectorId → Bool
  unfolding matches_record
  matches_id [] store id = true
  matches_id (p ∷ ps) store id = matches_record store (p ∷ ps) (lookup id store.records)
