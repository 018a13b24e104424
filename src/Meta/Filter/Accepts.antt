-- ===== src/Meta/Filter/Accepts.antt =====
-- What a filter means: the records that it accepts, without the code's tests.
use gvector.Prelude.{
  ◌+◌, ◌^◌, ◌≤◌, ◌<◌, ◌≡◌, refl, sym, ◌∙◌, subst, ◌↔◌, Bool, true, false, ◌&&◌, Option, none, some,
  [], ◌∷◌, arith, some_inj, length, allb, All, nat_key, string_key, lookup,
}
use Prim.{tt}
use Prim.Native.String.{String}
use gvector.Types.{VectorId, F64}
use gvector.Meta.{MetaValue, Metadata, bool, int, float, str}
use gvector.Meta.Number.{is_nan, place, f64_le, f64_eq}
use gvector.Meta.Store.{MetaStore, insert_meta}
use gvector.Meta.Store.Collects.{IsValid}
use gvector.Meta.Filter.{
  F64Ops, Predicate, Filter, eq_pred, range, same_value, eq_bool, as_number, equals, in_range,
  number_of, equals_found, matches_with, matches, matches_id,
}
use gvector.Meta.Filter.Agree.{matches_id-insert_meta}

-- Two numbers that stand at one place of the line, and a number that is not behind another.
abbrev pub SameNumber : F64 → F64 → Type 0
SameNumber x y = (is_nan x ≡ false) × (is_nan y ≡ false) × (place x ≡ place y)

abbrev pub NotAbove : F64 → F64 → Type 0
NotAbove x y = (is_nan x ≡ false) × (is_nan y ≡ false) × (place x ≤ place y)

module _ (ops : F64Ops) where
  -- Integers and floats are one kind of value, compared as floats; other kinds never agree.
  abbrev pub SameValue : MetaValue → MetaValue → Type 0
  SameValue (bool a) (bool b) = a ≡ b
  SameValue (str a) (str b) = a ≡ b
  SameValue (int i) (int j) = SameNumber (ops.as_f64 i) (ops.as_f64 j)
  SameValue (int i) (float y) = SameNumber (ops.as_f64 i) y
  SameValue (float x) (int j) = SameNumber x (ops.as_f64 j)
  SameValue (float x) (float y) = SameNumber x y
  SameValue (bool a) (int j) = ⊥
  SameValue (bool a) (float y) = ⊥
  SameValue (bool a) (str b) = ⊥
  SameValue (str a) (bool b) = ⊥
  SameValue (str a) (int j) = ⊥
  SameValue (str a) (float y) = ⊥
  SameValue (int i) (bool b) = ⊥
  SameValue (int i) (str b) = ⊥
  SameValue (float x) (bool b) = ⊥
  SameValue (float x) (str b) = ⊥

  -- A number between two bounds, both of them allowed.
  abbrev pub Between : F64 → F64 → MetaValue → Type 0
  Between low high (int i) = NotAbove low (ops.as_f64 i) × NotAbove (ops.as_f64 i) high
  Between low high (float x) = NotAbove low x × NotAbove x high
  Between low high (bool b) = ⊥
  Between low high (str s) = ⊥

  -- The record has the key, with a value of the predicate.
  abbrev pub Accepts : (String → Option MetaValue) → Predicate → Type 0
  Accepts get (eq_pred key value) = (v : MetaValue) × ((get key ≡ some v) × SameValue v value)
  Accepts get (range key low high) = (v : MetaValue) × ((get key ≡ some v) × Between low high v)

  same_number : (x y : F64) → (f64_eq x y ≡ true) ↔ SameNumber x y
  unfolding f64_eq
  same_number x y = ((λ h. (ground arith, ground arith, ground arith)), λ h. ground (arith, h))

  not_above : (x y : F64) → (f64_le x y ≡ true) ↔ NotAbove x y
  unfolding f64_le
  not_above x y = ((λ h. (ground arith, ground arith, ground arith)), λ h. ground (arith, h))

  same_flag : (a b : Bool) → (eq_bool a b ≡ true) ↔ (a ≡ b)
  unfolding eq_bool
  same_flag true true = ((λ h. refl), λ h. refl)
  same_flag true false = ((λ h. absurd (cc h)), λ h. absurd (cc h))
  same_flag false true = ((λ h. absurd (cc h)), λ h. absurd (cc h))
  same_flag false false = ((λ h. refl), λ h. refl)

  none_of : {b : Bool} → b ≡ false → (b ≡ true) ↔ ⊥
  none_of e = ((λ h. absurd (cc (e, h))), λ h. absurd h)

  equals-SameValue : (v value : MetaValue) → (equals ops v value ≡ true) ↔ SameValue v value
  unfolding equals as_number same_value
  equals-SameValue (bool a) (bool b) = same_flag a b
  equals-SameValue (str a) (str b) = string_key.equal_iff a b
  equals-SameValue (int i) (int j) = same_number (ops.as_f64 i) (ops.as_f64 j)
  equals-SameValue (int i) (float y) = same_number (ops.as_f64 i) y
  equals-SameValue (float x) (int j) = same_number x (ops.as_f64 j)
  equals-SameValue (float x) (float y) = same_number x y
  equals-SameValue (bool a) (int j) = none_of refl
  equals-SameValue (bool a) (float y) = none_of refl
  equals-SameValue (bool a) (str b) = none_of refl
  equals-SameValue (str a) (bool b) = none_of refl
  equals-SameValue (str a) (int j) = none_of refl
  equals-SameValue (str a) (float y) = none_of refl
  equals-SameValue (int i) (bool b) = none_of refl
  equals-SameValue (int i) (str b) = none_of refl
  equals-SameValue (float x) (bool b) = none_of refl
  equals-SameValue (float x) (str b) = none_of refl

  both_bounds :
      (low high x : F64)
      → ((f64_le low x && f64_le x high) ≡ true) ↔ (NotAbove low x × NotAbove x high)
  both_bounds low high x = (
    (λ h. ((not_above low x).0 (ground arith), (not_above x high).0 (ground arith))),
    λ h. ground (arith, (not_above low x).1 h.0, (not_above x high).1 h.1),
  )

  in_range-Between :
      (low high : F64) (v : MetaValue)
      → (in_range ops low high (as_number ops v) ≡ true) ↔ Between low high v
  unfolding in_range as_number
  in_range-Between low high (int i) = both_bounds low high (ops.as_f64 i)
  in_range-Between low high (float x) = both_bounds low high x
  in_range-Between low high (bool b) = none_of refl
  in_range-Between low high (str s) = none_of refl

  -- A test of what stands under a key, if anything does.
  under_key :
      (o : Option MetaValue) (test : Option MetaValue → Bool) (P : MetaValue → Type 0)
      → test none ≡ false
      → ((v : MetaValue) → (test (some v) ≡ true) ↔ P v)
      → (test o ≡ true) ↔ ((v : MetaValue) × ((o ≡ some v) × P v))
  under_key none test P absent h = ((λ e. absurd (cc (absent, e))), λ p. absurd (cc p.1.0))
  under_key (some v) test P absent h =
      ((λ e. (v, (refl, (h v).0 e))), λ p. (h v).1 (subst P (sym (some_inj p.1.0)) p.1.1))

  matches_with-Accepts :
      (get : String → Option MetaValue) (p : Predicate)
      → (matches_with ops get p ≡ true) ↔ Accepts get p
  unfolding matches_with equals_found number_of in_range
  matches_with-Accepts get (eq_pred key value) =
      under_key (get key) (equals_found ops value) (λ v. SameValue v value) refl
        (λ v. equals-SameValue v value)
  matches_with-Accepts get (range key low high) =
      under_key (get key) (λ o. in_range ops low high (number_of ops o)) (Between low high) refl
        (in_range-Between low high)

  allb-All :
      (get : String → Option MetaValue) (filter : Filter)
      → (allb (matches_with ops get) filter ≡ true) ↔ All (Accepts get) filter
  allb-All get [] = ((λ e. tt), λ h. refl)
  allb-All get (p ∷ ps) =
      let here = matches_with-Accepts get p in
      let rest = allb-All get ps in
      (
        (λ e. (here.0 (ground arith), rest.0 (ground arith))),
        λ h. ground (arith, here.1 h.0, rest.1 h.1),
      )

  -- In a valid store with room for the names in 32 bits: after metadata is stored under an id, a
  -- filter accepts the id exactly when every predicate of it holds of the metadata. An equality holds
  -- when the key is there with an equal value, numbers compared as floats and no NaN equal to
  -- anything; a range when the key is there with a number that is neither below the one bound nor
  -- above the other.
  pub matches_id-Accepts :
      (store : MetaStore) (id : VectorId) (meta : Metadata) (filter : Filter)
      → IsValid store
      → length store.fields + length meta < 2 ^ 32
      → (matches_id ops filter (insert_meta store id meta) id ≡ true)
        ↔ All (Accepts (λ key. lookup key meta)) filter
  unfolding matches
  matches_id-Accepts store id meta filter valid small =
      let same = matches_id-insert_meta ops store id meta filter valid small in
      let meant = allb-All (λ key. lookup key meta) filter in
      ((λ e. meant.0 (sym same ∙ e)), λ h. same ∙ meant.1 h)
