-- ===== src/Meta/Store/Collects.antt =====
-- What the fields of a record that is stored have done to the dictionary.
use gvector.Prelude.{
  ℕ, ◌+◌, ◌%◌, ◌^◌, ◌≤◌, ◌<◌, ◌≡◌, refl, sym, ap, ◌∙◌, subst, ◌≢◌, inl, inr, none, some, [], ◌∷◌,
  ◌++◌, arith, if◌then◌else◌, eqb_iff, Bool-cases, Option-cases, some_inj, length, get_elem?,
  length-append, get_elem?-lt, get_elem?-append_left, get_elem?-append_here, ◌==◌, nat_key,
  string_key, lookup, insert, lookup-insert,
}
use Prim.Native.String.{String}
use gvector.Types.{VectorId}
use gvector.Meta.{MetaValue, Metadata}
use gvector.Meta.Store.{MetaStore, Record, new, field_id, collect_fields, insert_field, sort_fields}

-- The dictionary gives every name the position of its only entry, and no record names a field
-- that the dictionary does not have.
pub record IsValid (store : MetaStore) : Type 0 where
  pub named :
      (k : String) (n : ℕ) → lookup k store.field_ids ≡ some n → get_elem? store.fields n ≡ some k
  pub bounded :
      (id : VectorId) (fields_of : Record) (n : ℕ)
      → lookup id store.records ≡ some fields_of
      → length store.fields ≤ n
      → lookup n fields_of ≡ none

lookup-insert_field :
    (fid f : ℕ) (v : MetaValue) (fields_of : Record)
    → lookup fid (insert_field (f, v) fields_of)
      ≡ (if f == fid then some v else lookup fid fields_of)
unfolding insert_field lookup
lookup-insert_field fid f v [] = refl
lookup-insert_field fid f v ((g, w) ∷ rest) =
    ground (arith, eqb_iff f fid, eqb_iff g fid, eqb_iff f g, lookup-insert_field fid f v rest)

pub lookup-sort_fields :
    (fid : ℕ) (fields_of : Record) → lookup fid (sort_fields fields_of) ≡ lookup fid fields_of
unfolding sort_fields lookup
lookup-sort_fields fid [] = refl
lookup-sort_fields fid ((f, v) ∷ rest) =
    lookup-insert_field fid f v (sort_fields rest)
    ∙ ap (λ z. if f == fid then some v else z) (lookup-sort_fields fid rest)

-- The dictionary after a name was looked up.
pub record Extends (store store' : MetaStore) : Type 0 where
  pub old :
      (k : String) (n : ℕ) → lookup k store.field_ids ≡ some n → lookup k store'.field_ids ≡ some n
  pub fresh :
      (k : String) (n : ℕ)
      → lookup k store.field_ids ≡ none
      → lookup k store'.field_ids ≡ some n
      → length store.fields ≤ n
  pub grown : length store.fields ≤ length store'.fields
  pub records_eq : store'.records ≡ store.records
  pub valid : IsValid store'

-- What a lookup in the dictionary leaves, and what it answers.
record Names (store : MetaStore) (name : String) (answer : MetaStore × ℕ) : Type 0 where
  pub extends : Extends store answer.0
  pub answered : lookup name answer.0.field_ids ≡ some answer.1
  pub bound : length answer.0.fields ≤ length store.fields + 1

Extends-refl : (store : MetaStore) → IsValid store → Extends store store
Extends-refl store valid = record {
  old = λ k n e. e;
  fresh = λ k n e f. absurd (cc (e, f));
  grown = omega arith;
  records_eq = refl;
  valid = valid;
}

field_id-Names :
    (store : MetaStore) (name : String)
    → IsValid store
    → length store.fields < 2 ^ 32
    → Names store name (field_id store name)
unfolding field_id
field_id-Names store name valid small = elim (Option-cases (lookup name store.field_ids)) [
  | inr (id, e) ↦
      let same : (store, id) ≡ field_id store name = sym (simp (field_id, e)) in
      subst (Names store name) same
        (record { extends = Extends-refl store valid; answered = e; bound = omega arith })
  | inl e ↦
      let n = length store.fields % 2 ^ 32 in
      let n_eq : n ≡ length store.fields = omega arith in
      let longer = record store {
        fields = store.fields ++ (name ∷ []);
        field_ids = insert name n store.field_ids;
      } in
      let same : (longer, n) ≡ field_id store name = sym (simp (field_id, e)) in
      let size = length-append store.fields (name ∷ []) in
      subst (Names store name) same (record {
        extends = record {
          old = λ k m h.
              ground
                (arith, lookup-insert name k n store.field_ids, string_key.equal_iff name k, e, h);
          fresh = λ k m g h. ground (arith, lookup-insert name k n store.field_ids, g, h, n_eq);
          grown = omega (arith, size);
          records_eq = refl;
          valid = record {
            named = λ k m h. elim (Bool-cases (name == k)) [
              | inl q ↦
                  get_elem?-append_here store.fields [] name m
                    (ground (arith, lookup-insert name k n store.field_ids, q, h, n_eq))
                  ∙ ap some ((string_key.equal_iff name k).0 q)
              | inr q ↦
                  let before : lookup k store.field_ids ≡ some m =
                    ground (arith, lookup-insert name k n store.field_ids, q, h) in
                  get_elem?-append_left store.fields (name ∷ []) m
                    (get_elem?-lt store.fields m k (valid.named k m before))
                  ∙ valid.named k m before
            ];
            bounded = λ id fields_of m h l. valid.bounded id fields_of m h (omega (arith, size));
          };
        };
        answered =
            ground
              (arith, lookup-insert name name n store.field_ids, string_key.equal_iff name name);
        bound = omega (arith, size);
      })
]

Extends-trans : (a b c : MetaStore) → Extends a b → Extends b c → Extends a c
Extends-trans a b c x y = record {
  old = λ k n e. y.old k n (x.old k n e);
  fresh = λ k n e f. elim (Option-cases (lookup k b.field_ids)) [
    | inl g ↦ omega (arith, x.grown, y.fresh k n g f)
    | inr (m, g) ↦ omega (arith, x.fresh k m e g, some_inj (sym f ∙ y.old k m g))
  ];
  grown = omega (arith, x.grown, y.grown);
  records_eq = y.records_eq ∙ x.records_eq;
  valid = y.valid;
}

-- What collecting the fields of a record leaves and gives: the values under the ids of their names.
pub record Collects (store : MetaStore) (meta : Metadata) (answer : MetaStore × Record)
    : Type 0 where
  pub extends : Extends store answer.0
  pub bound : length answer.0.fields ≤ length store.fields + length meta
  pub values :
      (k : String) (n : ℕ)
      → lookup k answer.0.field_ids ≡ some n
      → lookup n answer.1 ≡ lookup k meta
  pub absent : (k : String) → lookup k answer.0.field_ids ≡ none → lookup k meta ≡ none
  pub below : (n : ℕ) → length answer.0.fields ≤ n → lookup n answer.1 ≡ none

pub collect_fields-Collects :
    (store : MetaStore) (meta : Metadata)
    → IsValid store
    → length store.fields + length meta < 2 ^ 32
    → Collects store meta (collect_fields store meta)
unfolding collect_fields lookup
collect_fields-Collects store [] valid small = record {
  extends = Extends-refl store valid;
  bound = omega arith;
  values = λ k n e. refl;
  absent = λ k e. refl;
  below = λ n l. refl;
}
collect_fields-Collects store ((name, v) ∷ meta) valid small =
    let x = field_id-Names store name valid (omega arith) in
    let store' = (field_id store name).0 in
    let id = (field_id store name).1 in
    let y = collect_fields-Collects store' meta x.extends.valid (omega (arith, x.bound)) in
    let last = (collect_fields store' meta).0 in
    let mine : lookup name last.field_ids ≡ some id = y.extends.old name id x.answered in
    record {
      extends = Extends-trans store store' last x.extends y.extends;
      bound = omega (arith, x.bound, y.bound);
      values = λ k n e. elim (Bool-cases (name == k)) [
        | inl q ↦
            let same : name ≡ k = (string_key.equal_iff name k).0 q in
            let n_eq : id ≡ n = some_inj (sym mine ∙ ap (λ z. lookup z last.field_ids) same ∙ e) in
            ground (arith, q, n_eq)
        | inr q ↦
            let other : id ≢ n = λ z. absurd (
              ground (
                arith,
                q,
                string_key.equal_iff name k,
                some_inj (
                    sym (y.extends.valid.named name id mine)
                    ∙ ap (get_elem? last.fields) z
                    ∙ y.extends.valid.named k n e),
              )) in
            ground (arith, q, other, y.values k n e)
      ];
      absent = λ k e. ground (arith, mine, e, string_key.equal_iff name k, y.absent k e);
      below = λ n l. ground (
        arith,
        get_elem?-lt last.fields id name (y.extends.valid.named name id mine),
        l,
        y.below n l,
      );
    }

pub new-IsValid : IsValid new
unfolding new lookup
new-IsValid = record {
  named = λ k n e. absurd (cc e);
  bounded = λ id fields_of n e l. absurd (cc e);
}
