-- ===== src/BruteForce/Contains.antt =====
-- Which ids the index holds, and the entries that it lists for a build.
use gvector.Prelude.{
  ℕ, zero, suc, ◌+◌, ◌-◌, ◌*◌, ◌≡◌, refl, sym, ap, ◌∙◌, inl, inr, true, false, not, ◌&&◌, ◌||◌,
  some, List, [], ◌∷◌, map, arith, eqb, eqb_iff, eqb_refl, Bool-cases, Option-cases, some_inj,
  length, get_elem?, drop, anyb, All, length-take, length-drop, nat_key, string_key, lookup,
}
use Prim.{Unit, tt}
use gvector.Types.{VectorId, Vector}
use gvector.Index.{ok, err, Result-cases, not_found}
use gvector.Distance.{F32Ops, Metric}
use gvector.BruteForce.{
  BruteForceIndex, new, insert_vector, delete, contains, vector_of, vector_at, entries,
  entries_from, is_some,
}
use gvector.BruteForce.Invariant.{IsValid, insert_vector_ok, delete_ok}
use gvector.BruteForce.Lookup.{vector_of-insert_vector, vector_of-delete}

contains-vector_of :
    (idx : BruteForceIndex) (id : VectorId) → contains idx id ≡ is_some (vector_of idx id)
unfolding contains vector_of is_some
contains-vector_of idx id = ground (arith, Option-cases (lookup id idx.slot_of))

pub contains-insert_vector :
    (ops : F32Ops) (idx : BruteForceIndex) (id key : VectorId) (v : Vector) {idx' : BruteForceIndex}
    → IsValid idx
    → insert_vector ops idx id v ≡ ok idx'
    → contains idx' key ≡ (eqb id key || contains idx key)
unfolding is_some
contains-insert_vector ops idx id key v {idx' = idx'} valid e = ground (
  arith,
  contains-vector_of idx' key,
  contains-vector_of idx key,
  vector_of-insert_vector ops idx id key v valid e,
)

pub contains-delete :
    (idx : BruteForceIndex) (id key : VectorId) {idx' : BruteForceIndex}
    → IsValid idx
    → delete idx id ≡ ok idx'
    → contains idx' key ≡ (not (eqb id key) && contains idx key)
unfolding is_some
contains-delete idx id key {idx' = idx'} valid e = ground (
  arith,
  contains-vector_of idx' key,
  contains-vector_of idx key,
  vector_of-delete idx id key valid e,
)

pub contains-new :
    (dim : ℕ) (metric : Metric) (id : VectorId) → contains (new dim metric) id ≡ false
unfolding contains new is_some lookup
contains-new dim metric id = refl

pub new-dim : (dim : ℕ) (metric : Metric) → (new dim metric).dim ≡ dim
unfolding new
new-dim dim metric = refl

pub delete-missing :
    (idx : BruteForceIndex) (id : VectorId)
    → contains idx id ≡ false
    → delete idx id ≡ err (not_found id)
unfolding contains delete is_some
delete-missing idx id e = ground (arith, Option-cases (lookup id idx.slot_of))

pub delete-total :
    (idx : BruteForceIndex) (id : VectorId)
    → contains idx id ≡ true
    → (idx' : BruteForceIndex) × (delete idx id ≡ ok idx')
unfolding contains delete is_some
delete-total idx id e = elim (Result-cases (delete idx id)) [
  | inl found ↦ found
  | inr (why, z) ↦ absurd (ground (arith, z, Option-cases (lookup id idx.slot_of)))
]

-- A delete leaves the shape of the index.
pub delete-dim :
    (idx : BruteForceIndex) (id : VectorId) {idx' : BruteForceIndex}
    → delete idx id ≡ ok idx'
    → idx'.dim ≡ idx.dim
delete-dim idx id e =
    let (slot, here, cases) = delete_ok idx id e in
    elim cases [ inl (apart, eq) ↦ ap (λ x. x.dim) eq | inr (same, eq) ↦ ap (λ x. x.dim) eq ]

pub insert_vector-total :
    (ops : F32Ops) (idx : BruteForceIndex) (id : VectorId) (v : Vector)
    → length v ≡ idx.dim
    → contains idx id ≡ false
    → (idx' : BruteForceIndex) × (insert_vector ops idx id v ≡ ok idx')
unfolding insert_vector
insert_vector-total ops idx id v l e = elim (Result-cases (insert_vector ops idx id v)) [
  | inl found ↦ found
  | inr (why, z) ↦ absurd (ground (arith, z, l, e, eqb_refl idx.dim))
]

-- An insert leaves the shape of the index, and one more row.
pub insert_vector-dim :
    (ops : F32Ops) (idx : BruteForceIndex) (id : VectorId) (v : Vector) {idx' : BruteForceIndex}
    → insert_vector ops idx id v ≡ ok idx'
    → idx'.dim ≡ idx.dim
insert_vector-dim ops idx id v e =
    let (l, fresh, eq) = insert_vector_ok ops idx id v e in ap (λ x. x.dim) eq

abbrev pub IsDistinct : List VectorId → Type 0
IsDistinct [] = Unit
IsDistinct (id ∷ ids) = (anyb (eqb id) ids ≡ false) × IsDistinct ids

anyb-get :
    (id : ℕ) (ids : List ℕ) → anyb (eqb id) ids ≡ true → (i : ℕ) × (get_elem? ids i ≡ some id)
anyb-get id [] e = absurd (cc e)
anyb-get id (x ∷ ids) e = elim (Bool-cases (eqb id x)) [
  | inl q ↦ (0, ap some (sym ((eqb_iff id x).0 q)))
  | inr q ↦ let (i, g) = anyb-get id ids (ground (arith, e, q)) in (suc i, g)
]

get-anyb : (id i : ℕ) (ids : List ℕ) → get_elem? ids i ≡ some id → anyb (eqb id) ids ≡ true
get-anyb id i [] e = absurd (cc e)
get-anyb id zero (x ∷ ids) e = ground (arith, some_inj e, eqb_refl id)
get-anyb id (suc i) (x ∷ ids) e = ground (arith, get-anyb id i ids e)

-- The ids of a valid index are distinct.
IsDistinct-from :
    (ids : List ℕ)
    → ((id i j : ℕ) → get_elem? ids i ≡ some id → get_elem? ids j ≡ some id → i ≡ j)
    → IsDistinct ids
IsDistinct-from [] h = tt
IsDistinct-from (x ∷ ids) h = (
  elim (Bool-cases (anyb (eqb x) ids)) [
    | inl q ↦ let (i, g) = anyb-get x ids q in absurd (omega (arith, h x 0 (suc i) refl g))
    | inr q ↦ q
  ],
  IsDistinct-from ids (λ id i j p q. omega (arith, h id (suc i) (suc j) p q)),
)

pub ids-IsDistinct : (idx : BruteForceIndex) → IsValid idx → IsDistinct idx.ids
ids-IsDistinct idx valid =
    IsDistinct-from idx.ids
      (λ id i j p q. some_inj (sym (valid.mapped id i p) ∙ valid.mapped id j q))

pub contains-ids :
    (idx : BruteForceIndex) (id : VectorId) → IsValid idx → anyb (eqb id) idx.ids ≡ contains idx id
unfolding contains is_some
contains-ids idx id valid = elim (Option-cases (lookup id idx.slot_of)) [
  | inl n ↦ elim (Bool-cases (anyb (eqb id) idx.ids)) [
    | inl q ↦ let (i, g) = anyb-get id idx.ids q in absurd (cc (n, valid.mapped id i g))
    | inr q ↦ q ∙ sym (ap is_some n)
  ]
  | inr (slot, s) ↦ get-anyb id slot idx.ids (valid.placed id slot s) ∙ sym (ap is_some s)
]

-- An entry for every id, in slot order, each with a row.
entries_from-ids :
    (idx : BruteForceIndex) (slot : ℕ) (ids : List VectorId)
    → map (λ e. e.0) (entries_from idx slot ids) ≡ ids
unfolding entries_from
entries_from-ids idx slot [] = refl
entries_from-ids idx slot (id ∷ ids) = ap (◌∷◌ id) (entries_from-ids idx (slot + 1) ids)

pub entries-ids : (idx : BruteForceIndex) → map (λ e. e.0) (entries idx) ≡ idx.ids
unfolding entries
entries-ids idx = entries_from-ids idx 0 idx.ids

entries_from-row :
    (idx : BruteForceIndex) (slot n : ℕ) (ids : List VectorId)
    → length idx.data_block ≡ n * idx.dim
    → slot + length ids ≡ n
    → All (λ e. length e.1 ≡ idx.dim) (entries_from idx slot ids)
unfolding entries_from vector_at
entries_from-row idx slot n [] h e = tt
entries_from-row idx slot n (id ∷ ids) h e =
    let size : length idx.data_block ≡ (slot + suc (length ids)) * idx.dim =
      h ∙ ap (λ k. k * idx.dim) (sym e) in
    let rest = drop (slot * idx.dim) idx.data_block in
    (
      omega (
        arith,
        size,
        length-take ((slot + 1) * idx.dim - slot * idx.dim) rest,
        length-drop (slot * idx.dim) idx.data_block,
      ),
      entries_from-row idx (slot + 1) n ids h (omega (arith, e)),
    )

pub entries-row :
    (idx : BruteForceIndex) → IsValid idx → All (λ e. length e.1 ≡ idx.dim) (entries idx)
unfolding entries
entries-row idx valid = entries_from-row idx 0 (length idx.ids) idx.ids valid.block (omega arith)
