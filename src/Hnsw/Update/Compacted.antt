-- ===== src/Hnsw/Update/Compacted.antt =====
-- The compaction: its inserts never fail, and what it leaves is what was alive.
use gvector.Prelude.{
  ℕ, zero, suc, ◌+◌, ◌*◌, ◌≤◌, ◌<◌, ◌≡◌, refl, sym, ap, ◌∙◌, subst, ◌≢◌, inl, inr, Bool, true,
  false, ◌||◌, Option, none, some, List, [], ◌∷◌, arith, ltb, eqb, eqb_iff, eqb_refl, Bool-cases,
  Option-cases, some_inj, length, get_elem?, get_or, drop, length-take, length-drop, get_elem?-lt,
  nat_key, string_key, lookup, lookup-insert,
}
use gvector.Types.{VectorId, Vector}
use gvector.Index.{ok}
use gvector.Distance.{F32Ops, prepare}
use gvector.Hnsw.{HnswIndex, Randomness, new, contains, vector_at, range_from}
use gvector.Hnsw.Update.{insert_vector, compact_loop, compact, link_node}
use gvector.Hnsw.Update.Rows.{rows, rows-link_node}
use gvector.Hnsw.Update.Tracked.{IsTracked, pushed}
use gvector.Hnsw.Update.Valid.{
  IsValid, new-IsValid, placed, new_level, insert_vector_ok, rows-placed,
}
use gvector.Hnsw.Update.Inserted.{insert_vector-IsValid}

module _ {R : Type 0} where
  pub contains-eq :
      (idx : HnswIndex R) (id : VectorId)
      → contains idx id ≡ elim (lookup id idx.slot_of) [ none ↦ false | some slot ↦ true ]
  unfolding contains
  contains-eq idx id = refl

  pub contains-none :
      (idx : HnswIndex R) (id : VectorId) → contains idx id ≡ false → lookup id idx.slot_of ≡ none
  unfolding contains
  contains-none idx id h = ground arith

-- A row of a valid index has `dim` numbers.
pub length-vector_at :
    {R : Type 0} (idx : HnswIndex R) (slot : ℕ)
    → IsTracked (rows idx)
    → slot < length idx.ids
    → length (vector_at idx slot) ≡ idx.dim
unfolding vector_at
length-vector_at idx slot t h =
    let room : slot * idx.dim + idx.dim ≤ length idx.ids * idx.dim = grind arith in
    omega (
      arith,
      length-take idx.dim (drop (slot * idx.dim) idx.storage),
      length-drop (slot * idx.dim) idx.storage,
      t.block,
    )

module _ (ops : F32Ops) {R : Type 0} (random : Randomness R) where
  -- The rows after an insert that succeeds.
  pub rows-insert_vector :
      (idx : HnswIndex R) (id : VectorId) (v : Vector) {idx' : HnswIndex R}
      → insert_vector ops random idx id v ≡ ok idx'
      → rows idx' ≡ pushed (rows idx) id (prepare ops idx.metric v)
  rows-insert_vector idx id v e =
      let (l, fresh, out) = insert_vector_ok ops random idx id v e in
      ap rows out
      ∙ rows-link_node ops (length idx.ids) (new_level ops random idx id v)
          (placed ops random idx id v)
      ∙ rows-placed ops random idx id v

  -- A new id with a vector of the right length is taken, and nothing else changes.
  pub insert_vector-total :
      (idx : HnswIndex R) (id : VectorId) (v : Vector)
      → length v ≡ idx.dim
      → contains idx id ≡ false
      → (idx' : HnswIndex R) × (insert_vector ops random idx id v ≡ ok idx')
        × (rows idx' ≡ pushed (rows idx) id (prepare ops idx.metric v))
        × ((key : VectorId) → contains idx' key ≡ (eqb id key || contains idx key))
  unfolding insert_vector contains
  insert_vector-total idx id v l fresh =
      let idx' =
        link_node ops (length idx.ids) (new_level ops random idx id v)
          (placed ops random idx id v) in
      let e : insert_vector ops random idx id v ≡ ok idx' =
        rw (l, eqb_refl idx.dim, fresh, insert_vector) refl in
      let same = rows-insert_vector idx id v e in
      (
        idx',
        e,
        same,
        λ key.
            ap (λ r. elim (lookup key r.slot_of) [ none ↦ false | some slot ↦ true ]) same
            ∙ ap (λ (o : Option ℕ). elim o [ none ↦ false | some slot ↦ true ])
                (lookup-insert id key (length idx.ids) idx.slot_of)
            ∙ ground arith,
      )

pub get_or-some :
    {A : Type 0} (xs : List A) (i : ℕ) (d : A)
    → i < length xs
    → get_elem? xs i ≡ some (get_or xs i d)
get_or-some [] i d h = elim h [ ]
get_or-some (x ∷ xs) zero d h = refl
get_or-some (x ∷ xs) (suc i) d h = get_or-some xs i d (omega arith)

module _ (ops : F32Ops) {R : Type 0} (random : Randomness R) (idx : HnswIndex R)
    (valid : IsTracked (rows idx)) where
  -- An id that is alive in a slot below `start`.
  below : ℕ → VectorId → Bool
  below start key = elim (lookup key idx.slot_of) [ none ↦ false | some s ↦ ltb s start ]

  -- A slot with its flag up adds no id, and one that is alive adds its own.
  below-dead :
      (start : ℕ) (key : VectorId)
      → get_elem? idx.deleted start ≡ some true
      → below (start + 1) key ≡ below start key
  unfolding below
  below-dead start key h = elim (Option-cases (lookup key idx.slot_of)) [
    | inl n ↦ ground arith
    | inr (s, e) ↦
        let (at, alive) = valid.placed key s e in
        let apart : s ≢ start = λ q. cc (ap (get_elem? idx.deleted) q) in ground arith
  ]

  below-alive :
      (start id : ℕ) (key : VectorId)
      → lookup id idx.slot_of ≡ some start
      → below (start + 1) key ≡ (eqb id key || below start key)
  unfolding below
  below-alive start id key h = elim (Option-cases (lookup key idx.slot_of)) [
    | inl n ↦
        let apart : id ≢ key = λ q. cc (ap (λ k. lookup k idx.slot_of) q) in
        ground (arith, eqb_iff id key)
    | inr (s, e) ↦
        let same : id ≡ key → start ≡ s =
          λ q. some_inj (sym h ∙ ap (λ k. lookup k idx.slot_of) q ∙ e) in
        let back : start ≡ s → id ≡ key = λ q.
          some_inj (
            sym (valid.placed id start h).0
            ∙ ap (get_elem? idx.ids) q
            ∙ (valid.placed key s e).0) in
        ground (arith, eqb_iff id key)
  ]

  below_self : (start id : ℕ) → lookup id idx.slot_of ≡ some start → below start id ≡ false
  unfolding below
  below_self start id h = ground arith

  below_none : (key : VectorId) → below 0 key ≡ false
  unfolding below
  below_none key = elim (Option-cases (lookup key idx.slot_of)) [
    | inl n ↦ ground arith
    | inr (s, e) ↦ ground arith
  ]

  below_all : (key : VectorId) → below (length idx.ids) key ≡ contains idx key
  unfolding below contains
  below_all key = elim (Option-cases (lookup key idx.slot_of)) [
    | inl n ↦ ground arith
    | inr (s, e) ↦ let inside = get_elem?-lt idx.ids s key (valid.placed key s e).0 in ground arith
  ]

  -- A copy in the making: valid, of the same dimension, with no tombstone and the ids below `start`.
  record IsCopy (start : ℕ) (fresh : HnswIndex R) : Type 0 where
    valid_copy : IsValid fresh
    same_dim : fresh.dim ≡ idx.dim
    clean : fresh.deleted_count ≡ 0
    same_ids : (key : VectorId) → contains fresh key ≡ below start key

  IsCopy-step :
      (start : ℕ) (fresh : HnswIndex R)
      → start < length idx.ids
      → get_or idx.deleted start false ≡ false
      → IsCopy start fresh
      → (next : HnswIndex R) × (insert_vector ops random fresh
            (get_or idx.ids start 0)
            (vector_at idx start)
          ≡ ok next)
        × IsCopy (start + 1) next
  IsCopy-step start fresh h alive copy =
      let id = get_or idx.ids start 0 in
      let at = get_or-some idx.ids start 0 h in
      let flag : get_elem? idx.deleted start ≡ some false =
        get_or-some idx.deleted start false (omega (arith, valid.flags)) ∙ ap some alive in
      let here = valid.mapped id start at flag in
      let absent : contains fresh id ≡ false = copy.same_ids id ∙ below_self start id here in
      let (next, e, same, ids) =
        insert_vector-total ops random fresh id (vector_at idx start)
          (length-vector_at idx start valid h ∙ sym copy.same_dim) absent in
      (
        next,
        e,
        record {
          valid_copy = insert_vector-IsValid ops random fresh id _ copy.valid_copy e;
          same_dim = ap (λ r. r.dim) same ∙ copy.same_dim;
          clean = ap (λ r. r.deleted_count) same ∙ copy.clean;
          same_ids = λ key.
              ids key
              ∙ ap (λ b. eqb id key || b) (copy.same_ids key)
              ∙ sym (below-alive start id key here);
        },
      )

  new-IsCopy : IsCopy 0 (new random idx.dim idx.metric idx.params)
  unfolding new contains lookup
  new-IsCopy = record {
    valid_copy = new-IsValid random idx.dim idx.metric idx.params;
    same_dim = refl;
    clean = refl;
    same_ids = λ key. sym (below_none key);
  }

  compact_loop-total :
      (n start : ℕ) (fresh : HnswIndex R)
      → start + n ≡ length idx.ids
      → IsCopy start fresh
      → (out : HnswIndex R) × (compact_loop ops random idx (range_from start n) fresh ≡ some out)
        × IsCopy (start + n) out
  unfolding compact_loop range_from
  compact_loop-total zero start fresh h copy =
      (fresh, refl, subst (λ m. IsCopy m fresh) (omega arith) copy)
  compact_loop-total (suc n) start fresh h copy =
      let shift : start + 1 + n ≡ start + suc n = omega arith in
      elim (Bool-cases (get_or idx.deleted start false)) [
        | inl dead ↦
            let flag : get_elem? idx.deleted start ≡ some true =
              get_or-some idx.deleted start false (omega (arith, valid.flags)) ∙ ap some dead in
            let (out, e, c) = compact_loop-total n (start + 1) fresh (omega arith) (record {
              valid_copy = copy.valid_copy;
              same_dim = copy.same_dim;
              clean = copy.clean;
              same_ids = λ key. copy.same_ids key ∙ sym (below-dead start key flag);
            }) in
            (out, rw dead e, subst (λ m. IsCopy m out) shift c)
        | inr alive ↦
            let (next, i, c') = IsCopy-step start fresh (omega arith) alive copy in
            let (out, e, c) = compact_loop-total n (start + 1) next (omega arith) c' in
            (out, rw (alive, i) e, subst (λ m. IsCopy m out) shift c)
      ]

  -- No insert of a compaction fails; it leaves a valid index without tombstones that holds the same
  -- ids.
  pub compact-total :
      (out : HnswIndex R) × (compact ops random idx ≡ some out)
      × IsValid out
      × (out.dim ≡ idx.dim)
      × (out.deleted_count ≡ 0)
      × ((key : VectorId) → contains out key ≡ contains idx key)
  unfolding compact
  compact-total =
      let n = length idx.ids in
      let (out, e, c) =
        compact_loop-total n 0 (new random idx.dim idx.metric idx.params) (omega arith)
          new-IsCopy in
      (
        out,
        e,
        c.valid_copy,
        c.same_dim,
        c.clean,
        λ key. c.same_ids key ∙ ap (λ m. below m key) (omega arith) ∙ below_all key,
      )
