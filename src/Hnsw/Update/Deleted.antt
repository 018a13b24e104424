-- ===== src/Hnsw/Update/Deleted.antt =====
-- A delete, with its new entry point and its compaction.
use gvector.Prelude.{
  ℕ, ◌<◌, ◌≡◌, refl, sym, ap, ◌∙◌, subst, ◌≢◌, ◌⊎◌, inl, inr, true, false, not, ◌&&◌, Option, none,
  some, arith, eqb, if◌then◌else◌, eqb_iff, Bool-cases, Option-cases, some_inj, length, get_elem?,
  get_elem?-set_ne, nat_key, string_key, lookup, lookup-erase,
}
use gvector.Types.{VectorId}
use gvector.Index.{ok, err, not_found}
use gvector.Distance.{F32Ops}
use gvector.Hnsw.{HnswIndex, Randomness, contains, levels_at}
use gvector.Hnsw.Layer.Found.{IsClosed}
use gvector.Hnsw.Update.{delete, bury, replace_entry, pick_new_entry}
use gvector.Hnsw.Update.Rows.{rows}
use gvector.Hnsw.Update.Tracked.{IsTracked, IsAlive, buried, buried-IsTracked}
use gvector.Hnsw.Update.Valid.{IsValid}
use gvector.Hnsw.Update.Compacted.{compact-total, contains-eq}
use gvector.Hnsw.Update.Picked.{pick_new_entry-IsValid}

module _ {R : Type 0} (idx : HnswIndex R) where
  rows-pick : rows (pick_new_entry idx) ≡ rows idx
  unfolding pick_new_entry
  rows-pick = refl

  links-pick : (pick_new_entry idx).links ≡ idx.links
  unfolding pick_new_entry
  links-pick = refl

module _ {R : Type 0} (idx : HnswIndex R) (id : VectorId) (slot : ℕ) (valid : IsValid idx)
    (here : lookup id idx.slot_of ≡ some slot) where
  abbrev after : HnswIndex R
  after = replace_entry slot (bury slot id idx)

  rows-bury : rows (bury slot id idx) ≡ buried (rows idx) id slot
  unfolding bury
  rows-bury = refl

  bury-same : ((bury slot id idx).links ≡ idx.links) × ((bury slot id idx).entry ≡ idx.entry)
  unfolding bury
  bury-same = (refl, refl)

  bury-IsTracked : IsTracked (rows (bury slot id idx))
  bury-IsTracked =
      subst IsTracked (sym rows-bury) (buried-IsTracked (rows idx) id valid.tracked slot here)

  -- Whatever the entry point was, the index is valid again.
  replaced :
      (x : HnswIndex R)
      → rows x ≡ rows (bury slot id idx)
      → x.links ≡ idx.links
      → ((e : ℕ)
          → x.entry ≡ some e
          → (0 < length (levels_at idx.links e)) × IsAlive (rows (bury slot id idx)) e)
      → (x.entry ≡ none → (key : VectorId) → lookup key (bury slot id idx).slot_of ≡ none)
      → IsValid x
  replaced x same links entered started = record {
    tracked = subst IsTracked (sym same) bury-IsTracked;
    nodes =
        ap length links
        ∙ valid.nodes
        ∙ ap (λ r. length r.ids) (sym rows-bury)
        ∙ ap (λ r. length r.ids) (sym same);
    tall = subst (λ l. (s : ℕ) → s < length l → 0 < length (levels_at l s)) (sym links) valid.tall;
    closed = subst IsClosed (sym links) valid.closed;
    entered = λ e q.
        let (h, alive) = entered e q in
        (
          subst (λ l. 0 < length (levels_at l e)) (sym links) h,
          ap (λ r. get_elem? r.deleted e) same ∙ alive,
        );
    started = λ q key. ap (λ r. lookup key r.slot_of) same ∙ started q key;
  }

  replace_entry-IsValid : IsValid after × (rows after ≡ rows (bury slot id idx))
  unfolding replace_entry
  replace_entry-IsValid = elim (Option-cases idx.entry) [
    | inl n ↦ absurd (cc (valid.started n id))
    | inr (e, q) ↦
        let gone = bury slot id idx in
        let entry : gone.entry ≡ some e = bury-same.1 ∙ q in
        elim (Bool-cases (eqb e slot)) [
          | inl same ↦
              let out : after ≡ pick_new_entry gone = ground arith in
              let (entered, started) =
                pick_new_entry-IsValid gone bury-IsTracked
                  (ap length bury-same.0 ∙ valid.nodes ∙ ap (λ r. length r.ids) (sym rows-bury))
                  (subst (λ l. (s : ℕ) → s < length l → 0 < length (levels_at l s))
                    (sym bury-same.0) valid.tall) in
              subst (λ x. IsValid x × (rows x ≡ rows gone)) (sym out)
                (
                  replaced (pick_new_entry gone) (rows-pick gone) (links-pick gone ∙ bury-same.0)
                      (λ e' p.
                        subst (λ l. (0 < length (levels_at l e')) × IsAlive (rows gone) e')
                          bury-same.0 (entered e' p))
                      started,
                  rows-pick gone,
                )
          | inr other ↦
              let out : after ≡ gone = ground arith in
              let (high, alive) = valid.entered e q in
              let apart : slot ≢ e = λ p. ground (arith, eqb_iff e slot) in
              subst (λ x. IsValid x × (rows x ≡ rows gone)) (sym out)
                (
                  replaced gone refl bury-same.0
                      (λ e' p.
                        let same : e ≡ e' = some_inj (sym entry ∙ p) in
                        subst (λ s. (0 < length (levels_at idx.links s)) × IsAlive (rows gone) s)
                          same
                          (
                            high,
                            ap (λ r. get_elem? r.deleted e) rows-bury
                                ∙ get_elem?-set_ne idx.deleted true apart
                                ∙ alive,
                          ))
                      (λ p. absurd (cc entry)),
                  refl,
                )
        ]
  ]

  erased :
      (key : VectorId)
      → (elim (if eqb id key then none else lookup key idx.slot_of) [
        | none ↦ false
        | some s ↦ true
      ])
        ≡ (not (eqb id key) && elim (lookup key idx.slot_of) [ none ↦ false | some s ↦ true ])
  erased key = ground arith

  after-contains : (key : VectorId) → contains after key ≡ (not (eqb id key) && contains idx key)
  after-contains key =
      contains-eq after key
      ∙ ap (λ r. elim (lookup key r.slot_of) [ none ↦ false | some s ↦ true ])
          (replace_entry-IsValid.1 ∙ rows-bury)
      ∙ ap (λ (o : Option ℕ). elim o [ none ↦ false | some s ↦ true ])
          (lookup-erase id key idx.slot_of)
      ∙ erased key
      ∙ ap (λ b. not (eqb id key) && b) (sym (contains-eq idx key))

-- On a valid index, a delete refuses an id that is not there. Any other id is taken out, whether or
-- not the delete compacts, and no insert of the compaction fails; every other id stays, and the index
-- is valid again.
pub delete-total :
    (ops : F32Ops) {R : Type 0} (random : Randomness R) (idx : HnswIndex R) (id : VectorId)
    → IsValid idx
    → ((contains idx id ≡ false) × (delete ops random idx id ≡ some (err (not_found id))))
      ⊎ ((contains idx id ≡ true)
          × ((idx' : HnswIndex R) × (delete ops random idx id ≡ some (ok idx'))
              × IsValid idx'
              × ((key : VectorId) → contains idx' key ≡ (not (eqb id key) && contains idx key))))
unfolding delete
delete-total ops random idx id valid = elim (Option-cases (lookup id idx.slot_of)) [
  | inl n ↦ inl (contains-eq idx id ∙ ground arith, ground arith)
  | inr (slot, here) ↦
      let gone = after idx id slot valid here in
      let (v, same) = replace_entry-IsValid idx id slot valid here in
      let ids = after-contains idx id slot valid here in
      let ratio =
        random.div (random.of_usize gone.deleted_count) (random.of_usize (length gone.ids)) in
      inr (
        contains-eq idx id ∙ ground arith,
        elim (Bool-cases (random.ge ratio gone.params.tombstone_threshold)) [
          | inl full ↦
              let (out, e, ok_out, _, _, held) = compact-total ops random gone v.tracked in
              (out, ground arith, ok_out, λ key. held key ∙ ids key)
          | inr roomy ↦ (gone, ground arith, v, ids)
        ],
      )
]
