-- ===== src/Hnsw/Update/Inserted.antt =====
-- An insert keeps the index valid.
use gvector.Prelude.{
  ℕ, ◌+◌, ◌<◌, ◌≡◌, refl, sym, ap, ◌∙◌, subst, ◌≢◌, ◌⊎◌, inl, inr, false, none, some, [], ◌∷◌,
  arith, Option-cases, some_inj, length, get_elem?, replicate, length-append, get_elem?-lt,
  get_elem?-append_left, get_elem?-append_here, nat_key, string_key,
}
use gvector.Types.{VectorId, Vector}
use gvector.Index.{ok}
use gvector.Distance.{F32Ops}
use gvector.Hnsw.{HnswIndex, Randomness, levels_at}
use gvector.Hnsw.Layer.Found.{HasLevel, IsClosed}
use gvector.Hnsw.Update.{link_node, link_from, insert_vector}
use gvector.Hnsw.Update.Links.{Kept, link_from-Kept}
use gvector.Hnsw.Update.Rows.{rows, rows-link_node}
use gvector.Hnsw.Update.Tracked.{IsTracked, IsAlive}
use gvector.Hnsw.Update.Valid.{
  IsValid, placed, new_level, placed-IsTracked, insert_vector_ok, with_node-here, with_node-tall,
  with_node-IsClosed, with_node-HasLevel, links-placed, rows-placed,
}

-- What linking a node has to leave: the rows, the heights and a closed graph, and an entry point.
pub record IsLinked {R : Type 0} (before after : HnswIndex R) (slot : ℕ) : Type 0 where
  pub same_rows : rows after ≡ rows before
  pub kept : Kept after before
  pub from : (after.entry ≡ some slot) ⊎ (after.entry ≡ before.entry)
  pub entry_some : after.entry ≢ none

module _ (ops : F32Ops) {R : Type 0} where
  link_node-IsLinked :
      (slot level : ℕ) (idx : HnswIndex R)
      → IsClosed idx.links
      → HasLevel idx.links level slot
      → ((e : ℕ) → idx.entry ≡ some e → HasLevel idx.links 0 e)
      → IsLinked idx (link_node ops slot level idx) slot
  unfolding link_node
  link_node-IsLinked slot level idx closed at_slot at_entry = elim (Option-cases idx.entry) [
    | inl e ↦
        let out : link_node ops slot level idx ≡ record idx { entry = some slot } = ground arith in
        subst (λ x. IsLinked idx x slot) (sym out)
          (record {
            same_rows = refl;
            kept = (closed, (λ s. refl), refl);
            from = inl refl;
            entry_some = λ q. cc;
          })
    | inr (entry, e) ↦
        let out : link_node ops slot level idx ≡ link_from ops slot level entry idx =
          ground arith in
        let (kept, from) =
          link_from-Kept ops slot level entry idx closed at_slot (at_entry entry e) in
        subst (λ x. IsLinked idx x slot) (sym out)
          (record {
            same_rows = ap rows (sym out) ∙ rows-link_node ops slot level idx;
            kept = kept;
            from = from;
            entry_some = λ q. elim from [ inl f ↦ cc | inr f ↦ cc ];
          })
  ]

module _ (ops : F32Ops) {R : Type 0} (random : Randomness R) (idx : HnswIndex R) (id : VectorId)
    (v : Vector) (valid : IsValid idx) where
  abbrev at_end : HnswIndex R
  at_end = placed ops random idx id v

  new-alive : IsAlive (rows at_end) (length idx.ids)
  new-alive =
      ap (λ r. get_elem? r.deleted (length idx.ids)) (rows-placed ops random idx id v)
      ∙ get_elem?-append_here idx.deleted [] false (length idx.ids) (sym valid.tracked.flags)

  old-alive : (e : ℕ) → IsAlive (rows idx) e → IsAlive (rows at_end) e
  old-alive e h =
      ap (λ r. get_elem? r.deleted e) (rows-placed ops random idx id v)
      ∙ get_elem?-append_left idx.deleted (false ∷ []) e (get_elem?-lt idx.deleted e false h)
      ∙ h

  linked-IsValid :
      (after : HnswIndex R)
      → IsTracked (rows at_end)
      → IsLinked at_end after (length idx.ids)
      → IsValid after
  linked-IsValid after tracked l =
      let level = new_level ops random idx id v in
      let (links, entry) = links-placed ops random idx id v in
      let (closed, same, len) = l.kept in
      let tall =
        subst (λ x. (s : ℕ) → s < length x → HasLevel x 0 s) (sym links)
          (with_node-tall idx.links level valid.tall) in
      record {
        tracked = subst IsTracked (sym l.same_rows) tracked;
        nodes =
            len
            ∙ ap length links
            ∙ length-append idx.links (replicate (level + 1) [] ∷ [])
            ∙ ap (λ n. n + 1) valid.nodes
            ∙ sym (length-append idx.ids (id ∷ []))
            ∙ ap (λ r. length r.ids) (sym (l.same_rows ∙ rows-placed ops random idx id v));
        tall = λ s h. omega (arith, tall s (omega (arith, len)), same s);
        closed = closed;
        entered = λ e h. elim l.from [
          | inl f ↦
              let here : length idx.ids ≡ e = some_inj (sym f ∙ h) in
              subst (λ s. HasLevel after.links 0 s × IsAlive (rows after) s) here
                (
                  omega (
                    arith,
                    same (length idx.ids),
                    tall (length idx.ids) (
                        omega (
                          arith,
                          ap length links,
                          length-append idx.links (replicate (level + 1) [] ∷ []),
                          valid.nodes,
                        )),
                  ),
                  ap (λ r. get_elem? r.deleted (length idx.ids)) l.same_rows ∙ new-alive,
                )
          | inr f ↦
              let (high, alive) = valid.entered e (sym entry ∙ sym f ∙ h) in
              let there = with_node-HasLevel idx.links level 0 e high in
              (
                omega (arith, same e, ap (λ x. length (levels_at x e)) links, there),
                ap (λ r. get_elem? r.deleted e) l.same_rows ∙ old-alive e alive,
              )
        ];
        started = λ e. absurd (l.entry_some e);
      }

-- An insert that succeeds keeps the rows in step and every edge and the entry point within bounds.
pub insert_vector-IsValid :
    (ops : F32Ops) {R : Type 0} (random : Randomness R) (idx : HnswIndex R) (id : VectorId)
    (v : Vector) {idx' : HnswIndex R}
    → IsValid idx
    → insert_vector ops random idx id v ≡ ok idx'
    → IsValid idx'
insert_vector-IsValid ops random idx id v valid e =
    let (l, fresh, out) = insert_vector_ok ops random idx id v e in
    let level = new_level ops random idx id v in
    let (links, entry) = links-placed ops random idx id v in
    rw out (
      linked-IsValid ops random idx id v valid _
        (placed-IsTracked ops random idx id v valid l fresh)
        (link_node-IsLinked ops (length idx.ids) level (placed ops random idx id v)
          (subst IsClosed (sym links) (with_node-IsClosed idx.links level valid.closed))
          (subst (λ n. HasLevel (placed ops random idx id v).links level n) valid.nodes
            (subst (λ x. HasLevel x level (length idx.links)) (sym links)
              (with_node-here idx.links level)))
          (λ e q.
            subst (λ x. HasLevel x 0 e) (sym links)
              (with_node-HasLevel idx.links level 0 e (valid.entered e (sym entry ∙ q)).0))))
