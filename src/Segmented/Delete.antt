-- ===== src/Segmented/Delete.antt =====
-- What a delete does to the living copies of every id.
use gvector.Prelude.{
  ◌+◌, ◌≤◌, ◌<◌, ◌≡◌, refl, ap, ◌∙◌, subst, ◌⊎◌, inl, inr, true, not, ◌&&◌, some, [], ◌∷◌, ◌++◌,
  map, arith, eqb, if◌then◌else◌, eqb_iff, Bool-cases, Option-cases, nat_key, string_key,
}
use gvector.Types.{VectorId}
use gvector.Index.{ok, err, not_found}
use gvector.Distance.{F32Ops}
use gvector.BruteForce.{BruteForceIndex, contains}
use gvector.BruteForce.Invariant.{IsValid}
use gvector.BruteForce.Contains.{contains-delete, delete-missing, delete-total}
use gvector.Segmented.{
  Graph, SegmentedIndex, bury_newest, contains_live, delete_segment, delete_sealing,
  delete_buffered, delete_vector_only, delete_shared,
}
use gvector.Segmented.Live.{
  mark, marks, buffer_mark, copies, IsUnshadowed, alive_count, alive_count-append,
  holding_any-append, alive_none, mark-IsHeld, IsUnshadowed-append, unshadowed_left,
  unshadowed-copies,
}
use gvector.Segmented.Insert.{contains_live-copies, copies-buffer}
use gvector.Segmented.Bury.{bury-none, bury-some, bury-dead, part_marks}

module _ {G : Type 0} (ops : F32Ops) (graph : Graph G) where
  copies-split :
      (idx : SegmentedIndex G) (key : VectorId)
      → copies graph idx key
        ≡ alive_count (map (mark graph.has_node key) idx.segments)
          + (alive_count (map (mark contains key) idx.sealing)
              + (if contains idx.buffer key then 1 else 0))
  unfolding copies alive_count
  copies-split idx key =
      let segs = map (mark graph.has_node key) idx.segments in
      let seals = map (mark contains key) idx.sealing in
      let last = buffer_mark idx.buffer key ∷ [] in
      omega (arith, alive_count-append segs (seals ++ last), alive_count-append seals last)

  delete_segment-copies :
      (idx : SegmentedIndex G) (id key : VectorId) (idx' : SegmentedIndex G)
      → delete_segment ops graph idx id ≡ ok idx'
      → copies graph idx' key + (if eqb id key then 1 else 0) ≡ copies graph idx key
  unfolding delete_segment
  delete_segment-copies idx id key idx' e =
      elim (Option-cases (bury_newest graph.has_node id idx.segments)) [
        | inl n ↦ absurd (cc (rw (n, delete_segment) at e))
        | inr ((b, parts), s) ↦
            let (held, counts) = bury-some graph.has_node id idx.segments b parts s in
            let e' = rw (s, delete_segment) at e in
            elim (Bool-cases b) [
              | inl live ↦
                  let same : record idx { segments = parts } ≡ idx' =
                    cc (rw (live, delete_segment) at e') in
                  subst
                    (λ x. copies graph x key + (if eqb id key then 1 else 0) ≡ copies graph idx key)
                    same
                    (omega (
                      arith,
                      copies-split idx key,
                      copies-split (record idx { segments = parts }) key,
                      rw live at (counts key),
                    ))
              | inr dead ↦ absurd (cc (rw (dead, delete_segment) at e'))
            ]
      ]

  delete_sealing-copies :
      (idx : SegmentedIndex G) (id key : VectorId) (idx' : SegmentedIndex G)
      → delete_sealing ops graph idx id ≡ ok idx'
      → copies graph idx' key + (if eqb id key then 1 else 0) ≡ copies graph idx key
  unfolding delete_sealing
  delete_sealing-copies idx id key idx' e =
      elim (Option-cases (bury_newest contains id idx.sealing)) [
        | inl n ↦ delete_segment-copies idx id key idx' (rw (n, delete_sealing) at e)
        | inr ((b, parts), s) ↦
            let (held, counts) = bury-some contains id idx.sealing b parts s in
            let e' = rw (s, delete_sealing) at e in
            elim (Bool-cases b) [
              | inl live ↦
                  let same : record idx { sealing = parts } ≡ idx' =
                    cc (rw (live, delete_sealing) at e') in
                  subst
                    (λ x. copies graph x key + (if eqb id key then 1 else 0) ≡ copies graph idx key)
                    same
                    (omega (
                      arith,
                      copies-split idx key,
                      copies-split (record idx { sealing = parts }) key,
                      rw live at (counts key),
                    ))
              | inr dead ↦ absurd (cc (rw (dead, delete_sealing) at e'))
            ]
      ]

  -- The buffer that is left by a delete.
  left :
      (idx : SegmentedIndex G) (id key : VectorId) (buffer : BruteForceIndex)
      → contains idx.buffer id ≡ true
      → contains buffer key ≡ (not (eqb id key) && contains idx.buffer key)
      → copies graph (record idx { buffer = buffer }) key + (if eqb id key then 1 else 0)
        ≡ copies graph idx key
  left idx id key buffer held h = elim (Bool-cases (eqb id key)) [
    | inl q ↦ ground (
      arith,
      q,
      copies-buffer ops graph idx key buffer,
      subst (λ k. contains idx.buffer k ≡ true) ((eqb_iff id key).0 q) held,
    )
    | inr q ↦ ground (arith, q, copies-buffer ops graph idx key buffer)
  ]

  -- A delete that succeeds takes away one copy of the id, and none of another.
  pub delete_vector_only-copies :
      (idx : SegmentedIndex G) (id key : VectorId) (idx' : SegmentedIndex G)
      → IsValid idx.buffer
      → delete_vector_only ops graph idx id ≡ ok idx'
      → copies graph idx' key + (if eqb id key then 1 else 0) ≡ copies graph idx key
  unfolding delete_vector_only delete_buffered
  delete_vector_only-copies idx id key idx' valid e = elim (Bool-cases (contains idx.buffer id)) [
    | inl held ↦
        let (buffer, s) = delete-total idx.buffer id held in
        let same : record idx { buffer = buffer } ≡ idx' =
          cc (rw (s, delete_vector_only, delete_buffered) at e) in
        subst (λ x. copies graph x key + (if eqb id key then 1 else 0) ≡ copies graph idx key) same
          (left idx id key buffer held (contains-delete idx.buffer id key valid s))
    | inr free ↦
        delete_sealing-copies idx id key idx'
          (rw (delete-missing idx.buffer id free, delete_vector_only, delete_buffered) at e)
  ]

  delete_segment-total :
      (idx : SegmentedIndex G) (id : VectorId)
      → IsUnshadowed (part_marks graph.has_node idx.segments id)
      → 0 < alive_count (part_marks graph.has_node idx.segments id)
      → (idx' : SegmentedIndex G) × (delete_segment ops graph idx id ≡ ok idx')
  unfolding delete_segment
  delete_segment-total idx id u live =
      elim (Option-cases (bury_newest graph.has_node id idx.segments)) [
        | inl n ↦ absurd (
            omega (
              arith,
              alive_none (part_marks graph.has_node idx.segments id)
                  (mark-IsHeld graph.has_node id idx.segments)
                  (bury-none graph.has_node id idx.segments n),
            ))
        | inr ((b, parts), s) ↦ elim (Bool-cases b) [
          | inl t ↦ (record idx { segments = parts }, rw (s, t, delete_segment) refl)
          | inr f ↦ absurd (
              omega (
                arith,
                bury-dead graph.has_node id idx.segments parts u (s ∙ ap (λ z. some (z, parts)) f),
              ))
        ]
      ]

  -- Where a living copy is the newest one, an id that is alive is deleted.
  pub delete_vector_only-total :
      (idx : SegmentedIndex G) (id : VectorId)
      → IsUnshadowed (marks graph idx id)
      → 0 < copies graph idx id
      → (idx' : SegmentedIndex G) × (delete_vector_only ops graph idx id ≡ ok idx')
  unfolding delete_vector_only delete_buffered delete_sealing
  delete_vector_only-total idx id u live =
      let segs = part_marks graph.has_node idx.segments id in
      let seals = part_marks contains idx.sealing id in
      let last = buffer_mark idx.buffer id ∷ [] in
      let (us, ub) = IsUnshadowed-append segs (seals ++ last) u in
      let (ul, un) = IsUnshadowed-append seals last ub in
      elim (Bool-cases (contains idx.buffer id)) [
        | inl held ↦
            let (buffer, s) = delete-total idx.buffer id held in
            (record idx { buffer = buffer }, rw (s, delete_vector_only, delete_buffered) refl)
        | inr free ↦
            let missing = delete-missing idx.buffer id free in
            elim (Option-cases (bury_newest contains id idx.sealing)) [
              | inl n ↦
                  let gone =
                    alive_none seals (mark-IsHeld contains id idx.sealing)
                      (bury-none contains id idx.sealing n) in
                  let (idx', d) =
                    delete_segment-total idx id us (ground (arith, gone, copies-split idx id)) in
                  (
                    idx',
                    rw (missing, delete_vector_only, delete_buffered) (rw (n, delete_sealing) d),
                  )
              | inr ((b, parts), s) ↦ elim (Bool-cases b) [
                | inl t ↦ (
                  record idx { sealing = parts },
                  rw (missing, delete_vector_only, delete_buffered)
                      (rw (s, t, delete_sealing) refl),
                )
                | inr f ↦
                    let dead =
                      bury-dead contains id idx.sealing parts ul
                        (s ∙ ap (λ z. some (z, parts)) f) in
                    let (held, counts) = bury-some contains id idx.sealing b parts s in
                    let below =
                      unshadowed_left segs (seals ++ last) u
                        (ground (arith, holding_any-append seals last, held)) in
                    absurd (ground (arith, dead, below, copies-split idx id))
              ]
            ]
      ]

  -- Where the living copies of an id are the newest, `delete_shared` succeeds exactly on an id that
  -- is alive, and then leaves none of its copies and every other id's.
  pub delete_shared-copies :
      (idx : SegmentedIndex G) (id : VectorId)
      → IsValid idx.buffer
      → IsUnshadowed (marks graph idx id)
      → ((copies graph idx id ≡ 0) × (delete_shared ops graph idx id ≡ err (not_found id)))
        ⊎ ((idx' : SegmentedIndex G) × (delete_shared ops graph idx id ≡ ok idx')
            × ((key : VectorId)
                → copies graph idx' key ≡ (if eqb id key then 0 else copies graph idx key)))
  unfolding delete_shared
  delete_shared-copies idx id valid u =
      let once = unshadowed-copies graph idx id u in
      let known = contains_live-copies ops graph idx id in
      elim (Bool-cases (contains_live ops graph idx id)) [
        | inr dead ↦ inl (ground (arith, known, dead), rw (dead, delete_shared) refl)
        | inl live ↦
            let (idx', d) = delete_vector_only-total idx id u (ground (arith, known, live)) in
            inr (
              idx',
              rw (live, delete_shared) d,
              λ key.
                  let counted = delete_vector_only-copies idx id key idx' valid d in
                  elim (Bool-cases (eqb id key)) [
                    | inl q ↦ ground (
                      arith,
                      q,
                      counted,
                      subst (λ k. copies graph idx k ≤ 1) ((eqb_iff id key).0 q) once,
                    )
                    | inr q ↦ ground (arith, q, counted)
                  ],
            )
      ]
