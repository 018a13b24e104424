-- ===== src/Segmented/Insert.antt =====
-- What an insert does to the living copies of every id.
use gvector.Prelude.{
  ℕ, ◌+◌, ◌<◌, ◌≡◌, refl, sym, ap, ◌∙◌, subst, ◌⊎◌, inl, inr, Bool, true, false, [], ◌∷◌, ◌++◌, map,
  append_assoc, arith, ltb, leb, eqb, if◌then◌else◌, eqb_iff, Bool-cases, length, nat_key,
  string_key,
}
use gvector.Types.{VectorId, Vector}
use gvector.Index.{ok, err, Result-cases, duplicate_id}
use gvector.Distance.{F32Ops}
use gvector.BruteForce.{BruteForceIndex, insert_vector, contains, len, new as new_index}
use gvector.BruteForce.Invariant.{IsValid}
use gvector.BruteForce.Contains.{contains-insert_vector, contains-new, insert_vector-total}
use gvector.Segmented.{
  Graph, Part, SegmentedIndex, contains_live, validate_insert, seal, buffered, apply_insert,
  insert_shared,
}
use gvector.Segmented.Live.{
  mark, marks, buffer_mark, copies, alive_count, alive_count-append, alive_any-append,
  alive_any-count, alive_any-map, map-snoc,
}

module _ {G : Type 0} (ops : F32Ops) (graph : Graph G) where
  -- An id is reported alive exactly when some source has a living copy.
  pub contains_live-copies :
      (idx : SegmentedIndex G) (id : VectorId)
      → contains_live ops graph idx id ≡ ltb 0 (copies graph idx id)
  unfolding contains_live copies
  contains_live-copies idx id =
      let segs = map (mark graph.has_node id) idx.segments in
      let seals = map (mark contains id) idx.sealing in
      let last = buffer_mark idx.buffer id ∷ [] in
      ground (
        arith,
        alive_any-append segs (seals ++ last),
        alive_any-append seals last,
        alive_any-count (marks graph idx id),
        alive_any-map graph.has_node id idx.segments,
        alive_any-map contains id idx.sealing,
      )

  -- The marks of an index whose buffer joins those being sealed.
  pub marks-sealed :
      (idx : SegmentedIndex G) (id : VectorId) (n : ℕ) (fresh : BruteForceIndex)
      → marks graph
          (record idx {
            buffer = fresh;
            sealing =
                idx.sealing ++ (record { ticket = n; data_of = idx.buffer; tombstones = [] } ∷ []);
          })
          id
        ≡ marks graph idx id ++ (buffer_mark fresh id ∷ [])
  marks-sealed idx id n fresh =
      let segs = map (mark graph.has_node id) idx.segments in
      let seals = map (mark contains id) idx.sealing in
      let part : Part BruteForceIndex = record {
        ticket = n;
        data_of = idx.buffer;
        tombstones = [];
      } in
      let same : mark contains id part ≡ buffer_mark idx.buffer id =
        ap (λ b. record { holds = contains idx.buffer id; alive = b }) (ground arith) in
      let old = buffer_mark idx.buffer id in
      let new = buffer_mark fresh id ∷ [] in
      ap (◌++◌ segs) (
        map-snoc (mark contains id) idx.sealing part new
        ∙ ap (λ m. seals ++ (m ∷ new)) same
        ∙ sym (append_assoc seals (old ∷ []) new))
      ∙ sym (
          append_assoc segs (seals ++ (buffer_mark idx.buffer id ∷ [])) (buffer_mark fresh id ∷ []))

  -- A seal moves no id.
  pub copies-seal :
      (idx : SegmentedIndex G) (id : VectorId)
      → copies graph (seal ops graph idx) id ≡ copies graph idx id
  unfolding seal copies alive_count
  copies-seal idx id = elim (Bool-cases (eqb (len idx.buffer) 0)) [
    | inl e ↦ rw e refl
    | inr e ↦ rw e (
        ap alive_count (marks-sealed idx id idx.next_ticket (new_index idx.dim idx.metric))
        ∙ alive_count-append (marks graph idx id)
            (buffer_mark (new_index idx.dim idx.metric) id ∷ [])
        ∙ ground (arith, contains-new idx.dim idx.metric id))
  ]

  -- Another buffer changes only the last mark.
  pub copies-buffer :
      (idx : SegmentedIndex G) (id : VectorId) (buffer : BruteForceIndex)
      → copies graph (record idx { buffer = buffer }) id + (if contains idx.buffer id then 1 else 0)
        ≡ copies graph idx id + (if contains buffer id then 1 else 0)
  unfolding copies alive_count
  copies-buffer idx id buffer =
      let segs = map (mark graph.has_node id) idx.segments in
      let seals = map (mark contains id) idx.sealing in
      omega (
        arith,
        alive_count-append segs (seals ++ (buffer_mark idx.buffer id ∷ [])),
        alive_count-append segs (seals ++ (buffer_mark buffer id ∷ [])),
        alive_count-append seals (buffer_mark idx.buffer id ∷ []),
        alive_count-append seals (buffer_mark buffer id ∷ []),
      )

  -- An insert that succeeds found the id nowhere alive, and a buffer that takes it.
  pub insert_shared_ok :
      (idx : SegmentedIndex G) (id : VectorId) (v : Vector) (idx' : SegmentedIndex G)
      → insert_shared ops graph idx id v ≡ ok idx'
      → (contains_live ops graph idx id ≡ false)
        × (length v ≡ idx.dim)
        × ((buffer : BruteForceIndex) × (insert_vector ops idx.buffer id v ≡ ok buffer)
            × (idx' ≡ (
                if leb idx.seal_threshold (len buffer)
                then seal ops graph (record idx { buffer = buffer })
                else record idx { buffer = buffer })))
  unfolding insert_shared validate_insert apply_insert buffered contains_live
  insert_shared_ok idx id v idx' e = elim (Result-cases (insert_vector ops idx.buffer id v)) [
    | inl (buffer, s) ↦ (ground (arith, s), ground (arith, s), (buffer, s, ground (arith, s)))
    | inr (why, s) ↦ absurd (ground (arith, s))
  ]

  -- Whether or not the buffer is sealed, the copies are those of the index with the new buffer.
  copies-sealed_if :
      (idx : SegmentedIndex G) (key : VectorId) (b : Bool)
      → copies graph (if b then seal ops graph idx else idx) key ≡ copies graph idx key
  copies-sealed_if idx key true = copies-seal idx key
  copies-sealed_if idx key false = refl

  pub dead_buffer :
      (idx : SegmentedIndex G) (id : VectorId)
      → contains_live ops graph idx id ≡ false
      → contains idx.buffer id ≡ false
  unfolding contains_live
  dead_buffer idx id e = ground (arith, e)

  -- After an insert that succeeds the id has one living copy, and every other id as many as before.
  pub insert_shared-copies :
      (idx : SegmentedIndex G) (id key : VectorId) (v : Vector) (idx' : SegmentedIndex G)
      → IsValid idx.buffer
      → insert_shared ops graph idx id v ≡ ok idx'
      → copies graph idx' key ≡ (if eqb id key then 1 else copies graph idx key)
  insert_shared-copies idx id key v idx' valid e =
      let (dead, l, (buffer, s, z)) = insert_shared_ok idx id v idx' e in
      let held = contains-insert_vector ops idx.buffer id key v valid s in
      let moved = copies-buffer idx key buffer in
      let sealed =
        ap (λ x. copies graph x key) z
        ∙ copies-sealed_if (record idx { buffer = buffer }) key
            (leb idx.seal_threshold (len buffer)) in
      let none_left : copies graph idx id ≡ 0 = ground (arith, contains_live-copies idx id, dead) in
      let absent : contains idx.buffer id ≡ false = dead_buffer idx id dead in
      elim (Bool-cases (eqb id key)) [
        | inl q ↦
            let same : id ≡ key = (eqb_iff id key).0 q in
            ground (
              arith,
              held,
              moved,
              sealed,
              q,
              subst (λ k. copies graph idx k ≡ 0) same none_left,
              subst (λ k. contains idx.buffer k ≡ false) same absent,
            )
        | inr q ↦ ground (arith, held, moved, sealed, q)
      ]

  -- A new vector of the index's dimension is taken exactly when the id is alive nowhere, and
  -- otherwise refused as a duplicate.
  pub insert_shared_total :
      (idx : SegmentedIndex G) (id : VectorId) (v : Vector)
      → idx.buffer.dim ≡ idx.dim
      → length v ≡ idx.dim
      → ((copies graph idx id ≡ 0)
          × ((idx' : SegmentedIndex G) × (insert_shared ops graph idx id v ≡ ok idx')))
        ⊎ ((0 < copies graph idx id) × (insert_shared ops graph idx id v ≡ err (duplicate_id id)))
  unfolding insert_shared validate_insert apply_insert buffered contains_live
  insert_shared_total idx id v d l = elim (Bool-cases (contains_live ops graph idx id)) [
    | inl live ↦ inr (ground (arith, contains_live-copies idx id, live), ground (arith, l, live))
    | inr dead ↦
        let (buffer, s) =
          insert_vector-total ops idx.buffer id v (l ∙ sym d) (dead_buffer idx id dead) in
        inl (
          ground (arith, contains_live-copies idx id, dead),
          elim (Result-cases (insert_shared ops graph idx id v)) [
            | inl taken ↦ taken
            | inr (why, z) ↦ absurd (ground (arith, l, dead, s, z))
          ],
        )
  ]
