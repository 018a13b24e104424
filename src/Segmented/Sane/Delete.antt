-- ===== src/Segmented/Sane/Delete.antt =====
-- src/index/segmented.rs, `delete_vector_only`: a sane index stays sane.
use gvector.Prelude.{
  ◌≡◌, refl, ◌∙◌, subst, inl, inr, [], ◌∷◌, ◌++◌, map, arith, Bool-cases, Option-cases, nat_key,
  string_key,
}
use gvector.Types.{VectorId}
use gvector.Index.{ok}
use gvector.Distance.{F32Ops}
use gvector.BruteForce.{contains}
use gvector.BruteForce.Invariant.{IsValid, delete-IsValid}
use gvector.BruteForce.Contains.{contains-delete, delete-dim, delete-total, delete-missing}
use gvector.Segmented.{
  Graph, SegmentedIndex, bury_newest, delete_vector_only, delete_segment, delete_sealing,
  delete_buffered,
}
use gvector.Segmented.Live.{mark, buffer_mark}
use gvector.Segmented.Below.{
  Below-refl, Below-append, Below-IsUnshadowed, bury-Below, bury-All, bury-IsTicketed,
}
use gvector.Segmented.Sane.{IsSane, buffer-IsUnshadowed}

module _ {G : Type 0} (ops : F32Ops) (graph : Graph G) where
  delete_segment-IsSane :
      (idx : SegmentedIndex G) (id : VectorId) (idx' : SegmentedIndex G)
      → IsSane ops graph idx
      → delete_segment ops graph idx id ≡ ok idx'
      → IsSane ops graph idx' × (idx'.dim ≡ idx.dim)
  unfolding delete_segment
  delete_segment-IsSane idx id idx' s e =
      elim (Option-cases (bury_newest graph.has_node id idx.segments)) [
        | inl n ↦ absurd (cc (rw (n, delete_segment) at e))
        | inr ((b, parts), q) ↦ elim (Bool-cases b) [
          | inr f ↦ absurd (cc (rw (f, delete_segment) at (rw (q, delete_segment) at e)))
          | inl t ↦
              let same : record idx { segments = parts } ≡ idx' =
                cc (rw (t, delete_segment) at (rw (q, delete_segment) at e)) in
              subst (λ x. IsSane ops graph x × (x.dim ≡ idx.dim)) same
                (
                  record {
                    buffer_valid = s.buffer_valid;
                    buffer_dim = s.buffer_dim;
                    sealing_valid = s.sealing_valid;
                    tickets = s.tickets;
                    unshadowed = λ key.
                        let rest =
                          map (mark contains key) idx.sealing
                          ++ (buffer_mark idx.buffer key ∷ []) in
                        Below-IsUnshadowed (map (mark graph.has_node key) parts ++ rest)
                          (map (mark graph.has_node key) idx.segments ++ rest)
                          (Below-append (map (mark graph.has_node key) parts)
                            (map (mark graph.has_node key) idx.segments) rest rest
                            (bury-Below graph.has_node id key idx.segments parts b q)
                            (Below-refl rest))
                          (s.unshadowed key);
                  },
                  refl,
                )
        ]
      ]

  delete_sealing-IsSane :
      (idx : SegmentedIndex G) (id : VectorId) (idx' : SegmentedIndex G)
      → IsSane ops graph idx
      → delete_sealing ops graph idx id ≡ ok idx'
      → IsSane ops graph idx' × (idx'.dim ≡ idx.dim)
  unfolding delete_sealing
  delete_sealing-IsSane idx id idx' s e =
      elim (Option-cases (bury_newest contains id idx.sealing)) [
        | inl n ↦ delete_segment-IsSane idx id idx' s (rw (n, delete_sealing) at e)
        | inr ((b, parts), q) ↦ elim (Bool-cases b) [
          | inr f ↦ absurd (cc (rw (f, delete_sealing) at (rw (q, delete_sealing) at e)))
          | inl t ↦
              let same : record idx { sealing = parts } ≡ idx' =
                cc (rw (t, delete_sealing) at (rw (q, delete_sealing) at e)) in
              subst (λ x. IsSane ops graph x × (x.dim ≡ idx.dim)) same
                (
                  record {
                    buffer_valid = s.buffer_valid;
                    buffer_dim = s.buffer_dim;
                    sealing_valid =
                        bury-All contains (λ p. IsValid p.data_of × (p.data_of.dim ≡ idx.dim))
                          (λ i p h. h) id idx.sealing parts b q s.sealing_valid;
                    tickets =
                        bury-IsTicketed contains idx.next_ticket id idx.sealing parts b q s.tickets;
                    unshadowed = λ key.
                        let segs = map (mark graph.has_node key) idx.segments in
                        let last = buffer_mark idx.buffer key ∷ [] in
                        let old = map (mark contains key) idx.sealing in
                        let new = map (mark contains key) parts in
                        Below-IsUnshadowed (segs ++ (new ++ last)) (segs ++ (old ++ last))
                          (Below-append segs segs (new ++ last) (old ++ last) (Below-refl segs) (
                            Below-append new old last last
                              (bury-Below contains id key idx.sealing parts b q) (Below-refl last)))
                          (s.unshadowed key);
                  },
                  refl,
                )
        ]
      ]

  pub delete_vector_only-IsSane :
      (idx : SegmentedIndex G) (id : VectorId) (idx' : SegmentedIndex G)
      → IsSane ops graph idx
      → delete_vector_only ops graph idx id ≡ ok idx'
      → IsSane ops graph idx' × (idx'.dim ≡ idx.dim)
  unfolding delete_vector_only delete_buffered
  delete_vector_only-IsSane idx id idx' s e = elim (Bool-cases (contains idx.buffer id)) [
    | inr free ↦
        delete_sealing-IsSane idx id idx' s
          (rw (delete-missing idx.buffer id free, delete_vector_only, delete_buffered) at e)
    | inl held ↦
        let (buffer, t) = delete-total idx.buffer id held in
        let same : record idx { buffer = buffer } ≡ idx' =
          cc (rw (t, delete_vector_only, delete_buffered) at e) in
        subst (λ x. IsSane ops graph x × (x.dim ≡ idx.dim)) same
          (
            record {
              buffer_valid = delete-IsValid idx.buffer id s.buffer_valid t;
              buffer_dim = delete-dim idx.buffer id t ∙ s.buffer_dim;
              sealing_valid = s.sealing_valid;
              tickets = s.tickets;
              unshadowed = λ key.
                  buffer-IsUnshadowed ops graph idx key buffer (s.unshadowed key)
                    (inl (ground (arith, contains-delete idx.buffer id key s.buffer_valid t)));
            },
            refl,
          )
  ]
