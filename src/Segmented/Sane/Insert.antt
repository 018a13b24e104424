-- ===== src/Segmented/Sane/Insert.antt =====
-- src/index/segmented.rs, `insert_shared` and `seal`: a sane index stays sane.
use gvector.Prelude.{
  ℕ, ◌+◌, ◌≡◌, refl, sym, ap, ◌∙◌, subst, inl, inr, Bool, true, false, List, [], ◌∷◌, ◌++◌, arith,
  leb, eqb, if◌then◌else◌, eqb_iff, Bool-cases, All, nat_key, string_key,
}
use Prim.{tt}
use gvector.Types.{VectorId, Vector}
use gvector.Index.{ok}
use gvector.Distance.{F32Ops}
use gvector.BruteForce.{BruteForceIndex, len, new as new_index}
use gvector.BruteForce.Invariant.{IsValid, insert_vector-IsValid, new-IsValid}
use gvector.BruteForce.Contains.{contains-insert_vector, contains-new, new-dim, insert_vector-dim}
use gvector.Segmented.{Graph, Part, SegmentedIndex, contains_live, seal, queued, insert_shared}
use gvector.Segmented.Live.{marks, buffer_mark, IsUnshadowed, append-IsUnshadowed}
use gvector.Segmented.Insert.{insert_shared_ok, marks-sealed}
use gvector.Segmented.Background.Retain.{IsTicketed}
use gvector.Segmented.Sane.{IsSane, buffer-IsUnshadowed}

module _ {G : Type 0} (ops : F32Ops) (graph : Graph G) where
  snoc_All :
      {A : Type 0} (P : A → Type 0) (xs : List A) (x : A) → All P xs → P x → All P (xs ++ (x ∷ []))
  snoc_All P [] x h p = (p, tt)
  snoc_All P (y ∷ ys) x (h, hs) p = (h, snoc_All P ys x hs p)

  snoc-IsTicketed :
      {D : Type 0} (n : ℕ) (parts : List (Part D)) (p : Part D)
      → p.ticket ≡ n
      → IsTicketed n parts
      → IsTicketed (n + 1) (parts ++ (p ∷ []))
  snoc-IsTicketed n [] p e h = (omega arith, tt, tt)
  snoc-IsTicketed n (q ∷ parts) p e (b, apart, t) = (
    omega arith,
    snoc_All (λ r. eqb r.ticket q.ticket ≡ false) parts p apart (ground arith),
    snoc-IsTicketed n parts p e t,
  )

  -- The buffer joins the queue.
  queued-IsSane :
      (idx : SegmentedIndex G) → IsSane ops graph idx → IsSane ops graph (queued ops graph idx)
  unfolding queued
  queued-IsSane idx s =
      let part : Part BruteForceIndex = record {
        ticket = idx.next_ticket;
        data_of = idx.buffer;
        tombstones = [];
      } in
      let fresh = new_index idx.dim idx.metric in
      record {
        buffer_valid = new-IsValid idx.dim idx.metric;
        buffer_dim = new-dim idx.dim idx.metric;
        sealing_valid =
            snoc_All (λ p. IsValid p.data_of × (p.data_of.dim ≡ idx.dim)) idx.sealing part
              s.sealing_valid (s.buffer_valid, s.buffer_dim);
        tickets = snoc-IsTicketed idx.next_ticket idx.sealing part refl s.tickets;
        unshadowed = λ id.
            subst IsUnshadowed (sym (marks-sealed ops graph idx id idx.next_ticket fresh)) (
              append-IsUnshadowed (marks graph idx id) (buffer_mark fresh id ∷ []) (s.unshadowed id)
                (ground (arith, contains-new idx.dim idx.metric id), tt)
                (ground (arith, contains-new idx.dim idx.metric id)));
      }

  seal_if-IsSane :
      (idx : SegmentedIndex G) (b : Bool)
      → IsSane ops graph idx
      → IsSane ops graph (if b then seal ops graph idx else idx)
  unfolding seal
  seal_if-IsSane idx false s = s
  seal_if-IsSane idx true s = elim (Bool-cases (eqb (len idx.buffer) 0)) [
    | inl e ↦ subst (IsSane ops graph) (sym (ap (λ b. if b then idx else queued ops graph idx) e)) s
    | inr e ↦
        subst (IsSane ops graph) (sym (ap (λ b. if b then idx else queued ops graph idx) e))
          (queued-IsSane idx s)
  ]

  pub insert_shared-IsSane :
      (idx : SegmentedIndex G) (id : VectorId) (v : Vector) (idx' : SegmentedIndex G)
      → IsSane ops graph idx
      → insert_shared ops graph idx id v ≡ ok idx'
      → IsSane ops graph idx'
  insert_shared-IsSane idx id v idx' s e =
      let (dead, l, (buffer, t, z)) = insert_shared_ok ops graph idx id v idx' e in
      let valid = insert_vector-IsValid ops idx.buffer id v s.buffer_valid t in
      subst (IsSane ops graph) (sym z) (
        seal_if-IsSane (record idx { buffer = buffer }) (leb idx.seal_threshold (len buffer))
          (record {
            buffer_valid = valid;
            buffer_dim = insert_vector-dim ops idx.buffer id v t ∙ s.buffer_dim;
            sealing_valid = s.sealing_valid;
            tickets = s.tickets;
            unshadowed = λ key.
                buffer-IsUnshadowed ops graph idx key buffer (s.unshadowed key)
                  (elim (Bool-cases (eqb id key)) [
                    | inl q ↦ inr (
                        subst (λ k. contains_live ops graph idx k ≡ false) ((eqb_iff id key).0 q)
                          dead)
                    | inr q ↦ inl (
                        ground (
                          arith,
                          q,
                          contains-insert_vector ops idx.buffer id key v s.buffer_valid t,
                        ))
                  ]);
          }))
