-- ===== src/Segmented/Sane/Build.antt =====
-- src/index/segmented.rs, the build of `SealContext`: a sane index stays sane.
use gvector.Prelude.{
  ℕ, ◌≤◌, ◌≡◌, sym, ap, ◌∙◌, subst, List, [], ◌∷◌, arith, drop, All, nat_key, string_key,
}
use Prim.{tt}
use gvector.Types.{VectorId}
use gvector.Index.{ok}
use gvector.Distance.{F32Ops}
use gvector.BruteForce.Invariant.{IsValid}
use gvector.Segmented.{Graph, Part, SegmentedIndex}
use gvector.Segmented.Live.{copies, IsUnshadowed, alive_count}
use gvector.Segmented.Background.Retain.{IsTicketed}
use gvector.Segmented.Background.{build_first}
use gvector.Segmented.Background.Build.{IsGraph, build_first-marks}
use gvector.Segmented.Sane.{IsSane}

module _ {G : Type 0} (ops : F32Ops) (graph : Graph G) where
  drop-All : {A : Type 0} (P : A → Type 0) (xs : List A) → All P xs → All P (drop 1 xs)
  drop-All P [] h = tt
  drop-All P (x ∷ xs) (h, hs) = hs

  raise-IsTicketed :
      {D : Type 0} (m n : ℕ) (parts : List (Part D))
      → m ≤ n
      → IsTicketed m parts
      → IsTicketed n parts
  raise-IsTicketed m n [] l h = tt
  raise-IsTicketed m n (p ∷ parts) l (b, apart, t) =
      (omega arith, apart, raise-IsTicketed m n parts l t)

  drop-IsTicketed :
      {D : Type 0} (m : ℕ) (parts : List (Part D))
      → IsTicketed m parts
      → IsTicketed m (drop 1 parts)
  drop-IsTicketed m [] h = tt
  drop-IsTicketed m (p ∷ parts) (b, apart, t) = t

  pub build_first-IsSane :
      IsGraph graph
      → (idx : SegmentedIndex G) → IsSane ops graph idx
      → (idx' : SegmentedIndex G) × (build_first ops graph idx ≡ ok idx')
        × IsSane ops graph idx'
        × (idx'.dim ≡ idx.dim)
        × ((id : VectorId) → copies graph idx' id ≡ copies graph idx id)
  unfolding copies
  build_first-IsSane law idx s =
      let (idx', e, q, m, b, d, n) =
        build_first-marks ops graph law idx s.sealing_valid s.tickets in
      (
        idx',
        e,
        record {
          buffer_valid = subst IsValid (sym b) s.buffer_valid;
          buffer_dim = ap (λ x. x.dim) b ∙ s.buffer_dim ∙ sym d;
          sealing_valid =
              subst (All (λ p. IsValid p.data_of × (p.data_of.dim ≡ idx'.dim))) (sym q) (
                subst (λ k. All (λ p. IsValid p.data_of × (p.data_of.dim ≡ k)) (drop 1 idx.sealing))
                  (sym d)
                  (drop-All (λ p. IsValid p.data_of × (p.data_of.dim ≡ idx.dim)) idx.sealing
                    s.sealing_valid));
          tickets = subst (IsTicketed idx'.next_ticket) (sym q) (
              raise-IsTicketed idx.next_ticket idx'.next_ticket (drop 1 idx.sealing) n
                (drop-IsTicketed idx.next_ticket idx.sealing s.tickets));
          unshadowed = λ id. subst IsUnshadowed (sym (m id)) (s.unshadowed id);
        },
        d,
        λ id. ap alive_count (m id),
      )
