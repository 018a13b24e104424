-- ===== src/Segmented/Refines.antt =====
-- The segmented index as a set of ids: what its clients may rely on, and that every sequence of
-- inserts, deletes and background builds keeps to it.
use gvector.Prelude.{
  ℕ, ◌≡◌, refl, sym, ap, ◌∙◌, subst, inl, inr, Bool, true, false, List, [], ◌∷◌, arith, ltb, leb,
  eqb, if◌then◌else◌, eqb_iff, Bool-cases, length, nat_key, string_key,
}
use Prim.{tt}
use mathlib.Core.Path.{ap₂}
use gvector.Types.{VectorId, Vector}
use gvector.Index.{Result, ok, err, IndexError, Result-cases}
use gvector.Distance.{F32Ops, Metric}
use gvector.BruteForce.{len, new as new_index}
use gvector.BruteForce.Invariant.{new-IsValid}
use gvector.BruteForce.Contains.{contains-new, new-dim}
use gvector.Segmented.{
  Graph, SegmentedIndex, contains_live, validate_insert, seal, queued, insert_shared,
  delete_vector_only, delete_shared,
}
use gvector.Segmented.Live.{copies}
use gvector.Segmented.Insert.{
  contains_live-copies, insert_shared-copies, insert_shared_total, insert_shared_ok,
}
use gvector.Segmented.Delete.{delete_shared-copies}
use gvector.Segmented.Background.{build_first}
use gvector.Segmented.Background.Build.{IsGraph}
use gvector.Segmented.Sane.{IsSane}
use gvector.Segmented.Sane.Insert.{insert_shared-IsSane}
use gvector.Segmented.Sane.Delete.{delete_vector_only-IsSane}
use gvector.Segmented.Sane.Build.{build_first-IsSane}
use gvector.Segmented.Spec.{
  Op, insert_op, delete_op, build_op, spec_op, spec_run, spec-odd, spec-taken, spec-new,
  spec-absent, spec-present,
}

-- `SegmentedIndex::new`
unfoldable pub new : {G : Type 0} → ℕ → Metric → ℕ → ℕ → SegmentedIndex G
new dim metric seed seal_threshold = record {
  dim = dim;
  metric = metric;
  seed = seed;
  seal_threshold = seal_threshold;
  segments = [];
  sealing = [];
  buffer = new_index dim metric;
  next_ticket = 0;
}

module _ {G : Type 0} (ops : F32Ops) (graph : Graph G) where
  answered : SegmentedIndex G → Result (SegmentedIndex G) → SegmentedIndex G × Bool
  answered idx (ok idx') = (idx', true)
  answered idx (err e) = (idx, false)

  -- One operation; one that fails leaves the index as it was.
  unfoldable pub apply_op : SegmentedIndex G → Op → SegmentedIndex G × Bool
  unfolding answered
  apply_op idx (insert_op id v) = answered idx (insert_shared ops graph idx id v)
  apply_op idx (delete_op id) = answered idx (delete_shared ops graph idx id)
  apply_op idx build_op = answered idx (build_first ops graph idx)

  unfoldable pub run : SegmentedIndex G → List Op → SegmentedIndex G × List Bool
  run idx [] = (idx, [])
  run idx (op ∷ todo) =
      let (idx', b) = apply_op idx op in let (end, bs) = run idx' todo in (end, b ∷ bs)

  -- An index shows a set.
  record Shows (dim : ℕ) (idx : SegmentedIndex G) (live : VectorId → Bool) : Type 0 where
    sane : IsSane ops graph idx
    dim_eq : idx.dim ≡ dim
    live_eq : (key : VectorId) → contains_live ops graph idx key ≡ live key

  live-of :
      (idx idx' : SegmentedIndex G) (key : VectorId) (n : ℕ)
      → copies graph idx' key ≡ n
      → contains_live ops graph idx' key ≡ ltb 0 n
  live-of idx idx' key n e = contains_live-copies ops graph idx' key ∙ ap (ltb 0) e

  seal-dim :
      (idx : SegmentedIndex G) (b : Bool) → (if b then seal ops graph idx else idx).dim ≡ idx.dim
  unfolding seal queued
  seal-dim idx false = refl
  seal-dim idx true = elim (Bool-cases (eqb (len idx.buffer) 0)) [
    | inl e ↦ ground (arith, e)
    | inr e ↦ ground (arith, e)
  ]

  -- An index with a reply, against a set with a reply.
  Fits : ℕ → SegmentedIndex G × Bool → (VectorId → Bool) × Bool → Type 0
  Fits dim x y = Shows dim x.0 y.0 × (x.1 ≡ y.1)

  Fits-by :
      (dim : ℕ) {x x' : SegmentedIndex G × Bool} {y y' : (VectorId → Bool) × Bool}
      → x' ≡ x
      → y' ≡ y
      → Fits dim x' y'
      → Fits dim x y
  unfolding Fits
  Fits-by dim {x' = x'} {y = y} e f h = subst (λ z. Fits dim z y) e (subst (λ z. Fits dim x' z) f h)

  insert-mismatch :
      (idx : SegmentedIndex G) (id : VectorId) (v : Vector)
      → eqb (length v) idx.dim ≡ false
      → (e : IndexError) × (insert_shared ops graph idx id v ≡ err e)
  unfolding insert_shared validate_insert
  insert-mismatch idx id v h = elim (Result-cases (insert_shared ops graph idx id v)) [
    | inl (idx', z) ↦ absurd (ground (arith, z, h))
    | inr found ↦ found
  ]

  delete-inner :
      (idx : SegmentedIndex G) (id : VectorId) (idx' : SegmentedIndex G)
      → delete_shared ops graph idx id ≡ ok idx'
      → delete_vector_only ops graph idx id ≡ ok idx'
  unfolding delete_shared
  delete-inner idx id idx' e = ground (arith, e)

  insert-Fits :
      (dim : ℕ) (idx : SegmentedIndex G) (live : VectorId → Bool) (id : VectorId) (v : Vector)
      → Shows dim idx live
      → Fits dim (apply_op idx (insert_op id v)) (spec_op dim live (insert_op id v))
  unfolding apply_op answered spec_op Fits
  insert-Fits dim idx live id v s = elim (Bool-cases (eqb (length v) dim)) [
    | inr odd ↦
        let (why, e) = insert-mismatch idx id v (rw s.dim_eq odd) in
        Fits-by dim (sym (ap (answered idx) e)) (sym (spec-odd dim live id v odd)) (s, refl)
    | inl even ↦
        let l : length v ≡ idx.dim = (eqb_iff (length v) dim).0 even ∙ sym s.dim_eq in
        elim (insert_shared_total ops graph idx id v s.sane.buffer_dim l) [
          | inr (pos, e) ↦
              let alive : live id ≡ true =
                ground (arith, s.live_eq id, contains_live-copies ops graph idx id) in
              Fits-by dim (sym (ap (answered idx) e)) (sym (spec-taken dim live id v alive))
                (s, refl)
          | inl (zero_, (idx', e)) ↦
              let free : live id ≡ false =
                ground (arith, s.live_eq id, contains_live-copies ops graph idx id) in
              let (dead, l', (buffer, t, z)) = insert_shared_ok ops graph idx id v idx' e in
              Fits-by dim (sym (ap (answered idx) e)) (sym (spec-new dim live id v even free)) (
                record {
                  sane = insert_shared-IsSane ops graph idx id v idx' s.sane e;
                  dim_eq =
                      ap (λ x. x.dim) z
                      ∙ seal-dim (record idx { buffer = buffer })
                          (leb idx.seal_threshold (len buffer))
                      ∙ s.dim_eq;
                  live_eq = λ key. ground (
                    arith,
                    s.live_eq key,
                    contains_live-copies ops graph idx key,
                    contains_live-copies ops graph idx' key,
                    insert_shared-copies ops graph idx id key v idx' s.sane.buffer_valid e,
                  );
                },
                refl,
              )
        ]
  ]

  deleted-alive :
      (idx : SegmentedIndex G) (live : VectorId → Bool) (id : VectorId) (idx' : SegmentedIndex G)
      → contains_live ops graph idx id ≡ live id
      → delete_shared ops graph idx id ≡ ok idx'
      → live id ≡ true
  unfolding delete_shared
  deleted-alive idx live id idx' h e = ground (arith, h, e)

  delete-Fits :
      (dim : ℕ) (idx : SegmentedIndex G) (live : VectorId → Bool) (id : VectorId)
      → Shows dim idx live
      → Fits dim (apply_op idx (delete_op id)) (spec_op dim live (delete_op id))
  unfolding apply_op answered spec_op Fits
  delete-Fits dim idx live id s =
      elim (delete_shared-copies ops graph idx id s.sane.buffer_valid (s.sane.unshadowed id)) [
        | inl (gone, e) ↦
            let free : live id ≡ false =
              ground (arith, s.live_eq id, contains_live-copies ops graph idx id) in
            Fits-by dim (sym (ap (answered idx) e)) (sym (spec-absent dim live id free)) (s, refl)
        | inr (idx', e, counts) ↦
            let alive : live id ≡ true = deleted-alive idx live id idx' (s.live_eq id) e in
            let (sane, d) =
              delete_vector_only-IsSane ops graph idx id idx' s.sane (delete-inner idx id idx' e) in
            Fits-by dim (sym (ap (answered idx) e)) (sym (spec-present dim live id alive)) (
              record {
                sane = sane;
                dim_eq = d ∙ s.dim_eq;
                live_eq = λ key. ground (
                  arith,
                  s.live_eq key,
                  contains_live-copies ops graph idx key,
                  contains_live-copies ops graph idx' key,
                  counts key,
                );
              },
              refl,
            )
      ]

  build-Fits :
      IsGraph graph
      → (dim : ℕ) (idx : SegmentedIndex G) (live : VectorId → Bool) → Shows dim idx live
      → Fits dim (apply_op idx build_op) (spec_op dim live build_op)
  unfolding apply_op answered spec_op Fits
  build-Fits law dim idx live s =
      let (idx', e, sane, d, counts) = build_first-IsSane ops graph law idx s.sane in
      Fits-by dim (sym (ap (answered idx) e)) refl (
        record {
          sane = sane;
          dim_eq = d ∙ s.dim_eq;
          live_eq = λ key. ground (
            arith,
            s.live_eq key,
            contains_live-copies ops graph idx key,
            contains_live-copies ops graph idx' key,
            counts key,
          );
        },
        refl,
      )

  op-Fits :
      IsGraph graph
      → (dim : ℕ) (idx : SegmentedIndex G) (live : VectorId → Bool) (op : Op) → Shows dim idx live
      → Fits dim (apply_op idx op) (spec_op dim live op)
  op-Fits law dim idx live (insert_op id v) s = insert-Fits dim idx live id v s
  op-Fits law dim idx live (delete_op id) s = delete-Fits dim idx live id s
  op-Fits law dim idx live build_op s = build-Fits law dim idx live s

  run-Fits :
      IsGraph graph
      → (dim : ℕ) (todo : List Op) (idx : SegmentedIndex G) (live : VectorId → Bool)
      → Shows dim idx live
      → Shows dim (run idx todo).0 (spec_run dim live todo).0
        × ((run idx todo).1 ≡ (spec_run dim live todo).1)
  unfolding run spec_run Fits
  run-Fits law dim [] idx live s = (s, refl)
  run-Fits law dim (op ∷ todo) idx live s =
      let (s', b) = op-Fits law dim idx live op s in
      let (t, bs) = run-Fits law dim todo (apply_op idx op).0 (spec_op dim live op).0 s' in
      (t, ap₂ ◌∷◌ b bs)

  -- A new index shows the empty set.
  new-Shows :
      (dim : ℕ) (metric : Metric) (seed threshold : ℕ)
      → Shows dim (new dim metric seed threshold) (λ key. false)
  unfolding new contains_live
  new-Shows dim metric seed threshold = record {
    sane = record {
      buffer_valid = new-IsValid dim metric;
      buffer_dim = new-dim dim metric;
      sealing_valid = tt;
      tickets = tt;
      unshadowed = λ id. (ground arith, tt);
    };
    dim_eq = refl;
    live_eq = λ key. ground (arith, contains-new dim metric key);
  }

  -- Every sequence of inserts, deletes and builds, run on a new index, is answered as the set of ids
  -- is, and afterwards the ids alive in the index are those of the set.
  pub run-spec_run :
      IsGraph graph
      → (dim : ℕ) (metric : Metric) (seed threshold : ℕ) (todo : List Op)
      → ((run (new dim metric seed threshold) todo).1 ≡ (spec_run dim (λ key. false) todo).1)
        × ((key : VectorId)
            → contains_live ops graph (run (new dim metric seed threshold) todo).0 key
              ≡ (spec_run dim (λ key. false) todo).0 key)
  run-spec_run law dim metric seed threshold todo =
      let (s, b) =
        run-Fits law dim todo (new dim metric seed threshold) (λ key. false)
          (new-Shows dim metric seed threshold) in
      (b, s.live_eq)
