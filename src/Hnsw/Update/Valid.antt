-- ===== src/Hnsw/Update/Valid.antt =====
-- The invariant of the whole index, and that every operation keeps it.
use gvector.Prelude.{
  ℕ, zero, suc, ◌+◌, ◌≤◌, ◌<◌, ◌≡◌, refl, sym, ap, ◌∙◌, subst, inl, inr, none, some, List, [], ◌∷◌,
  ◌++◌, arith, ltb, eqb, ltb→lt, ltb-false→le, eqb_iff, Bool-cases, Option-cases, length, get_or,
  replicate, All, length-append, nat_key, string_key, lookup,
}
use gvector.Types.{VectorId, Vector}
use gvector.Index.{ok}
use gvector.Distance.{F32Ops, Metric, prepare, length-prepare}
use gvector.Hnsw.{
  HnswIndex, HnswParams, Randomness, new, random_level, contains, levels_at, neighbors_at,
}
use gvector.Hnsw.Layer.Found.{HasLevel, IsClosed, HasLevel-lt}
use gvector.Hnsw.Neighbors.Links.{All-weaken}
use gvector.Hnsw.Update.{link_node, push_row, insert_vector}
use gvector.Hnsw.Update.Rows.{rows}
use gvector.Hnsw.Update.Tracked.{IsTracked, IsAlive, pushed, pushed-IsTracked, count_true}

pub record IsValid {R : Type 0} (idx : HnswIndex R) : Type 0 where
  pub tracked : IsTracked (rows idx)
  pub nodes : length idx.links ≡ length idx.ids
  -- every node has the base layer
  pub tall : (slot : ℕ) → slot < length idx.links → HasLevel idx.links 0 slot
  -- every edge ends in a node of its level
  pub closed : IsClosed idx.links
  -- the entry point is a node that is alive
  pub entered : (e : ℕ) → idx.entry ≡ some e → HasLevel idx.links 0 e × IsAlive (rows idx) e
  -- without an entry point nothing is alive
  pub started : idx.entry ≡ none → (id : VectorId) → lookup id idx.slot_of ≡ none

pub new-IsValid :
    {R : Type 0} (random : Randomness R) (dim : ℕ) (metric : Metric) (params : HnswParams)
    → IsValid (new random dim metric params)
unfolding new lookup count_true
new-IsValid random dim metric params = record {
  tracked = record {
    block = omega arith;
    flags = refl;
    count = refl;
    placed = λ id slot h. cc;
    mapped = λ id slot h a. cc;
  };
  nodes = refl;
  tall = λ slot h. absurd (omega arith);
  closed = λ slot level. tt;
  entered = λ e h. cc;
  started = λ e id. refl;
}

-- The nodes with one more, that has `level` and all below and no edge yet.
abbrev pub with_node : List (List (List ℕ)) → ℕ → List (List (List ℕ))
with_node links level = links ++ (replicate (level + 1) [] ∷ [])

levels_at-old :
    (links : List (List (List ℕ))) (row : List (List ℕ)) (s : ℕ)
    → s < length links
    → levels_at (links ++ (row ∷ [])) s ≡ levels_at links s
levels_at-old [] row s h = elim h [ ]
levels_at-old (x ∷ links) row zero h = refl
levels_at-old (x ∷ links) row (suc s) h = levels_at-old links row s (omega arith)

levels_at-new :
    (links : List (List (List ℕ))) (row : List (List ℕ))
    → levels_at (links ++ (row ∷ [])) (length links) ≡ row
levels_at-new [] row = refl
levels_at-new (x ∷ links) row = levels_at-new links row

levels_at-out : (links : List (List (List ℕ))) (s : ℕ) → length links ≤ s → levels_at links s ≡ []
levels_at-out [] s h = refl
levels_at-out (x ∷ links) zero h = absurd (omega arith)
levels_at-out (x ∷ links) (suc s) h = levels_at-out links s (omega arith)

no_neighbors : (n l : ℕ) → get_or {A = List ℕ} (replicate n []) l [] ≡ []
no_neighbors zero l = refl
no_neighbors (suc n) zero = refl
no_neighbors (suc n) (suc l) = no_neighbors n l

length-replicate {ℓ} : {A : Type ℓ} (n : ℕ) (a : A) → length (replicate n a) ≡ n
length-replicate zero a = refl
length-replicate (suc n) a = ap suc (length-replicate n a)

module _ (links : List (List (List ℕ))) (level : ℕ) where
  pub with_node-HasLevel : (l s : ℕ) → HasLevel links l s → HasLevel (with_node links level) l s
  with_node-HasLevel l s h = omega (
    arith,
    ap length (levels_at-old links (replicate (level + 1) []) s (HasLevel-lt links l s h)),
  )

  pub with_node-here : HasLevel (with_node links level) level (length links)
  with_node-here = omega (
    arith,
    ap length (levels_at-new links (replicate (level + 1) [])),
    length-replicate {A = List ℕ} (level + 1) [],
  )

  pub with_node-tall :
      ((s : ℕ) → s < length links → HasLevel links 0 s)
      → (s : ℕ) → s < length (with_node links level)
      → HasLevel (with_node links level) 0 s
  with_node-tall tall s h = elim (Bool-cases (ltb s (length links))) [
    | inl q ↦ with_node-HasLevel 0 s (tall s (ltb→lt s (length links) q))
    | inr q ↦
        let here : length links ≡ s = omega (
          arith,
          ltb-false→le s (length links) q,
          length-append links (replicate (level + 1) [] ∷ []),
        ) in
        subst (HasLevel (with_node links level) 0) here (omega (arith, with_node-here))
  ]

  pub with_node-IsClosed : IsClosed links → IsClosed (with_node links level)
  with_node-IsClosed closed s l = elim (Bool-cases (ltb s (length links))) [
    | inl q ↦
        subst (All (HasLevel (with_node links level) l))
          (sym (
            ap (λ r. get_or r l [])
              (levels_at-old links (replicate (level + 1) []) s (ltb→lt s (length links) q))))
          (All-weaken (HasLevel links l) (HasLevel (with_node links level) l)
            (neighbors_at links s l) (λ n h. with_node-HasLevel l n h) (closed s l))
    | inr q ↦
        let empty : neighbors_at (with_node links level) s l ≡ [] =
          elim (Bool-cases (eqb (length links) s)) [
            | inl e ↦
                ap (λ n. neighbors_at (with_node links level) n l)
                  (sym ((eqb_iff (length links) s).0 e))
                ∙ ap (λ r. get_or r l []) (levels_at-new links (replicate (level + 1) []))
                ∙ no_neighbors (level + 1) l
            | inr e ↦
                ap (λ r. get_or r l [])
                  (levels_at-out (with_node links level) s
                    (ground (arith, length-append links (replicate (level + 1) [] ∷ []))))
          ] in
        subst (All (HasLevel (with_node links level) l)) (sym empty) tt
  ]

module _ (ops : F32Ops) {R : Type 0} (random : Randomness R) (idx : HnswIndex R) (id : VectorId)
    (v : Vector) where
  -- The index with the new row and its node, before any edge.
  abbrev pub placed : HnswIndex R
  placed =
      let (level, drawn) = random_level random (push_row ops idx id v) in
      record drawn { links = with_node drawn.links level }

  abbrev pub new_level : ℕ
  new_level = (random_level random (push_row ops idx id v)).0

  pub rows-placed : rows placed ≡ pushed (rows idx) id (prepare ops idx.metric v)
  unfolding random_level push_row
  rows-placed = refl

  pub links-placed : (placed.links ≡ with_node idx.links new_level) × (placed.entry ≡ idx.entry)
  unfolding random_level push_row
  links-placed = (refl, refl)

  -- An insert that succeeds had a vector of the right length and a new id.
  pub insert_vector_ok :
      {idx' : HnswIndex R}
      → insert_vector ops random idx id v ≡ ok idx'
      → (length v ≡ idx.dim)
        × (lookup id idx.slot_of ≡ none)
        × (idx' ≡ link_node ops (length idx.ids) new_level placed)
  unfolding insert_vector contains
  insert_vector_ok e = elim (Option-cases (lookup id idx.slot_of)) [
    | inl n ↦ ground arith
    | inr (slot, s) ↦ ground arith
  ]

  pub placed-IsTracked :
      IsValid idx → length v ≡ idx.dim → lookup id idx.slot_of ≡ none → IsTracked (rows placed)
  placed-IsTracked valid l fresh = subst IsTracked (sym rows-placed) (
      pushed-IsTracked (rows idx) id valid.tracked (prepare ops idx.metric v) fresh
        (length-prepare ops idx.metric v ∙ l))
