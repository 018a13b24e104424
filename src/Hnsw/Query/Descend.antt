-- ===== src/Hnsw/Query/Descend.antt =====
-- The greedy descent through the upper layers: where it ends, and that it only comes closer.
use gvector.Prelude.{
  ℕ, zero, suc, ◌≤◌, ◌≡◌, refl, sym, ap, ◌∙◌, subst, true, false, List, [], ◌∷◌, arith, All,
  nat_key, string_key,
}
use gvector.Types.{F32, Cand}
use gvector.Types.Order.{cand_ord}
use gvector.Order.Sort.{lt-false_trans}
use gvector.Order.Members.{Starts}
use gvector.Distance.{F32Ops}
use gvector.Hnsw.{HnswIndex, cand_at, count_down}
use gvector.Hnsw.Layer.{search_layer, admissible}
use gvector.Hnsw.Layer.Found.{HasLevel, IsClosed, IsHit}
use gvector.Hnsw.Layer.Results.{search_layer-IsHit, search_layer-Starts}
use gvector.Hnsw.Query.{first_slot, plain, descend}

-- Levels from `h` down.
abbrev pub Descends : ℕ → List ℕ → Type 0
Descends h [] = Unit
Descends h (l ∷ ls) = (l ≤ h) × Descends l ls

pub count_down-Descends : (n : ℕ) → Descends n (count_down n)
unfolding count_down
count_down-Descends zero = tt
count_down-Descends (suc zero) = (omega arith, tt)
count_down-Descends (suc (suc n)) =
    let (l, d) = count_down-Descends (suc n) in (omega arith, (omega arith, d))

first_slot-All :
    (P : Cand → Type 0) (e : Cand) (cs : List Cand)
    → Starts e cs
    → All P cs
    → (c : Cand) × (first_slot cs ≡ c.slot) × P c × (cand_ord.lt e c ≡ false)
first_slot-All P e [] s h = absurd s
first_slot-All P e (c ∷ cs) s (h, hs) = (c, refl, h, s)

module _ (ops : F32Ops) {R : Type 0} (idx : HnswIndex R) (query : List F32) where
  plain-admissible : (ef level s : ℕ) → admissible ops idx (plain query ef level) s ≡ true
  unfolding admissible
  plain-admissible ef level s = refl

  -- One layer of the descent finds a node of that layer, no farther than where it starts.
  descend_step :
      (level ep : ℕ)
      → IsClosed idx.links
      → HasLevel idx.links level ep
      → let next = first_slot (search_layer ops idx (plain query 1 level) (ep ∷ [])).0 in
        HasLevel idx.links level next
        × (cand_ord.lt (cand_at ops idx query ep) (cand_at ops idx query next) ≡ false)
  descend_step level ep closed h =
      let ask = plain query 1 level in
      let starts = search_layer-Starts ops idx ask ep closed (plain-admissible 1 level ep) in
      let (hits, _, _, _) = search_layer-IsHit ops idx ask (ep ∷ []) closed (h, tt) in
      let (c, e, hit, near) =
        first_slot-All (IsHit ops idx ask) (cand_at ops idx query ep) _ starts hits in
      (
        subst (HasLevel idx.links level) (sym e) hit.0,
        ap (λ s. cand_ord.lt (cand_at ops idx query ep) (cand_at ops idx query s)) e
            ∙ ap (cand_ord.lt (cand_at ops idx query ep)) (sym hit.1)
            ∙ near,
      )

  pub descend-HasLevel :
      (levels : List ℕ) (h l ep : ℕ)
      → IsClosed idx.links
      → Descends h levels
      → All (λ n. l ≤ n) levels
      → l ≤ h
      → HasLevel idx.links h ep
      → HasLevel idx.links l (descend ops idx query levels ep)
  unfolding descend
  descend-HasLevel [] h l ep closed d a le p = omega arith
  descend-HasLevel (n ∷ levels) h l ep closed (d, ds) (a, more) le p =
      let (next, near) = descend_step n ep closed (omega arith) in
      descend-HasLevel levels n l _ closed ds more a next

  -- A descent never ends farther from the query than it starts.
  pub descend-closer :
      (levels : List ℕ) (h ep : ℕ)
      → IsClosed idx.links
      → Descends h levels
      → HasLevel idx.links h ep
      → cand_ord.lt
          (cand_at ops idx query ep)
          (cand_at ops idx query (descend ops idx query levels ep))
        ≡ false
  unfolding descend
  descend-closer [] h ep closed d p = cand_ord.lt_irrefl (cand_at ops idx query ep)
  descend-closer (n ∷ levels) h ep closed (d, ds) p =
      let (next, near) = descend_step n ep closed (omega arith) in
      lt-false_trans _ _ (cand_at ops idx query ep) (descend-closer levels n _ closed ds next) near
