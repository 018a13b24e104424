-- ===== src/Hnsw/Neighbors/Links.antt =====
-- Writes to the adjacency lists: they keep every node's levels, and a graph stays closed under a
-- list of nodes that reach its level.
use gvector.Prelude.{
  ℕ, zero, suc, ◌≡◌, refl, sym, ap, ◌∙◌, subst, ◌⊎◌, inl, inr, List, [], ◌∷◌, map, arith, leb,
  Bool-cases, length, get_or, set, All, length-set, nat_key, string_key,
}
use gvector.Types.Order.{cand_ord}
use gvector.Order.Sort.{sort}
use gvector.Order.Members.{All-sort}
use gvector.Distance.{F32Ops}
use gvector.Hnsw.{HnswIndex, levels_at, neighbors_at, set_neighbors, vector_at, max_links, cand_at}
use gvector.Hnsw.Layer.Found.{HasLevel, IsClosed}
use gvector.Hnsw.Neighbors.{shrink_links, select_neighbors_heuristic}
use gvector.Hnsw.Neighbors.Select.{select_neighbors-All}

pub All-weaken {ℓ} :
    {A : Type 0} (P Q : A → Type ℓ) (xs : List A) → ((x : A) → P x → Q x) → All P xs → All Q xs
All-weaken P Q [] f h = tt
All-weaken P Q (x ∷ xs) f (h, hs) = (f x h, All-weaken P Q xs f hs)

pub All-cands {ℓ} :
    {A : Type 0} (P : ℕ → Type ℓ) (f : ℕ → A) (g : A → ℕ) (xs : List ℕ)
    → ((x : ℕ) → g (f x) ≡ x)
    → All P xs
    → All (λ c. P (g c)) (map f xs)
All-cands P f g [] e h = tt
All-cands P f g (x ∷ xs) e (h, hs) = (subst P (sym (e x)) h, All-cands P f g xs e hs)

get_or-set_other :
    {A : Type 0} (xs : List A) (i j : ℕ) (v d : A)
    → (get_or (set xs i v) j d ≡ get_or xs j d) ⊎ ((i ≡ j) × (get_or (set xs i v) j d ≡ v))
get_or-set_other [] i j v d = inl refl
get_or-set_other (x ∷ xs) zero zero v d = inr (refl, refl)
get_or-set_other (x ∷ xs) zero (suc j) v d = inl refl
get_or-set_other (x ∷ xs) (suc i) zero v d = inl refl
get_or-set_other (x ∷ xs) (suc i) (suc j) v d = elim (get_or-set_other xs i j v d) [
  | inl e ↦ inl e
  | inr (e, f) ↦ inr (omega arith, f)
]

-- A list that is read after a write is the old one or the one written.
pub neighbors_at-set :
    (links : List (List (List ℕ))) (slot level : ℕ) (list : List ℕ) (s l : ℕ)
    → (neighbors_at (set_neighbors links slot level list) s l ≡ neighbors_at links s l)
      ⊎ ((level ≡ l) × (neighbors_at (set_neighbors links slot level list) s l ≡ list))
unfolding set_neighbors
neighbors_at-set links slot level list s l =
    let row = set (levels_at links slot) level list in
    elim (get_or-set_other links slot s row []) [
      | inl e ↦ inl (ap (λ r. get_or r l []) e)
      | inr (same, e) ↦ elim (get_or-set_other (levels_at links slot) level l list []) [
        | inl f ↦
            inl (ap (λ r. get_or r l []) e ∙ f ∙ ap (λ i. get_or (levels_at links i) l []) same)
        | inr (at, f) ↦ inr (at, ap (λ r. get_or r l []) e ∙ f)
      ]
    ]

-- The number of levels of every node stays.
pub height-set :
    (links : List (List (List ℕ))) (slot level : ℕ) (list : List ℕ) (s : ℕ)
    → length (levels_at (set_neighbors links slot level list) s) ≡ length (levels_at links s)
unfolding set_neighbors
height-set links slot level list s =
    let row = set (levels_at links slot) level list in
    elim (get_or-set_other links slot s row []) [
      | inl e ↦ ap length e
      | inr (same, e) ↦
          ap length e
          ∙ length-set (levels_at links slot) level list
          ∙ ap (λ i. length (levels_at links i)) same
    ]

pub length-set_neighbors :
    (links : List (List (List ℕ))) (slot level : ℕ) (list : List ℕ)
    → length (set_neighbors links slot level list) ≡ length links
unfolding set_neighbors
length-set_neighbors links slot level list =
    length-set links slot (set (levels_at links slot) level list)

-- Two graphs over nodes of the same heights.
abbrev pub SameHeights : List (List (List ℕ)) → List (List (List ℕ)) → Type 0
SameHeights a b = (s : ℕ) → length (levels_at a s) ≡ length (levels_at b s)

pub All-heights :
    (a b : List (List (List ℕ))) (level : ℕ) (xs : List ℕ)
    → SameHeights a b
    → All (HasLevel b level) xs
    → All (HasLevel a level) xs
All-heights a b level xs same h =
    All-weaken (HasLevel b level) (HasLevel a level) xs (λ s p. omega (arith, same s)) h

pub set_neighbors-IsClosed :
    (links : List (List (List ℕ))) (slot level : ℕ) (list : List ℕ)
    → IsClosed links
    → All (HasLevel links level) list
    → IsClosed (set_neighbors links slot level list)
set_neighbors-IsClosed links slot level list closed h s l =
    let new = set_neighbors links slot level list in
    All-heights new links l (neighbors_at new s l) (height-set links slot level list)
      (elim (neighbors_at-set links slot level list s l) [
        | inl e ↦ subst (All (HasLevel links l)) (sym e) (closed s l)
        | inr (at, e) ↦
            subst (All (HasLevel links l)) (sym e) (subst (λ n. All (HasLevel links n) list) at h)
      ])

module _ (ops : F32Ops) {R : Type 0} (idx : HnswIndex R) (node level : ℕ) where
  -- A prune keeps the heights and the graph closed.
  pub shrink_links-IsClosed :
      IsClosed idx.links
      → IsClosed (shrink_links ops idx node level).links
        × SameHeights (shrink_links ops idx node level).links idx.links
        × (length (shrink_links ops idx node level).links ≡ length idx.links)
  unfolding shrink_links
  shrink_links-IsClosed closed =
      let list = neighbors_at idx.links node level in
      let limit = max_links idx level in
      let near = map (cand_at ops idx (vector_at idx node)) list in
      let kept = select_neighbors_heuristic ops idx (sort near) limit in
      let ok_near : All (λ c. HasLevel idx.links level c.slot) near =
        All-cands (HasLevel idx.links level) (cand_at ops idx (vector_at idx node)) (λ c. c.slot)
          list (λ x. refl) (closed node level) in
      let ok_kept =
        select_neighbors-All ops idx limit (HasLevel idx.links level) (sort near)
          (All-sort (λ c. HasLevel idx.links level c.slot) near ok_near) in
      elim (Bool-cases (leb (length list) limit)) [
        | inl q ↦ rw q (closed, (λ s. refl), refl)
        | inr q ↦ rw q (
          set_neighbors-IsClosed idx.links node level kept closed ok_kept,
          height-set idx.links node level kept,
          length-set_neighbors idx.links node level kept,
        )
      ]
