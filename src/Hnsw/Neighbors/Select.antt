-- ===== src/Hnsw/Neighbors/Select.antt =====
-- The neighbours that the heuristic selects: how many, and from where.
use gvector.Prelude.{
  ℕ, ◌+◌, ◌≤◌, min, ◌≡◌, ◌∙◌, ◌⊎◌, inl, inr, List, [], ◌∷◌, ◌++◌, map, arith, leb, leb→le,
  Bool-cases, length, All, length-append, length-map, nat_key, string_key,
}
use gvector.Types.{Cand}
use gvector.Distance.{F32Ops}
use gvector.Hnsw.{HnswIndex}
use gvector.Hnsw.Neighbors.{dominated, select_loop, top_up, select_neighbors_heuristic}

pub snoc_All {ℓ} :
    {A : Type 0} (P : A → Type ℓ) (xs : List A) (x : A) → All P xs → P x → All P (xs ++ (x ∷ []))
snoc_All P [] x h p = (p, tt)
snoc_All P (y ∷ ys) x (h, hs) p = (h, snoc_All P ys x hs p)

-- Filled up to the quota, or with all there is.
length-top_up :
    (m : ℕ) (pruned selected : List Cand)
    → length selected ≤ m
    → length (top_up m pruned selected) ≡ min m (length selected + length pruned)
unfolding top_up
length-top_up m [] selected h = omega arith
length-top_up m (c ∷ pruned) selected h = elim (Bool-cases (leb m (length selected))) [
  | inl q ↦ rw q (omega (arith, leb→le m (length selected) q))
  | inr q ↦
      let more = length-append selected (c ∷ []) in
      rw q (omega (arith, more, length-top_up m pruned (selected ++ (c ∷ [])) (ground arith)))
]

top_up-All :
    (P : Cand → Type 0) (m : ℕ) (pruned selected : List Cand)
    → All P pruned
    → All P selected
    → All P (top_up m pruned selected)
unfolding top_up
top_up-All P m [] selected p s = s
top_up-All P m (c ∷ pruned) selected (p, ps) s = elim (Bool-cases (leb m (length selected))) [
  | inl q ↦ rw q s
  | inr q ↦ rw q (top_up-All P m pruned (selected ++ (c ∷ [])) ps (snoc_All P selected c s p))
]

pub All-slots :
    (P : ℕ → Type 0) (cs : List Cand) → All (λ c. P c.slot) cs → All P (map (λ c. c.slot) cs)
All-slots P [] h = tt
All-slots P (c ∷ cs) (h, hs) = (h, All-slots P cs hs)

module _ (ops : F32Ops) {R : Type 0} (idx : HnswIndex R) (m : ℕ) where
  -- The loop stops at the quota, or has put every candidate on one of the two lists.
  length-select_loop :
      (cs selected pruned : List Cand)
      → length selected ≤ m
      → let (s, p) = select_loop ops idx m cs selected pruned in
        (length s ≤ m)
        × (((length s ≡ m) × (length s + length p ≤ length selected + length pruned + length cs))
            ⊎ (length s + length p ≡ length selected + length pruned + length cs))
  unfolding select_loop
  length-select_loop [] selected pruned h = (h, inr (omega arith))
  length-select_loop (c ∷ cs) selected pruned h = elim (Bool-cases (leb m (length selected))) [
    | inl q ↦ rw q (h, inl (omega (arith, leb→le m (length selected) q), omega arith))
    | inr q ↦ elim (Bool-cases (dominated ops idx c selected)) [
      | inl d ↦
          let (less, rest) = length-select_loop cs selected (pruned ++ (c ∷ [])) h in
          let more = length-append pruned (c ∷ []) in
          rw (q, d)
            (less, elim rest [ inl (e, l) ↦ inl (e, omega arith) | inr e ↦ inr (omega arith) ])
      | inr d ↦
          let more = length-append selected (c ∷ []) in
          let (less, rest) = length-select_loop cs (selected ++ (c ∷ [])) pruned (ground arith) in
          rw (q, d)
            (less, elim rest [ inl (e, l) ↦ inl (e, omega arith) | inr e ↦ inr (omega arith) ])
    ]
  ]

  select_loop-All :
      (P : Cand → Type 0) (cs selected pruned : List Cand)
      → All P cs
      → All P selected
      → All P pruned
      → let (s, p) = select_loop ops idx m cs selected pruned in All P s × All P p
  unfolding select_loop
  select_loop-All P [] selected pruned h s p = (s, p)
  select_loop-All P (c ∷ cs) selected pruned (h, hs) s p =
      elim (Bool-cases (leb m (length selected))) [
        | inl q ↦ rw q (s, p)
        | inr q ↦ elim (Bool-cases (dominated ops idx c selected)) [
          | inl d ↦
              rw (q, d)
                (select_loop-All P cs selected (pruned ++ (c ∷ [])) hs s (snoc_All P pruned c p h))
          | inr d ↦
              rw (q, d)
                (select_loop-All P cs (selected ++ (c ∷ [])) pruned hs (snoc_All P selected c s h)
                  p)
        ]
      ]

  -- The heuristic selects as many as the quota allows and the candidates offer.
  pub length-select_neighbors :
      (cs : List Cand) → length (select_neighbors_heuristic ops idx cs m) ≡ min m (length cs)
  unfolding select_neighbors_heuristic
  length-select_neighbors cs =
      let r = select_loop ops idx m cs [] [] in
      let (less, cases) = length-select_loop cs [] [] (omega arith) in
      let filled = length-top_up m r.1 r.0 less in
      length-map (top_up m r.1 r.0) (λ c. c.slot)
      ∙ filled
      ∙ elim cases [ inl (e, l) ↦ omega arith | inr e ↦ omega arith ]

  -- What holds of every candidate's slot holds of every neighbour.
  pub select_neighbors-All :
      (P : ℕ → Type 0) (cs : List Cand)
      → All (λ c. P c.slot) cs
      → All P (select_neighbors_heuristic ops idx cs m)
  unfolding select_neighbors_heuristic
  select_neighbors-All P cs h =
      let r = select_loop ops idx m cs [] [] in
      let (s, p) = select_loop-All (λ c. P c.slot) cs [] [] h tt tt in
      All-slots P (top_up m r.1 r.0) (top_up-All (λ c. P c.slot) m r.1 r.0 p s)
