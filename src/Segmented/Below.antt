-- ===== src/Segmented/Below.antt =====
-- Marks that show less than others, and what a tombstone keeps of a list of parts.
use gvector.Prelude.{
  ℕ, ◌≡◌, refl, subst, inl, inr, Bool, false, not, ◌&&◌, some, List, [], ◌∷◌, ◌++◌, map, arith, eqb,
  Bool-cases, Option-cases, All, nat_key, string_key,
}
use Prim.{Unit, tt}
use gvector.Types.{VectorId}
use gvector.Segmented.{Part, is_buried, bury, bury_newest, bury_here}
use gvector.Segmented.Live.{Mark, mark, holding_any, IsUnshadowed}
use gvector.Segmented.Background.Retain.{IsTicketed}

-- Marks that show less: nothing new is held, nothing new is alive.
abbrev pub Below : List Mark → List Mark → Type 0
Below [] [] = Unit
Below [] (n ∷ ns) = ⊥
Below (m ∷ ms) [] = ⊥
Below (m ∷ ms) (n ∷ ns) =
    ((m.holds && not n.holds) ≡ false) × ((m.alive && not n.alive) ≡ false) × Below ms ns

pub Below-refl : (ms : List Mark) → Below ms ms
Below-refl [] = tt
Below-refl (m ∷ ms) = (ground arith, ground arith, Below-refl ms)

pub Below-append :
    (xs ys zs ws : List Mark) → Below xs ys → Below zs ws → Below (xs ++ zs) (ys ++ ws)
Below-append [] [] zs ws b c = c
Below-append [] (y ∷ ys) zs ws b c = elim b [ ]
Below-append (x ∷ xs) [] zs ws b c = elim b [ ]
Below-append (x ∷ xs) (y ∷ ys) zs ws (h, a, b) c = (h, a, Below-append xs ys zs ws b c)

holding-Below : (ms ns : List Mark) → Below ms ns → (holding_any ms && not (holding_any ns)) ≡ false
holding-Below [] [] b = refl
holding-Below [] (n ∷ ns) b = elim b [ ]
holding-Below (m ∷ ms) [] b = elim b [ ]
holding-Below (m ∷ ms) (n ∷ ns) (h, a, b) = ground (arith, h, holding-Below ms ns b)

pub Below-IsUnshadowed : (ms ns : List Mark) → Below ms ns → IsUnshadowed ns → IsUnshadowed ms
Below-IsUnshadowed [] [] b u = tt
Below-IsUnshadowed [] (n ∷ ns) b u = elim b [ ]
Below-IsUnshadowed (m ∷ ms) [] b u = elim b [ ]
Below-IsUnshadowed (m ∷ ms) (n ∷ ns) (h, a, b) (u, us) =
    (ground (arith, h, a, u, holding-Below ms ns b), Below-IsUnshadowed ms ns b us)

module _ {D : Type 0} (has : D → VectorId → Bool) where
  -- A tombstone shows no more of any id, and keeps the data and the tickets.
  bury_here-Below :
      (id key : VectorId) (p : Part D) (parts parts' : List (Part D)) (b : Bool)
      → bury_here has id p parts ≡ some (b, parts')
      → Below (map (mark has key) parts') (map (mark has key) (p ∷ parts))
  unfolding bury_here
  bury_here-Below id key p parts parts' b e = elim (Bool-cases (has p.data_of id)) [
    | inr h ↦ absurd (cc (rw (h, bury_here) at e))
    | inl h ↦ elim (Bool-cases (is_buried has id p)) [
      | inl q ↦
          let same : p ∷ parts ≡ parts' = cc (rw (q, bury_here) at (rw (h, bury_here) at e)) in
          subst (λ z. Below (map (mark has key) z) (map (mark has key) (p ∷ parts))) same
            (Below-refl (map (mark has key) (p ∷ parts)))
      | inr q ↦
          let same : bury has id p ∷ parts ≡ parts' =
            cc (rw (q, bury_here) at (rw (h, bury_here) at e)) in
          subst (λ z. Below (map (mark has key) z) (map (mark has key) (p ∷ parts))) same
            (ground arith, ground arith, Below-refl (map (mark has key) parts))
    ]
  ]

  pub bury-Below :
      (id key : VectorId) (parts parts' : List (Part D)) (b : Bool)
      → bury_newest has id parts ≡ some (b, parts')
      → Below (map (mark has key) parts') (map (mark has key) parts)
  unfolding bury_newest
  bury-Below id key [] parts' b e = absurd (cc e)
  bury-Below id key (p ∷ parts) parts' b e = elim (Option-cases (bury_newest has id parts)) [
    | inl n ↦ bury_here-Below id key p parts parts' b (rw (n, bury_newest) at e)
    | inr ((c, rest), s) ↦
        let same : p ∷ rest ≡ parts' = cc (rw (s, bury_newest) at e) in
        subst (λ z. Below (map (mark has key) z) (map (mark has key) (p ∷ parts))) same
          (ground arith, ground arith, bury-Below id key parts rest c s)
  ]

  pub bury-All :
      (P : Part D → Type 0) (closed : (i : VectorId) (p : Part D) → P p → P (bury has i p))
      (id : VectorId) (parts parts' : List (Part D)) (b : Bool)
      → bury_newest has id parts ≡ some (b, parts')
      → All P parts
      → All P parts'
  unfolding bury_newest bury_here
  bury-All P closed id [] parts' b e h = absurd (cc e)
  bury-All P closed id (p ∷ parts) parts' b e (h, hs) =
      elim (Option-cases (bury_newest has id parts)) [
        | inr ((c, rest), s) ↦
            let same : p ∷ rest ≡ parts' = cc (rw (s, bury_newest) at e) in
            subst (All P) same (h, bury-All P closed id parts rest c s hs)
        | inl n ↦ elim (Bool-cases (has p.data_of id)) [
          | inr q ↦ absurd (cc (rw (q, bury_here) at (rw (n, bury_newest) at e)))
          | inl q ↦ elim (Bool-cases (is_buried has id p)) [
            | inl d ↦
                let same : p ∷ parts ≡ parts' =
                  cc (rw (d, bury_here) at (rw (q, bury_here) at (rw (n, bury_newest) at e))) in
                subst (All P) same (h, hs)
            | inr d ↦
                let same : bury has id p ∷ parts ≡ parts' =
                  cc (rw (d, bury_here) at (rw (q, bury_here) at (rw (n, bury_newest) at e))) in
                subst (All P) same (closed id p h, hs)
          ]
        ]
      ]

  pub bury-IsTicketed :
      (bound : ℕ) (id : VectorId) (parts parts' : List (Part D)) (b : Bool)
      → bury_newest has id parts ≡ some (b, parts')
      → IsTicketed bound parts
      → IsTicketed bound parts'
  unfolding bury_newest bury_here
  bury-IsTicketed bound id [] parts' b e h = absurd (cc e)
  bury-IsTicketed bound id (p ∷ parts) parts' b e (l, apart, hs) =
      elim (Option-cases (bury_newest has id parts)) [
        | inr ((c, rest), s) ↦
            let same : p ∷ rest ≡ parts' = cc (rw (s, bury_newest) at e) in
            subst (IsTicketed bound) same (
              l,
              bury-All (λ q. eqb q.ticket p.ticket ≡ false) (λ i q h. h) id parts rest c s apart,
              bury-IsTicketed bound id parts rest c s hs,
            )
        | inl n ↦ elim (Bool-cases (has p.data_of id)) [
          | inr q ↦ absurd (cc (rw (q, bury_here) at (rw (n, bury_newest) at e)))
          | inl q ↦ elim (Bool-cases (is_buried has id p)) [
            | inl d ↦
                let same : p ∷ parts ≡ parts' =
                  cc (rw (d, bury_here) at (rw (q, bury_here) at (rw (n, bury_newest) at e))) in
                subst (IsTicketed bound) same (l, apart, hs)
            | inr d ↦
                let same : bury has id p ∷ parts ≡ parts' =
                  cc (rw (d, bury_here) at (rw (q, bury_here) at (rw (n, bury_newest) at e))) in
                subst (IsTicketed bound) same (l, apart, hs)
          ]
        ]
      ]
