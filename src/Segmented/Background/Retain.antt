-- ===== src/Segmented/Background/Retain.antt =====
-- Lists of parts with distinct tickets, and the entries that a merge takes over.
use gvector.Prelude.{
  ℕ, ◌+◌, ◌<◌, ◌≡◌, refl, ap, subst, inl, inr, Bool, false, not, ◌&&◌, ◌||◌, some, List, [], ◌∷◌,
  map, arith, eqb, if◌then◌else◌, eqb_iff, eqb_refl, Bool-cases, some_inj, All, nat_key, string_key,
}
use Prim.{Unit, tt}
use Prim.{Unit, tt}
use gvector.Types.{VectorId}
use gvector.Segmented.{Part, has_id, is_live}
use gvector.Segmented.Live.{mark, alive_count}
use gvector.Segmented.Background.{retain_others, extend_difference, find_part}

module _ {D : Type 0} where
  -- The tickets of a list of parts are distinct and below a bound.
  abbrev pub IsTicketed : ℕ → List (Part D) → Type 0
  IsTicketed bound [] = Unit
  IsTicketed bound (p ∷ ps) =
      (p.ticket < bound) × All (λ q. eqb q.ticket p.ticket ≡ false) ps × IsTicketed bound ps

  retain-apart :
      (n : ℕ) (ps : List (Part D)) → All (λ q. eqb q.ticket n ≡ false) ps → retain_others n ps ≡ ps
  unfolding retain_others
  retain-apart n [] h = refl
  retain-apart n (p ∷ ps) (h, hs) = rw h (ap (◌∷◌ p) (retain-apart n ps hs))

  pub retain_first :
      (bound : ℕ) (p : Part D) (ps : List (Part D))
      → IsTicketed bound (p ∷ ps)
      → retain_others p.ticket (p ∷ ps) ≡ ps
  unfolding retain_others
  retain_first bound p ps (b, apart, t) = rw (eqb_refl p.ticket) (retain-apart p.ticket ps apart)

  -- Removing the part with a ticket takes away what it counts.
  pub retain-count :
      (has : D → VectorId → Bool) (bound ticket : ℕ) (parts : List (Part D)) (p : Part D)
      (key : VectorId)
      → IsTicketed bound parts
      → find_part ticket parts ≡ some p
      → alive_count (map (mark has key) (retain_others ticket parts))
          + (if is_live has key p then 1 else 0)
        ≡ alive_count (map (mark has key) parts)
  unfolding retain_others find_part alive_count
  retain-count has bound ticket [] p key t e = absurd (cc e)
  retain-count has bound ticket (q ∷ parts) p key (b, apart, t) e =
      elim (Bool-cases (eqb q.ticket ticket)) [
        | inl h ↦
            let same : q ≡ p = some_inj (rw (h, find_part) at e) in
            let rest = retain-apart ticket parts (
              subst (λ n. All (λ q. eqb q.ticket n ≡ false) parts) ((eqb_iff q.ticket ticket).0 h)
                apart) in
            rw (h, rest) (ground (arith, ap (is_live has key) same))
        | inr h ↦
            let rest = retain-count has bound ticket parts p key t (rw (h, find_part) at e) in
            rw h (omega (arith, rest))
      ]

  -- What is left keeps its parts.
  pub find-retain :
      (ticket other : ℕ) (parts : List (Part D))
      → eqb ticket other ≡ false
      → find_part other (retain_others ticket parts) ≡ find_part other parts
  unfolding retain_others find_part
  find-retain ticket other [] h = refl
  find-retain ticket other (p ∷ parts) h = ground (
    arith,
    find-retain ticket other parts h,
    eqb_iff p.ticket ticket,
    eqb_iff p.ticket other,
    eqb_iff ticket other,
  )

  retain-All :
      (P : Part D → Type 0) (ticket : ℕ) (parts : List (Part D))
      → All P parts
      → All P (retain_others ticket parts)
  unfolding retain_others
  retain-All P ticket [] h = tt
  retain-All P ticket (p ∷ parts) (h, hs) = elim (Bool-cases (eqb p.ticket ticket)) [
    | inl e ↦ rw e (retain-All P ticket parts hs)
    | inr e ↦ rw e (h, retain-All P ticket parts hs)
  ]

  pub retain-IsTicketed :
      (bound ticket : ℕ) (parts : List (Part D))
      → IsTicketed bound parts
      → IsTicketed bound (retain_others ticket parts)
  unfolding retain_others
  retain-IsTicketed bound ticket [] h = tt
  retain-IsTicketed bound ticket (p ∷ parts) (b, apart, t) =
      elim (Bool-cases (eqb p.ticket ticket)) [
        | inl e ↦ rw e (retain-IsTicketed bound ticket parts t)
        | inr e ↦ rw e (
          b,
          retain-All (λ q. eqb q.ticket p.ticket ≡ false) ticket parts apart,
          retain-IsTicketed bound ticket parts t,
        )
      ]

-- The set that grows by a difference.
pub has-extend_difference :
    (key : VectorId) (carried now snap : List VectorId)
    → has_id key (extend_difference carried now snap)
      ≡ (has_id key carried || (has_id key now && not (has_id key snap)))
unfolding extend_difference
has-extend_difference key carried [] snap = ground arith
has-extend_difference key carried (id ∷ now) snap =
    let rest = has-extend_difference key carried now snap in
    elim (Bool-cases (eqb key id)) [
      | inl q ↦
          let same : key ≡ id = (eqb_iff key id).0 q in
          subst
            (λ i.
              has_id key (extend_difference carried (i ∷ now) snap)
              ≡ (has_id key carried || (has_id key (i ∷ now) && not (has_id key snap))))
            same (ground (arith, rest, eqb_refl key))
      | inr q ↦ ground (arith, q, rest)
    ]
