-- ===== src/Segmented/Bury.antt =====
-- What a tombstone on the newest part that holds an id does to its living copies.
use gvector.Prelude.{
  ◌+◌, ◌≡◌, refl, ap, ◌∙◌, subst, inl, inr, Bool, true, false, ◌&&◌, none, some, List, [], ◌∷◌, map,
  arith, eqb, if◌then◌else◌, eqb_iff, eqb_refl, Bool-cases, Option-cases, some_inj, nat_key,
  string_key,
}
use gvector.Types.{VectorId}
use gvector.Segmented.{Part, is_live, is_buried, bury, bury_newest, bury_here}
use gvector.Segmented.Live.{
  Mark, mark, holding_any, IsUnshadowed, alive_count, alive_none, mark-IsHeld,
}

module _ {D : Type 0} (has : D → VectorId → Bool) where
  abbrev pub part_marks : List (Part D) → VectorId → List Mark
  part_marks parts id = map (mark has id) parts

  -- When no part holds the id, nothing is found.
  pub bury-none :
      (id : VectorId) (parts : List (Part D))
      → bury_newest has id parts ≡ none
      → holding_any (part_marks parts id) ≡ false
  unfolding bury_newest
  bury-none id [] e = refl
  bury-none id (p ∷ parts) e = elim (Option-cases (bury_newest has id parts)) [
    | inl n ↦ ground (arith, n, bury-none id parts n)
    | inr ((b, parts'), s) ↦ absurd (cc (rw (s, bury_newest) at e))
  ]

  -- What is found takes away one copy of the id if it was alive.
  abbrev pub Counted : VectorId → VectorId → List (Part D) → Bool × List (Part D) → Type 0
  Counted id key parts (was_live, parts') =
      alive_count (part_marks parts' key) + (if was_live && eqb id key then 1 else 0)
      ≡ alive_count (part_marks parts key)

  bury-mark :
      (id key : VectorId) (p : Part D)
      → has p.data_of id ≡ true
      → is_buried has id p ≡ false
      → (if is_live has key (bury has id p) then 1 else 0) + (if eqb id key then 1 else 0)
        ≡ (if is_live has key p then 1 else 0)
  bury-mark id key p h b = elim (Bool-cases (eqb id key)) [
    | inl q ↦
        let same : id ≡ key = (eqb_iff id key).0 q in
        ground (
          arith,
          q,
          eqb_refl key,
          subst (λ k. has p.data_of k ≡ true) same h,
          subst (λ k. is_buried has k p ≡ false) same b,
          same,
        )
    | inr q ↦ ground (arith, q, eqb_iff id key, eqb_iff key id)
  ]

  -- The part itself is the newest that holds the id.
  bury-here :
      (id : VectorId) (p : Part D) (parts : List (Part D)) (was_live : Bool)
      (parts' : List (Part D))
      → bury_here has id p parts ≡ some (was_live, parts')
      → (holding_any (part_marks (p ∷ parts) id) ≡ true)
        × ((key : VectorId)
            → alive_count (part_marks parts' key) + (if was_live && eqb id key then 1 else 0)
              ≡ alive_count (part_marks (p ∷ parts) key))
  unfolding alive_count bury_here
  bury-here id p parts was_live parts' e = elim (Bool-cases (has p.data_of id)) [
    | inr h ↦ absurd (cc (rw (h, bury_here) at e))
    | inl h ↦ elim (Bool-cases (is_buried has id p)) [
      | inl b ↦
          let same : (false, p ∷ parts) ≡ (was_live, parts') =
            some_inj (rw (b, bury_here) at (rw (h, bury_here) at e)) in
          (
            ground (arith, h),
            λ key.
                let base : Counted id key (p ∷ parts) (false, p ∷ parts) = omega arith in
                subst (Counted id key (p ∷ parts)) same base,
          )
      | inr b ↦
          let same : (true, bury has id p ∷ parts) ≡ (was_live, parts') =
            some_inj (rw (b, bury_here) at (rw (h, bury_here) at e)) in
          (
            ground (arith, h),
            λ key.
                let base : Counted id key (p ∷ parts) (true, bury has id p ∷ parts) =
                  omega (arith, bury-mark id key p h b) in
                subst (Counted id key (p ∷ parts)) same base,
          )
    ]
  ]

  -- What is found is found alive exactly when there was a living copy, and the tombstone removes
  -- one copy of this id.
  pub bury-some :
      (id : VectorId) (parts : List (Part D)) (was_live : Bool) (parts' : List (Part D))
      → bury_newest has id parts ≡ some (was_live, parts')
      → (holding_any (part_marks parts id) ≡ true)
        × ((key : VectorId)
            → alive_count (part_marks parts' key) + (if was_live && eqb id key then 1 else 0)
              ≡ alive_count (part_marks parts key))
  unfolding bury_newest alive_count
  bury-some id [] was_live parts' e = absurd (cc e)
  bury-some id (p ∷ parts) was_live parts' e = elim (Option-cases (bury_newest has id parts)) [
    | inl n ↦ bury-here id p parts was_live parts' (rw (n, bury_newest) at e)
    | inr ((b, rest), s) ↦
        let (held, counts) = bury-some id parts b rest s in
        let e' = rw (s, bury_newest) at e in
        let b_eq : b ≡ was_live = cc e' in
        let parts_eq : p ∷ rest ≡ parts' = cc e' in
        (
          ground (arith, held),
          λ key.
              subst
                (λ ps.
                  alive_count (part_marks ps key) + (if was_live && eqb id key then 1 else 0)
                  ≡ alive_count (part_marks (p ∷ parts) key))
                parts_eq
                (omega (
                  arith,
                  subst
                      (λ z.
                        alive_count (part_marks rest key) + (if z && eqb id key then 1 else 0)
                        ≡ alive_count (part_marks parts key))
                      b_eq (counts key),
                )),
        )
  ]

  bury-here-dead :
      (id : VectorId) (p : Part D) (parts parts' : List (Part D))
      → bury_here has id p parts ≡ some (false, parts')
      → is_live has id p ≡ false
  unfolding bury_here
  bury-here-dead id p parts parts' e = ground (arith, e)

  -- Where a living copy is the newest one, a newest part that is buried leaves none alive.
  pub bury-dead :
      (id : VectorId) (parts parts' : List (Part D))
      → IsUnshadowed (part_marks parts id)
      → bury_newest has id parts ≡ some (false, parts')
      → alive_count (part_marks parts id) ≡ 0
  unfolding bury_newest alive_count
  bury-dead id [] parts' u e = refl
  bury-dead id (p ∷ parts) parts' (u, us) e = elim (Option-cases (bury_newest has id parts)) [
    | inl n ↦
        let below =
          alive_none (part_marks parts id) (mark-IsHeld has id parts) (bury-none id parts n) in
        let here = rw (n, bury_newest) at e in
        ground (arith, below, bury-here-dead id p parts parts' here)
    | inr ((b, rest), s) ↦
        let (held, counts) = bury-some id parts b rest s in
        let dead : b ≡ false = cc (rw (s, bury_newest) at e) in
        ground (arith, held, u, bury-dead id parts rest us (s ∙ ap (λ z. some (z, rest)) dead))
  ]
