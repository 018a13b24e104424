-- ===== src/Hnsw/Update/Picked.antt =====
-- The entry point that takes the place of a deleted one.
use gvector.Prelude.{
  ℕ, zero, suc, ◌+◌, ◌≤◌, ◌<◌, ◌≡◌, refl, sym, ◌∙◌, subst, ◌≢◌, ◌⊎◌, inl, inr, Bool, true, false,
  not, none, some, List, [], ◌∷◌, arith, leb, eqb, eqb_iff, Bool-cases, Option-cases, some_inj,
  length, get_or, filterb, All, get_elem?-lt, nat_key, string_key, lookup,
}
use gvector.Types.{VectorId}
use gvector.Hnsw.{HnswIndex, levels_at, range_from}
use gvector.Hnsw.Update.{pick_new_entry, highest}
use gvector.Hnsw.Update.Rows.{rows}
use gvector.Hnsw.Update.Tracked.{IsTracked, IsAlive}
use gvector.Hnsw.Update.Compacted.{get_or-some}

-- The slots of a range.
range_from-All :
    (P : ℕ → Type 0) (start n : ℕ)
    → ((s : ℕ) → start ≤ s → s < start + n → P s)
    → All P (range_from start n)
unfolding range_from
range_from-All P start zero h = tt
range_from-All P start (suc n) h = (
  h start (omega arith) (omega arith),
  range_from-All P (start + 1) n (λ s l r. h s (omega arith) (omega arith)),
)

All-range_from :
    (P : ℕ → Type 0) (start n s : ℕ) → All P (range_from start n) → start ≤ s → s < start + n → P s
unfolding range_from
All-range_from P start zero s h l r = absurd (omega arith)
All-range_from P start (suc n) s (h, hs) l r = elim (Bool-cases (eqb start s)) [
  | inl e ↦ subst P ((eqb_iff start s).0 e) h
  | inr e ↦ All-range_from P (start + 1) n s hs (ground arith) (omega arith)
]

filterb-All :
    (P : ℕ → Type 0) (p : ℕ → Bool) (xs : List ℕ)
    → All P xs
    → All (λ x. P x × (p x ≡ true)) (filterb p xs)
filterb-All P p [] h = tt
filterb-All P p (x ∷ xs) (h, hs) = elim (Bool-cases (p x)) [
  | inl e ↦ rw e ((h, e), filterb-All P p xs hs)
  | inr e ↦ rw e (filterb-All P p xs hs)
]

filterb-nil : (p : ℕ → Bool) (xs : List ℕ) → filterb p xs ≡ [] → All (λ x. p x ≡ false) xs
filterb-nil p [] h = tt
filterb-nil p (x ∷ xs) h = elim (Bool-cases (p x)) [
  | inl e ↦ absurd (ground arith)
  | inr e ↦ (e, filterb-nil p xs (ground arith))
]

-- The highest is one of the slots, or the best before.
highest-All :
    (P : ℕ → Type 0) (links : List (List (List ℕ))) (slots : List ℕ) (b e : ℕ)
    → All P slots
    → P b
    → highest links slots (some b) ≡ some e
    → P e
unfolding highest
highest-All P links [] b e h p q = subst P (some_inj q) p
highest-All P links (s ∷ slots) b e (h, hs) p q =
    elim (Bool-cases (leb (length (levels_at links b)) (length (levels_at links s)))) [
      | inl l ↦ highest-All P links slots s e hs h (rw l at q)
      | inr l ↦ highest-All P links slots b e hs p (rw l at q)
    ]

highest-some :
    (links : List (List (List ℕ))) (slots : List ℕ) (b : ℕ) → highest links slots (some b) ≢ none
unfolding highest
highest-some links [] b h = cc
highest-some links (s ∷ slots) b h =
    elim (Bool-cases (leb (length (levels_at links b)) (length (levels_at links s)))) [
      | inl l ↦ highest-some links slots s (rw l at h)
      | inr l ↦ highest-some links slots b (rw l at h)
    ]

module _ {R : Type 0} (idx : HnswIndex R) where
  abbrev alive_slot : ℕ → Bool
  alive_slot s = not (get_or idx.deleted s false)

  abbrev alive_slots : List ℕ
  alive_slots = filterb alive_slot (range_from 0 (length idx.ids))

  pick_cases :
      (slots : List ℕ)
      → ((slots ≡ []) × (highest idx.links slots none ≡ none))
        ⊎ ((e : ℕ) × (highest idx.links slots none ≡ some e)
            × ((P : ℕ → Type 0) → All P slots → P e))
  unfolding highest
  pick_cases [] = inl (refl, refl)
  pick_cases (s ∷ slots) = elim (Option-cases (highest idx.links slots (some s))) [
    | inl n ↦ absurd (highest-some idx.links slots s n)
    | inr (e, q) ↦ inr (e, q, λ P h. highest-All P idx.links slots s e h.1 h.0 q)
  ]

  -- A new entry point is alive, and there is one whenever something is.
  pub pick_new_entry-IsValid :
      IsTracked (rows idx)
      → length idx.links ≡ length idx.ids
      → ((s : ℕ) → s < length idx.links → 0 < length (levels_at idx.links s))
      → ((e : ℕ)
          → (pick_new_entry idx).entry ≡ some e
          → (0 < length (levels_at idx.links e)) × IsAlive (rows idx) e)
        × ((pick_new_entry idx).entry ≡ none → (id : VectorId) → lookup id idx.slot_of ≡ none)
  unfolding pick_new_entry
  pick_new_entry-IsValid tracked nodes tall = elim (pick_cases alive_slots) [
    | inl (empty, none_left) ↦ (
      λ e q. cc,
      λ q id. elim (Option-cases (lookup id idx.slot_of)) [
        | inl n ↦ n
        | inr (s, at) ↦
            let (here, alive) = tracked.placed id s at in
            let inside = get_elem?-lt idx.ids s id here in
            let dead =
              All-range_from (λ x. alive_slot x ≡ false) 0 (length idx.ids) s
                (filterb-nil alive_slot (range_from 0 (length idx.ids)) empty) (omega arith)
                (omega arith) in
            let flag = get_or-some idx.deleted s false (omega (arith, tracked.flags)) in
            absurd (ground arith)
      ],
    )
    | inr (e, found, holds) ↦
        let (inside, alive) =
          holds (λ s. (s < length idx.ids) × (alive_slot s ≡ true))
            (filterb-All (λ s. s < length idx.ids) alive_slot (range_from 0 (length idx.ids))
              (range_from-All (λ s. s < length idx.ids) 0 (length idx.ids)
                (λ s l r. omega arith))) in
        let flag = get_or-some idx.deleted e false (omega (arith, tracked.flags)) in
        (
          λ e' q.
              let same : e ≡ e' = some_inj (sym found ∙ q) in
              subst (λ s. (0 < length (levels_at idx.links s)) × IsAlive (rows idx) s) same
                (tall e (omega (arith, nodes)), ground arith),
          λ q. cc,
        )
  ]
