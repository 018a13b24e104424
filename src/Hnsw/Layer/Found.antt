-- ===== src/Hnsw/Layer/Found.antt =====
-- What `search_layer` finds on a graph whose edges end in nodes of their level.
use gvector.Prelude.{
  ℕ, zero, suc, ◌+◌, ◌≤◌, ◌<◌, ◌≡◌, refl, sym, ◌∙◌, inl, inr, Bool, true, false, ◌||◌, List, [],
  ◌∷◌, arith, ltb, eqb, eqb_iff, Bool-cases, List-cases, length, get_or, set, All, length-set,
  nat_key, string_key,
}
use gvector.Types.{Cand}
use gvector.Types.Order.{cand_ord}
use gvector.Order.Sort.{insert_sorted}
use gvector.Order.Heap.{push}
use gvector.Order.Members.{All-pop, All-insert_sorted}
use gvector.Distance.{F32Ops}
use gvector.BruteForce.Contains.{IsDistinct}
use gvector.Hnsw.{HnswIndex, levels_at, neighbors_at, cand_at}
use gvector.Hnsw.Layer.{
  Traversal, LayerQuery, admissible, enter, admit, within, visit, visit_all, layer_loop,
  over_budget, too_far,
}
use gvector.Hnsw.Layer.Slots.{
  slots, has_slot, has_slot-insert_sorted, has_slot-pop, insert_sorted-IsDistinct, pop-IsDistinct,
}

-- The node exists and reaches the level, so `links[slot][level]` is within bounds.
abbrev pub HasLevel : List (List (List ℕ)) → ℕ → ℕ → Type 0
HasLevel links level slot = level < length (levels_at links slot)

-- Every edge ends in a node that has the level of the edge.
abbrev pub IsClosed : List (List (List ℕ)) → Type 0
IsClosed links = (slot level : ℕ) → All (HasLevel links level) (neighbors_at links slot level)

pub get_or-false : (xs : List Bool) (i : ℕ) → length xs ≤ i → get_or xs i false ≡ false
get_or-false [] i h = refl
get_or-false (x ∷ xs) zero h = absurd (omega arith)
get_or-false (x ∷ xs) (suc i) h = get_or-false xs i (omega arith)

-- A mark stays where it was made, and no other appears.
pub get_or-mark :
    (xs : List Bool) (i j : ℕ)
    → i < length xs
    → get_or (set xs i true) j false ≡ (eqb i j || get_or xs j false)
get_or-mark [] i j h = elim h [ ]
get_or-mark (x ∷ xs) zero zero h = refl
get_or-mark (x ∷ xs) zero (suc j) h = ground arith
get_or-mark (x ∷ xs) (suc i) zero h = ground arith
get_or-mark (x ∷ xs) (suc i) (suc j) h = get_or-mark xs i j (omega arith) ∙ ground arith

pub HasLevel-lt :
    (links : List (List (List ℕ))) (level slot : ℕ)
    → HasLevel links level slot
    → slot < length links
HasLevel-lt [] level slot h = elim h [ ]
HasLevel-lt (x ∷ links) level zero h = omega arith
HasLevel-lt (x ∷ links) level (suc slot) h = omega (arith, HasLevel-lt links level slot h)

module _ (ops : F32Ops) {R : Type 0} (idx : HnswIndex R) (ask : LayerQuery) where
  -- What a result is: a node of the layer with its distance to the query, that may be returned.
  abbrev pub IsHit : Cand → Type 0
  IsHit c =
      HasLevel idx.links ask.level c.slot
      × (c ≡ cand_at ops idx ask.query c.slot)
      × (admissible ops idx ask c.slot ≡ true)

  abbrev pub HasPlace : Cand → Type 0
  HasPlace c = HasLevel idx.links ask.level c.slot

  pub record IsSound (t : Traversal) : Type 0 where
    pub size : length t.visited ≡ length idx.links
    pub places : All HasPlace t.candidates
    pub hits : All IsHit t.results
    pub marked : (s : ℕ) → has_slot s t.results ≡ true → get_or t.visited s false ≡ true
    pub distinct : IsDistinct (slots t.results)

  -- An unmarked node is no result yet.
  fresh_slot :
      (t : Traversal) (s : ℕ)
      → IsSound t
      → get_or t.visited s false ≡ false
      → has_slot s t.results ≡ false
  fresh_slot t s sound u = elim (Bool-cases (has_slot s t.results)) [
    | inl q ↦ absurd (ground (arith, sound.marked s q))
    | inr q ↦ q
  ]

  mark_here :
      (t : Traversal) (s : ℕ) (cs : List Cand)
      → IsSound t
      → HasLevel idx.links ask.level s
      → ((j : ℕ) → has_slot j cs ≡ true → (eqb j s || has_slot j t.results) ≡ true)
      → (j : ℕ) → has_slot j cs ≡ true
      → get_or (set t.visited s true) j false ≡ true
  mark_here t s cs sound h sub j q =
      let inside = HasLevel-lt idx.links ask.level s h in
      get_or-mark t.visited s j (omega (arith, sound.size))
      ∙ ground (arith, sub j q, sound.marked j, eqb_iff j s, eqb_iff s j)

  -- The heap of results after a push, and after the farthest has gone.
  admit-hits :
      (c : Cand) (rs : List Cand) → IsHit c → All IsHit rs → All IsHit (admit ops idx ask c rs)
  unfolding admit push
  admit-hits c rs p h =
      let more = All-insert_sorted IsHit c rs p h in
      elim (Bool-cases (ltb ask.ef (length (insert_sorted c rs)))) [
        | inl q ↦ rw q (All-pop IsHit (insert_sorted c rs) more)
        | inr q ↦ rw q more
      ]

  admit-IsDistinct :
      (c : Cand) (rs : List Cand)
      → has_slot c.slot rs ≡ false
      → IsDistinct (slots rs)
      → IsDistinct (slots (admit ops idx ask c rs))
  unfolding admit push
  admit-IsDistinct c rs n d =
      let more = insert_sorted-IsDistinct c rs n d in
      elim (Bool-cases (ltb ask.ef (length (insert_sorted c rs)))) [
        | inl q ↦ rw q (pop-IsDistinct (insert_sorted c rs) more)
        | inr q ↦ rw q more
      ]

  admit-slots :
      (c : Cand) (rs : List Cand) (j : ℕ)
      → has_slot j (admit ops idx ask c rs) ≡ true
      → (eqb j c.slot || has_slot j rs) ≡ true
  unfolding admit push
  admit-slots c rs j h =
      ground (arith, has_slot-insert_sorted j c rs, has_slot-pop j (insert_sorted c rs))

  -- The mark of a node that is not returned.
  seen-IsSound :
      (t : Traversal) (s count : ℕ) (cs : List Cand)
      → IsSound t
      → HasLevel idx.links ask.level s
      → All HasPlace cs
      → IsSound
          (record t { visited = set t.visited s true; visited_count = count; candidates = cs })
  seen-IsSound t s count cs sound h places = record {
    size = length-set t.visited s true ∙ sound.size;
    places = places;
    hits = sound.hits;
    marked = λ j q. mark_here t s t.results sound h (λ i p. ground arith) j q;
    distinct = sound.distinct;
  }

  pub enter-IsSound :
      (ep : ℕ) (t : Traversal)
      → IsSound t
      → HasLevel idx.links ask.level ep
      → IsSound (enter ops idx ask ep t)
  unfolding enter push
  enter-IsSound ep t sound h =
      let c = cand_at ops idx ask.query ep in
      let queue = All-insert_sorted HasPlace c t.candidates h sound.places in
      elim (Bool-cases (get_or t.visited ep false)) [
        | inl q ↦ rw q sound
        | inr q ↦
            let new = fresh_slot t ep sound q in
            elim (Bool-cases (admissible ops idx ask ep)) [
              | inl a ↦
                  rw (q, a)
                    (record {
                      size = length-set t.visited ep true ∙ sound.size;
                      places = queue;
                      hits = All-insert_sorted IsHit c t.results (h, refl, a) sound.hits;
                      marked = λ j r.
                          mark_here t ep (insert_sorted c t.results) sound h
                            (λ i p. sym (has_slot-insert_sorted i c t.results) ∙ p) j r;
                      distinct = insert_sorted-IsDistinct c t.results new sound.distinct;
                    })
              | inr a ↦ rw (q, a) (seen-IsSound t ep (t.visited_count + 1) _ sound h queue)
            ]
      ]

  pub visit-IsSound :
      (nb : ℕ) (t : Traversal)
      → IsSound t
      → HasLevel idx.links ask.level nb
      → IsSound (visit ops idx ask nb t)
  unfolding visit
  visit-IsSound nb t sound h =
      let c = cand_at ops idx ask.query nb in
      let queue = All-insert_sorted HasPlace c t.candidates h sound.places in
      elim (Bool-cases (get_or t.visited nb false)) [
        | inl q ↦ rw q sound
        | inr q ↦ elim (Bool-cases (within ops idx ask c.dist t.results)) [
          | inr w ↦
              rw (q, w) (seen-IsSound t nb (t.visited_count + 1) t.candidates sound h sound.places)
          | inl w ↦ elim (Bool-cases (admissible ops idx ask nb)) [
            | inr a ↦ rw (q, w, a) (seen-IsSound t nb (t.visited_count + 1) _ sound h queue)
            | inl a ↦
                rw (q, w, a)
                  (record {
                    size = length-set t.visited nb true ∙ sound.size;
                    places = queue;
                    hits = admit-hits c t.results (h, refl, a) sound.hits;
                    marked = λ j r.
                        mark_here t nb (admit ops idx ask c t.results) sound h
                          (admit-slots c t.results) j r;
                    distinct =
                        admit-IsDistinct c t.results (fresh_slot t nb sound q) sound.distinct;
                  })
          ]
        ]
      ]

  -- What popping and visiting keep, the loop keeps.
  module _ (P : Traversal → Type 0)
      (pop_keeps : (t : Traversal) (c : Cand) (rest : List Cand)
        → t.candidates ≡ c ∷ rest
        → P t
        → P (record t { candidates = rest }))
      (visit_keeps : (nb : ℕ) (t : Traversal)
        → P t
        → HasLevel idx.links ask.level nb
        → P (visit ops idx ask nb t)) where
    pub visit_all-keeps :
        (nbs : List ℕ) (t : Traversal)
        → P t
        → All (HasLevel idx.links ask.level) nbs
        → P (visit_all ops idx ask nbs t)
    unfolding visit_all
    visit_all-keeps [] t p h = p
    visit_all-keeps (nb ∷ nbs) t p (h, hs) =
        visit_all-keeps nbs (visit ops idx ask nb t) (visit_keeps nb t p h) hs

    pub layer_loop-keeps :
        IsClosed idx.links → (fuel : ℕ) (t : Traversal) → P t → P (layer_loop ops idx ask fuel t)
    unfolding layer_loop
    layer_loop-keeps closed zero t p = p
    layer_loop-keeps closed (suc fuel) t p = elim (List-cases t.candidates) [
      | inl e ↦ rw (e, layer_loop) p
      | inr (cur, rest, e) ↦
          let popped = record t { candidates = rest } in
          let kept = pop_keeps t cur rest e p in
          elim (Bool-cases (over_budget ops idx ask t || too_far ops idx ask cur t)) [
            | inl q ↦ rw (e, layer_loop) (rw q kept)
            | inr q ↦
                rw (e, layer_loop)
                  (rw q (
                    layer_loop-keeps closed fuel _ (
                      visit_all-keeps (neighbors_at idx.links cur.slot ask.level) popped kept
                        (closed cur.slot ask.level))))
          ]
    ]
