-- ===== src/Hnsw/Layer/Results.antt =====
-- The results of `search_layer` as its callers use them.
use gvector.Prelude.{
  ℕ, zero, suc, ◌+◌, ◌≤◌, max, ◌≡◌, refl, ap, subst, inl, inr, true, false, List, [], ◌∷◌, arith,
  ltb, Bool-cases, length, get_or, replicate, All, nat_key, string_key,
}
use gvector.Types.{Cand}
use gvector.Types.Order.{cand_ord}
use gvector.Order.Sort.{insert_sorted, IsSorted, sort-IsSorted, length-insert_sorted, length-sort}
use gvector.Order.Heap.{push}
use gvector.Order.Members.{
  All-sort, length-pop, Starts, Starts-insert_sorted, Starts-insert_self, Starts-pop, Starts-sort,
}
use gvector.Distance.{F32Ops}
use gvector.BruteForce.Contains.{IsDistinct}
use gvector.Hnsw.{HnswIndex, cand_at}
use gvector.Hnsw.Layer.{
  Traversal, LayerQuery, admissible, enter, enter_all, admit, within, visit, layer_loop, start,
  search_layer,
}
use gvector.Hnsw.Layer.Slots.{slots, sort-IsDistinct}
use gvector.Hnsw.Layer.Found.{
  HasLevel, IsClosed, IsHit, IsSound, enter-IsSound, visit-IsSound, layer_loop-keeps,
}

length-replicate {ℓ} : {A : Type ℓ} (n : ℕ) (a : A) → length (replicate n a) ≡ n
length-replicate zero a = refl
length-replicate (suc n) a = ap suc (length-replicate n a)

get_or-unmarked : (n i : ℕ) → get_or (replicate n false) i false ≡ false
get_or-unmarked zero i = refl
get_or-unmarked (suc n) zero = refl
get_or-unmarked (suc n) (suc i) = get_or-unmarked n i

module _ (ops : F32Ops) {R : Type 0} (idx : HnswIndex R) (ask : LayerQuery) where
  pub start-IsSound : IsSound ops idx ask (start ops idx ask)
  start-IsSound = record {
    size = length-replicate (length idx.links) false;
    places = tt;
    hits = tt;
    marked = λ s q. cc;
    distinct = tt;
  }

  pub enter_all-IsSound :
      (eps : List ℕ) (t : Traversal)
      → IsSound ops idx ask t
      → All (HasLevel idx.links ask.level) eps
      → IsSound ops idx ask (enter_all ops idx ask eps t)
  unfolding enter_all
  enter_all-IsSound [] t s h = s
  enter_all-IsSound (ep ∷ eps) t s (h, hs) =
      enter_all-IsSound eps (enter ops idx ask ep t) (enter-IsSound ops idx ask ep t s h) hs

  pub popped-IsSound :
      (t : Traversal) (c : Cand) (rest : List Cand)
      → t.candidates ≡ c ∷ rest
      → IsSound ops idx ask t
      → IsSound ops idx ask (record t { candidates = rest })
  popped-IsSound t c rest e s = record {
    size = s.size;
    places = (subst (All (λ d. HasLevel idx.links ask.level d.slot)) e s.places).1;
    hits = s.hits;
    marked = s.marked;
    distinct = s.distinct;
  }

  loop-IsSound :
      IsClosed idx.links
      → (fuel : ℕ) (t : Traversal) → IsSound ops idx ask t
      → IsSound ops idx ask (layer_loop ops idx ask fuel t)
  loop-IsSound closed fuel t s =
      layer_loop-keeps ops idx ask (IsSound ops idx ask) popped-IsSound
        (λ nb u v h. visit-IsSound ops idx ask nb u v h) closed fuel t s

  -- The heap of results never grows past `ef` and what it was before.
  length-admit :
      (c : Cand) (rs : List Cand) (b : ℕ)
      → ask.ef ≤ b
      → length rs ≤ b
      → length (admit ops idx ask c rs) ≤ b
  unfolding admit push
  length-admit c rs b e h =
      ground (arith, length-insert_sorted c rs, length-pop (insert_sorted c rs))

  visit-length :
      (b nb : ℕ) (t : Traversal)
      → ask.ef ≤ b
      → length t.results ≤ b
      → length (visit ops idx ask nb t).results ≤ b
  unfolding visit
  visit-length b nb t e h =
      ground (arith, length-admit (cand_at ops idx ask.query nb) t.results b e h)

  enter_all-length :
      (eps : List ℕ) (t : Traversal)
      → length (enter_all ops idx ask eps t).results ≤ length t.results + length eps
  unfolding enter_all enter push
  enter_all-length [] t = omega arith
  enter_all-length (ep ∷ eps) t = ground (
    arith,
    length-insert_sorted (cand_at ops idx ask.query ep) t.results,
    enter_all-length eps (enter ops idx ask ep t),
  )

  -- The nearest result is never farther than a result that was there.
  admit-Starts : (e c : Cand) (rs : List Cand) → Starts e rs → Starts e (admit ops idx ask c rs)
  unfolding admit push
  admit-Starts e c [] h = absurd h
  admit-Starts e c (r ∷ rs) h =
      let more = Starts-insert_sorted e c (r ∷ rs) h in
      let n = length-insert_sorted c (r ∷ rs) in
      elim (Bool-cases (ltb ask.ef (length (insert_sorted c (r ∷ rs))))) [
        | inl q ↦ rw q (Starts-pop e (insert_sorted c (r ∷ rs)) (omega arith) more)
        | inr q ↦ rw q more
      ]

  visit-Starts :
      (e : Cand) (nb : ℕ) (t : Traversal)
      → Starts e t.results
      → Starts e (visit ops idx ask nb t).results
  unfolding visit
  visit-Starts e nb t h =
      let c = cand_at ops idx ask.query nb in
      elim (Bool-cases (get_or t.visited nb false)) [
        | inl q ↦ rw q h
        | inr q ↦ elim (Bool-cases (within ops idx ask c.dist t.results)) [
          | inr w ↦ rw (q, w) h
          | inl w ↦ elim (Bool-cases (admissible ops idx ask nb)) [
            | inr a ↦ rw (q, w, a) h
            | inl a ↦ rw (q, w, a) (admit-Starts e c t.results h)
          ]
        ]
      ]

  -- Every result is a node of the layer that may be returned, with its distance; they are in
  -- order, without repetition, and at most `ef` or as many as the entry points.
  pub search_layer-IsHit :
      (eps : List ℕ)
      → IsClosed idx.links
      → All (HasLevel idx.links ask.level) eps
      → let found = (search_layer ops idx ask eps).0 in
        All (IsHit ops idx ask) found
        × IsSorted found
        × IsDistinct (slots found)
        × (length found ≤ max ask.ef (length eps))
  unfolding search_layer
  search_layer-IsHit eps closed h =
      let entered = enter_all ops idx ask eps (start ops idx ask) in
      let t = layer_loop ops idx ask (suc (length idx.links)) entered in
      let sound =
        loop-IsSound closed (suc (length idx.links)) entered
          (enter_all-IsSound eps (start ops idx ask) start-IsSound h) in
      let short : length t.results ≤ max ask.ef (length eps) =
        layer_loop-keeps ops idx ask (λ u. length u.results ≤ max ask.ef (length eps))
          (λ u c rest e p. p)
          (λ nb u p l. visit-length (max ask.ef (length eps)) nb u (omega arith) p) closed
          (suc (length idx.links)) entered
          (omega (arith, enter_all-length eps (start ops idx ask))) in
      (
        All-sort (IsHit ops idx ask) t.results sound.hits,
        sort-IsSorted t.results,
        sort-IsDistinct t.results sound.distinct,
        omega (arith, length-sort t.results, short),
      )

  -- From one entry point that may be returned, the search finds something, and the first result
  -- is not farther than the entry point.
  pub search_layer-Starts :
      (ep : ℕ)
      → IsClosed idx.links
      → admissible ops idx ask ep ≡ true
      → Starts (cand_at ops idx ask.query ep) (search_layer ops idx ask (ep ∷ [])).0
  unfolding search_layer enter_all enter push
  search_layer-Starts ep closed a =
      let c = cand_at ops idx ask.query ep in
      let entered = enter_all ops idx ask (ep ∷ []) (start ops idx ask) in
      let unmarked : get_or (replicate (length idx.links) false) ep false ≡ false =
        get_or-unmarked (length idx.links) ep in
      Starts-sort c (layer_loop ops idx ask (suc (length idx.links)) entered).results (
        layer_loop-keeps ops idx ask (λ u. Starts c u.results) (λ u d rest e p. p)
          (λ nb u p l. visit-Starts c nb u p) closed (suc (length idx.links)) entered
          (rw (unmarked, a) (Starts-insert_self c [])))
