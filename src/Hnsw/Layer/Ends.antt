-- ===== src/Hnsw/Layer/Ends.antt =====
-- The loop of `search_layer` ends by its own tests: every round takes a candidate, and a candidate
-- is a node that was marked when it was pushed.
use gvector.Prelude.{
  ℕ, zero, suc, ◌+◌, ◌-◌, ◌≤◌, ◌<◌, ◌≡◌, refl, sym, ap, ◌∙◌, inl, inr, Bool, true, false, ◌||◌,
  List, [], ◌∷◌, arith, if◌then◌else◌, Bool-cases, List-cases, length, get_or, set, replicate, All,
  nat_key, string_key,
}
use native.Mathlib.Nat.{suc-add}
use gvector.Types.{Cand}
use gvector.Types.Order.{cand_ord}
use gvector.Order.Sort.{sort, length-insert_sorted}
use gvector.Distance.{F32Ops}
use gvector.Hnsw.{HnswIndex, neighbors_at, cand_at}
use gvector.Hnsw.Layer.{
  Traversal, LayerQuery, enter, enter_all, visit, visit_all, layer_loop, start, search_layer,
  over_budget, too_far,
}
use gvector.Hnsw.Layer.Found.{
  HasLevel, IsClosed, IsSound, HasLevel-lt, enter-IsSound, visit-IsSound,
}
use gvector.Hnsw.Layer.Results.{start-IsSound, popped-IsSound}

-- The nodes that are not marked yet.
unmarked : List Bool → ℕ
unmarked [] = 0
unmarked (true ∷ xs) = unmarked xs
unmarked (false ∷ xs) = suc (unmarked xs)

unmarked-set :
    (xs : List Bool) (i : ℕ)
    → i < length xs
    → get_or xs i false ≡ false
    → unmarked (set xs i true) + 1 ≡ unmarked xs
unfolding unmarked
unmarked-set [] i l h = elim l [ ]
unmarked-set (true ∷ xs) zero l h = cc
unmarked-set (false ∷ xs) zero l h = omega arith
unmarked-set (true ∷ xs) (suc i) l h = unmarked-set xs i (omega arith) h
unmarked-set (false ∷ xs) (suc i) l h = omega (arith, unmarked-set xs i (omega arith) h)

unmarked-replicate : (n : ℕ) → unmarked (replicate n false) ≡ n
unfolding unmarked
unmarked-replicate zero = refl
unmarked-replicate (suc n) = ap suc (unmarked-replicate n)

-- The rounds that a traversal has left at most.
abbrev rounds : Traversal → ℕ
rounds t = length t.candidates + unmarked t.visited

module _ (ops : F32Ops) {R : Type 0} (idx : HnswIndex R) (ask : LayerQuery) where
  mark_rounds :
      (t : Traversal) (s : ℕ)
      → IsSound ops idx ask t
      → HasLevel idx.links ask.level s
      → get_or t.visited s false ≡ false
      → unmarked (set t.visited s true) + 1 ≡ unmarked t.visited
  mark_rounds t s sound h q =
      unmarked-set t.visited s (omega (arith, HasLevel-lt idx.links ask.level s h, sound.size)) q

  visit-rounds :
      (nb : ℕ) (t : Traversal)
      → IsSound ops idx ask t
      → HasLevel idx.links ask.level nb
      → rounds (visit ops idx ask nb t) ≤ rounds t
  unfolding visit
  visit-rounds nb t sound h = elim (Bool-cases (get_or t.visited nb false)) [
    | inl q ↦ rw q (omega arith)
    | inr q ↦ ground (
      arith,
      mark_rounds t nb sound h q,
      length-insert_sorted (cand_at ops idx ask.query nb) t.candidates,
    )
  ]

  enter-rounds :
      (ep : ℕ) (t : Traversal)
      → IsSound ops idx ask t
      → HasLevel idx.links ask.level ep
      → rounds (enter ops idx ask ep t) ≤ rounds t
  unfolding enter
  enter-rounds ep t sound h = elim (Bool-cases (get_or t.visited ep false)) [
    | inl q ↦ rw q (omega arith)
    | inr q ↦ ground (
      arith,
      mark_rounds t ep sound h q,
      length-insert_sorted (cand_at ops idx ask.query ep) t.candidates,
    )
  ]

  enter_all-rounds :
      (eps : List ℕ) (t : Traversal)
      → IsSound ops idx ask t
      → All (HasLevel idx.links ask.level) eps
      → IsSound ops idx ask (enter_all ops idx ask eps t)
        × (rounds (enter_all ops idx ask eps t) ≤ rounds t)
  unfolding enter_all
  enter_all-rounds [] t s h = (s, omega arith)
  enter_all-rounds (ep ∷ eps) t s (h, hs) =
      let next = enter ops idx ask ep t in
      let (sound, less) = enter_all-rounds eps next (enter-IsSound ops idx ask ep t s h) hs in
      (sound, omega (arith, less, enter-rounds ep t s h))

  -- One round's visits leave no more rounds than there were.
  visited-All :
      (nbs : List ℕ) (t : Traversal)
      → IsSound ops idx ask t
      → All (HasLevel idx.links ask.level) nbs
      → IsSound ops idx ask (visit_all ops idx ask nbs t)
        × (rounds (visit_all ops idx ask nbs t) ≤ rounds t)
  unfolding visit_all
  visited-All [] t s h = (s, omega arith)
  visited-All (nb ∷ nbs) t s (h, hs) =
      let next = visit ops idx ask nb t in
      let (sound, less) = visited-All nbs next (visit-IsSound ops idx ask nb t s h) hs in
      (sound, omega (arith, less, visit-rounds nb t s h))

  -- With no candidate left the loop is over.
  loop-done : (fuel : ℕ) (t : Traversal) → t.candidates ≡ [] → layer_loop ops idx ask fuel t ≡ t
  unfolding layer_loop
  loop-done zero t e = refl
  loop-done (suc fuel) t e = ground arith

  loop-step :
      (fuel : ℕ) (t : Traversal) (cur : Cand) (rest : List Cand)
      → t.candidates ≡ cur ∷ rest
      → layer_loop ops idx ask (suc fuel) t ≡ (
          let popped = record t { candidates = rest } in
          if over_budget ops idx ask t || too_far ops idx ask cur t
          then popped
          else layer_loop ops idx ask fuel
              (visit_all ops idx ask (neighbors_at idx.links cur.slot ask.level) popped))
  unfolding layer_loop
  loop-step fuel t cur rest e = ground arith

  loop-enough :
      IsClosed idx.links
      → (fuel extra : ℕ) (t : Traversal) → IsSound ops idx ask t
      → rounds t ≤ fuel
      → layer_loop ops idx ask (fuel + extra) t ≡ layer_loop ops idx ask fuel t
  loop-enough closed zero extra t s h = elim (List-cases t.candidates) [
    | inl e ↦ loop-done (0 + extra) t e ∙ sym (loop-done 0 t e)
    | inr (cur, rest, e) ↦ absurd (omega (arith, ap length e))
  ]
  loop-enough closed (suc fuel) extra t s h = elim (List-cases t.candidates) [
    | inl e ↦ loop-done (suc fuel + extra) t e ∙ sym (loop-done (suc fuel) t e)
    | inr (cur, rest, e) ↦
        let popped = record t { candidates = rest } in
        let (sound, less) =
          visited-All (neighbors_at idx.links cur.slot ask.level) popped
            (popped-IsSound ops idx ask t cur rest e s) (closed cur.slot ask.level) in
        ap (λ n. layer_loop ops idx ask n t) (suc-add fuel extra)
        ∙ loop-step (fuel + extra) t cur rest e
        ∙ ap
            (λ (z : Traversal).
              if over_budget ops idx ask t || too_far ops idx ask cur t then popped else z)
            (loop-enough closed fuel extra _ sound (omega (arith, less, ap length e)))
        ∙ sym (loop-step fuel t cur rest e)
  ]

  -- Any fuel above the number of nodes gives what `search_layer` gives.
  pub search_layer-enough :
      (eps : List ℕ) (fuel : ℕ)
      → IsClosed idx.links
      → All (HasLevel idx.links ask.level) eps
      → length idx.links < fuel
      → search_layer ops idx ask eps ≡ (
          let t = layer_loop ops idx ask fuel (enter_all ops idx ask eps (start ops idx ask)) in
          (sort t.results, t.visited_count, t.admitted_count))
  unfolding search_layer
  search_layer-enough eps fuel closed h l =
      let n = suc (length idx.links) in
      let (sound, less) = enter_all-rounds eps (start ops idx ask) (start-IsSound ops idx ask) h in
      let more =
        loop-enough closed n (fuel - n) (enter_all ops idx ask eps (start ops idx ask)) sound
          (omega (arith, less, unmarked-replicate (length idx.links))) in
      let e : n + (fuel - n) ≡ fuel = omega arith in
      ap (λ (t : Traversal). (sort t.results, t.visited_count, t.admitted_count))
        (sym more
          ∙ ap (λ f. layer_loop ops idx ask f (enter_all ops idx ask eps (start ops idx ask))) e)
