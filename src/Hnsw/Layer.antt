-- ===== src/Hnsw/Layer.antt =====
-- src/index/hnsw.rs, `search_layer`: the best-first search of one layer. The heap of candidates has
-- the nearest on top and is kept as its ascending list; that of results has the farthest on top.
pub mod Slots
pub mod Found
pub mod Results
pub mod Ends
use gvector.Prelude.{
  ℕ, zero, suc, ◌+◌, refl, Bool, true, false, not, ◌&&◌, ◌||◌, Option, none, some, List, [], ◌∷◌,
  ltb, leb, if◌then◌else◌, length, get_or, set, replicate, nat_key, string_key,
}
use gvector.Types.{F32, Cand}
use gvector.Types.Order.{cand_ord}
use gvector.Order.Sort.{insert_sorted, sort}
use gvector.Order.Heap.{push, pop, peek}
use gvector.Distance.{F32Ops}
use gvector.Hnsw.{HnswIndex, neighbors_at, cand_at, dist_to}

-- The variables of the search.
pub record Traversal : Type 0 where
  pub visited : List Bool
  pub visited_count : ℕ
  pub admitted_count : ℕ
  pub candidates : List Cand
  pub results : List Cand

-- What a call asks for: `query`, `ef`, `level`, `exclude_deleted`, `filter`, `visited_budget`.
pub record LayerQuery : Type 0 where
  pub query : List F32
  pub ef : ℕ
  pub level : ℕ
  pub exclude_deleted : Bool
  pub filter : Option (ℕ → Bool)
  pub visited_budget : Option ℕ

abbrev pub passes : Option (ℕ → Bool) → ℕ → Bool
passes filter slot = elim filter [ none ↦ true | some f ↦ f slot ]

module _ (ops : F32Ops) {R : Type 0} (idx : HnswIndex R) (ask : LayerQuery) where
  unfoldable pub admissible : ℕ → Bool
  admissible slot =
      not (ask.exclude_deleted && get_or idx.deleted slot false) && passes ask.filter slot

  -- One round of `for &ep in entry_points`.
  unfoldable pub enter : ℕ → Traversal → Traversal
  unfolding admissible
  enter ep t =
      let c = cand_at ops idx ask.query ep in
      let seen = record t {
        visited = set t.visited ep true;
        visited_count = t.visited_count + 1;
        candidates = insert_sorted c t.candidates;
      } in
      if get_or t.visited ep false
      then t
      else if admissible ep
      then record seen { results = push c t.results; admitted_count = t.admitted_count + 1 }
      else seen

  unfoldable pub enter_all : List ℕ → Traversal → Traversal
  unfolding enter
  enter_all [] t = t
  enter_all (ep ∷ eps) t = enter_all eps (enter ep t)

  -- `results.len() < ef || results.peek().is_none_or(|worst| d < worst.dist)`
  unfoldable pub within : F32 → List Cand → Bool
  within d results =
      ltb (length results) ask.ef
      || elim (peek results) [ none ↦ true | some worst ↦ ops.gt worst.dist d ]

  -- `results.push(c)`, and the farthest goes if there are more than `ef`.
  unfoldable pub admit : Cand → List Cand → List Cand
  admit c results = let more = push c results in if ltb ask.ef (length more) then pop more else more

  -- One round of `for &nb in &self.links[cur.slot][level]`.
  unfoldable pub visit : ℕ → Traversal → Traversal
  unfolding within admit admissible
  visit nb t =
      let c = cand_at ops idx ask.query nb in
      let seen = record t {
        visited = set t.visited nb true;
        visited_count = t.visited_count + 1;
      } in
      let queued = record seen { candidates = insert_sorted c t.candidates } in
      if get_or t.visited nb false
      then t
      else if not (within (dist_to ops idx ask.query nb) t.results)
      then seen
      else if admissible nb
      then record queued { results = admit c t.results; admitted_count = t.admitted_count + 1 }
      else queued

  unfoldable pub visit_all : List ℕ → Traversal → Traversal
  unfolding visit
  visit_all [] t = t
  visit_all (nb ∷ nbs) t = visit_all nbs (visit nb t)

  -- The tests that end the loop: the budget, and a candidate farther than all of `ef` results.
  unfoldable pub over_budget : Traversal → Bool
  over_budget t = elim ask.visited_budget [ none ↦ false | some b ↦ leb b t.visited_count ]

  unfoldable pub too_far : Cand → Traversal → Bool
  too_far cur t = elim (peek t.results) [
    | none ↦ false
    | some worst ↦ ops.gt cur.dist worst.dist && leb ask.ef (length t.results)
  ]

  -- `while let Some(Reverse(cur)) = candidates.pop()`
  unfoldable pub layer_loop : ℕ → Traversal → Traversal
  unfolding over_budget too_far visit_all
  layer_loop zero t = t
  layer_loop (suc fuel) t = elim t.candidates [
    | [] ↦ t
    | cur ∷ rest ↦
        let popped = record t { candidates = rest } in
        let next = layer_loop fuel (visit_all (neighbors_at idx.links cur.slot ask.level) popped) in
        if over_budget t || too_far cur t then popped else next
  ]

  abbrev pub start : Traversal
  start = record {
    visited = replicate (length idx.links) false;
    visited_count = 0;
    admitted_count = 0;
    candidates = [];
    results = [];
  }

  -- Every candidate that is popped was marked once, so there are no more rounds than nodes.
  unfoldable pub search_layer : List ℕ → List Cand × ℕ × ℕ
  unfolding enter_all layer_loop
  search_layer entry_points =
      let t = layer_loop (suc (length idx.links)) (enter_all entry_points start) in
      (sort t.results, t.visited_count, t.admitted_count)
