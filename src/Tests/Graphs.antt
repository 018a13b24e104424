-- ===== src/Tests/Graphs.antt =====
-- The graph index on a line of small integers. The random levels alternate between 0 and 1.
use gvector.Prelude.{
  ℕ, ◌+◌, ◌-◌, ◌*◌, ◌/◌, ◌%◌, ◌≤◌, ◌<◌, ◌≡◌, refl, subst, ◌⊎◌, true, false, not, ◌&&◌, none, some,
  List, [], ◌∷◌, arith, ltb, leb, eqb, length, get_or, All, nat_key, string_key, lookup, insert,
}
use gvector.Types.{VectorId}
use gvector.Types.Order.{cand_ord, lt_cand}
use gvector.Order.Sort.{sort, insert_sorted, IsSorted}
use gvector.Index.{ok, err, not_found}
use gvector.Order.Heap.{peek, push}
use gvector.Distance.{F32Ops, l2, prepare, distance}
use gvector.BruteForce.Contains.{IsDistinct}
use gvector.Segmented.{contains_live}
use gvector.Segmented.Spec.{Op, insert_op, delete_op, build_op, spec_run}
use gvector.Segmented.Refines.{run, new as new_index}
use gvector.Hnsw.{
  HnswIndex, HnswParams, Randomness, new, contains, random_level, cand_at, dist_to, vector_at,
  set_neighbors, max_links,
}
use gvector.Hnsw.AsGraph.{hnsw_graph, run_hnsw}
use gvector.Hnsw.Layer.{LayerQuery, search_layer, layer_loop, enter_all, start}
use gvector.Hnsw.Layer.Slots.{slots}
use gvector.Hnsw.Layer.Found.{HasLevel, IsHit}
use gvector.Hnsw.Layer.Results.{search_layer-IsHit}
use gvector.Hnsw.Layer.Ends.{search_layer-enough}
use gvector.Hnsw.Neighbors.{select_neighbors_heuristic, shrink_links}
use gvector.Hnsw.Query.{plain, descend, search_with_ef, search_filtered_with_ef}
use gvector.Hnsw.Query.Descend.{descend-closer}
use gvector.Hnsw.Query.Searches.{Answers, search_with_ef-Answers}
use gvector.Hnsw.Query.Filtered.{exact, search_filtered_complete}
use gvector.Hnsw.Update.{
  insert_vector, delete, count_down_to, link_node, link_from, link_levels, connect_all, connect,
}
use gvector.Hnsw.Update.Valid.{IsValid, new-IsValid}
use gvector.Hnsw.Update.Inserted.{insert_vector-IsValid}
use gvector.Hnsw.Update.Deleted.{delete-total}

abbrev line_ops : F32Ops
line_ops = record {
  add = ◌+◌;
  sub = λ a b. (a - b) + (b - a);
  mul = ◌*◌;
  div = ◌/◌;
  neg = λ a. a;
  sqrt = λ a. a;
  gt = λ a b. ltb b a;
  reduce_add = λ lanes. get_or lanes 0 0;
}

abbrev pub toy_random : Randomness ℕ
toy_random = record {
  seed_from_u64 = λ seed. seed;
  gen_range = λ r. (r, r + 1);
  of_usize = λ n. n;
  one = 1;
  ln = λ x. x;
  neg = λ x. x;
  mul = λ a b. a % 2;
  div = λ a b. (10 * a) / b;
  ge = λ a b. leb b a;
  floor_to_usize = λ x. x;
}

abbrev pub toy_params : HnswParams
toy_params = record {
  m = 2;
  m_max0 = 4;
  ef_construction = 4;
  ef_search = 4;
  seed = 0;
  tombstone_threshold = 6;
}

abbrev pub none_yet : HnswIndex ℕ
none_yet = record {
  params = toy_params;
  metric = l2;
  dim = 1;
  ml = 5;
  storage = [];
  ids = [];
  slot_of = [];
  links = [];
  entry = none;
  deleted = [];
  deleted_count = 0;
  rng = 0;
}

new_none : new toy_random 1 l2 toy_params ≡ none_yet
unfolding new
new_none = refl

abbrev one_node : HnswIndex ℕ
one_node = record none_yet {
  storage = 3 ∷ [];
  ids = 7 ∷ [];
  slot_of = (7, 0) ∷ [];
  links = ([] ∷ []) ∷ [];
  entry = some 0;
  deleted = false ∷ [];
  rng = 1;
}

insert_7 : insert_vector line_ops toy_random none_yet 7 (3 ∷ []) ≡ ok one_node
unfolding insert_vector contains lookup random_level insert prepare
insert_7 = refl

-- The node of 9 has two levels, and is the entry point.
abbrev pub two_nodes : HnswIndex ℕ
two_nodes = record none_yet {
  storage = 3 ∷ 5 ∷ [];
  ids = 7 ∷ 9 ∷ [];
  slot_of = (7, 0) ∷ (9, 1) ∷ [];
  links = ((1 ∷ []) ∷ []) ∷ ((0 ∷ []) ∷ [] ∷ []) ∷ [];
  entry = some 1;
  deleted = false ∷ false ∷ [];
  rng = 2;
}

insert_9 : insert_vector line_ops toy_random one_node 9 (5 ∷ []) ≡ ok two_nodes
unfolding insert_vector contains lookup random_level insert prepare count_down_to descend
    search_layer select_neighbors_heuristic peek push insert_sorted sort dist_to vector_at
    set_neighbors max_links lt_cand link_node link_from link_levels connect_all connect shrink_links
    distance
insert_9 = refl

none_yet-IsValid : IsValid none_yet
none_yet-IsValid = subst IsValid new_none (new-IsValid toy_random 1 l2 toy_params)

one_node-IsValid : IsValid one_node
one_node-IsValid =
    insert_vector-IsValid line_ops toy_random none_yet 7 (3 ∷ []) none_yet-IsValid insert_7

pub two_nodes-IsValid : IsValid two_nodes
two_nodes-IsValid =
    insert_vector-IsValid line_ops toy_random one_node 9 (5 ∷ []) one_node-IsValid insert_9

insert_vector-IsValid_example : IsValid two_nodes
insert_vector-IsValid_example =
    insert_vector-IsValid line_ops toy_random one_node 9 (5 ∷ []) one_node-IsValid insert_9

delete-total_example :
    ((contains two_nodes 7 ≡ false)
      × (delete line_ops toy_random two_nodes 7 ≡ some (err (not_found 7))))
    ⊎ ((contains two_nodes 7 ≡ true)
        × ((idx' : HnswIndex ℕ) × (delete line_ops toy_random two_nodes 7 ≡ some (ok idx'))
            × IsValid idx'
            × ((key : VectorId) → contains idx' key ≡ (not (eqb 7 key) && contains two_nodes key))))
delete-total_example = delete-total line_ops toy_random two_nodes 7 two_nodes-IsValid

holds_7 : contains two_nodes 7 ≡ true
unfolding contains lookup
holds_7 = refl

search_with_ef-Answers_example :
    Answers line_ops two_nodes two_nodes-IsValid
      (prepare line_ops l2 (4 ∷ []))
      (λ id. true)
      2
      (search_with_ef line_ops two_nodes (4 ∷ []) 2 4)
search_with_ef-Answers_example =
    search_with_ef-Answers line_ops two_nodes two_nodes-IsValid (4 ∷ []) 2 4

search_filtered_complete_example :
    (Answers line_ops two_nodes two_nodes-IsValid
        (prepare line_ops l2 (4 ∷ []))
        (eqb 9)
        2
        (search_filtered_with_ef line_ops two_nodes (4 ∷ []) 2 4 (eqb 9))
      × (length (search_filtered_with_ef line_ops two_nodes (4 ∷ []) 2 4 (eqb 9)) ≡ 2))
    ⊎ (search_filtered_with_ef line_ops two_nodes (4 ∷ []) 2 4 (eqb 9)
        ≡ exact line_ops two_nodes two_nodes-IsValid (4 ∷ []) 2 4 (eqb 9))
search_filtered_complete_example =
    search_filtered_complete line_ops two_nodes two_nodes-IsValid (4 ∷ []) 2 4 (eqb 9)

abbrev first_layer : LayerQuery
first_layer = plain (4 ∷ []) 1 0

slot_0 : HasLevel two_nodes.links 0 0
slot_0 = omega arith

two_small : length two_nodes.links < 9
two_small = omega arith

slot_1 : HasLevel two_nodes.links 1 1
slot_1 = omega arith

search_layer-enough_example : search_layer line_ops two_nodes first_layer (0 ∷ []) ≡ (
    let t =
      layer_loop line_ops two_nodes first_layer 9 (
        enter_all line_ops two_nodes first_layer (0 ∷ []) (start line_ops two_nodes first_layer)) in
    (sort t.results, t.visited_count, t.admitted_count))
search_layer-enough_example =
    search_layer-enough line_ops two_nodes first_layer (0 ∷ []) 9 two_nodes-IsValid.closed
      (slot_0, tt) two_small

search_layer-IsHit_example :
    All
      (IsHit line_ops two_nodes first_layer)
      (search_layer line_ops two_nodes first_layer (0 ∷ [])).0
    × IsSorted (search_layer line_ops two_nodes first_layer (0 ∷ [])).0
    × IsDistinct (slots (search_layer line_ops two_nodes first_layer (0 ∷ [])).0)
    × (length (search_layer line_ops two_nodes first_layer (0 ∷ [])).0 ≤ 1)
search_layer-IsHit_example =
    search_layer-IsHit line_ops two_nodes first_layer (0 ∷ []) two_nodes-IsValid.closed (slot_0, tt)

descend-closer_example :
    cand_ord.lt
      (cand_at line_ops two_nodes (4 ∷ []) 1)
      (cand_at line_ops two_nodes (4 ∷ []) (descend line_ops two_nodes (4 ∷ []) (1 ∷ []) 1))
    ≡ false
descend-closer_example =
    descend-closer line_ops two_nodes (4 ∷ []) (1 ∷ []) 1 1 two_nodes-IsValid.closed
      (omega arith, tt) slot_1

abbrev todo : List Op
todo =
    insert_op 4 (1 ∷ [])
    ∷ (build_op ∷ (insert_op 4 (2 ∷ []) ∷ (delete_op 4 ∷ (insert_op 4 (5 ∷ []) ∷ []))))

run_hnsw_example :
    ((run line_ops (hnsw_graph line_ops toy_random toy_params) (new_index 1 l2 0 1) todo).1
      ≡ (spec_run 1 (λ key. false) todo).1)
    × ((key : VectorId)
        → contains_live line_ops
            (hnsw_graph line_ops toy_random toy_params)
            (run line_ops (hnsw_graph line_ops toy_random toy_params) (new_index 1 l2 0 1) todo).0
            key
          ≡ (spec_run 1 (λ key. false) todo).0 key)
run_hnsw_example = run_hnsw line_ops toy_random toy_params 1 l2 0 1 todo
