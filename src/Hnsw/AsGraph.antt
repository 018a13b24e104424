-- ===== src/Hnsw/AsGraph.antt =====
-- The graph index behind the interface of the segments (src/index/segmented.rs).
use gvector.Prelude.{
  ℕ, ◌≡◌, refl, ap, inl, inr, Bool, true, false, List, [], ◌∷◌, eqb, eqb_iff, Bool-cases,
  Option-cases, All, nat_key, string_key, lookup,
}
use gvector.Types.{VectorId, F32, SearchResult}
use gvector.Distance.{F32Ops, Metric, prepare}
use gvector.BruteForce.Named.{names_id}
use gvector.Segmented.Search.Live.{IsSearchable}
use gvector.Hnsw.Query.Answers.{IsAnswer}
use gvector.Hnsw.Query.Searches.{search_with_ef-Answers}
use gvector.Segmented.{Graph, contains_live}
use gvector.Segmented.Background.Build.{IsGraph}
use gvector.Segmented.Spec.{Op, spec_run}
use gvector.Segmented.Refines.{run, run-spec_run, new as new_index}
use gvector.Hnsw.{HnswIndex, HnswParams, Randomness, new, contains, live_entries, len, vector_of}
use gvector.Hnsw.Query.{search_with_ef}
use gvector.Hnsw.Update.{insert_vector}
use gvector.Hnsw.Update.Valid.{IsValid, new-IsValid}
use gvector.Hnsw.Update.Inserted.{insert_vector-IsValid}
use gvector.Hnsw.Update.Compacted.{insert_vector-total}
use gvector.Hnsw.Update.Entries.{live_entries-contains, live_entries-IsDistinct}

module _ (ops : F32Ops) {R : Type 0} (random : Randomness R) (params : HnswParams) where
  -- `HnswIndex` as the segments call it; `new` takes the seed of the segment.
  abbrev pub hnsw_graph : Graph (HnswIndex R)
  hnsw_graph = record {
    create = λ dim metric seed. new random dim metric (record params { seed = seed });
    dim_of = λ g. g.dim;
    insert_node = insert_vector ops random;
    has_node = contains;
    live_entries = live_entries;
    node_count = len;
    search_with_ef = search_with_ef ops;
  }

  new-empty :
      (dim : ℕ) (metric : Metric) (p : HnswParams) (id : ℕ)
      → contains (new random dim metric p) id ≡ false
  unfolding contains new lookup
  new-empty dim metric p id = refl

  new-dim : (dim : ℕ) (metric : Metric) (p : HnswParams) → (new random dim metric p).dim ≡ dim
  unfolding new
  new-dim dim metric p = refl

  -- The graph index keeps what the interface promises to the segments.
  pub hnsw-IsGraph : IsGraph hnsw_graph
  hnsw-IsGraph = record {
    IsGood = IsValid;
    create-IsGood =
        λ dim metric seed. new-IsValid random dim metric (record params { seed = seed });
    create-dim = λ dim metric seed. new-dim dim metric (record params { seed = seed });
    create-empty = λ dim metric seed id. new-empty dim metric (record params { seed = seed }) id;
    insert-total = λ g id v good l fresh.
        let (g', e, same, ids) = insert_vector-total ops random g id v l fresh in
        (g', e, insert_vector-IsValid ops random g id v good e, ap (λ r. r.dim) same, ids);
    entries-has = λ g id good. live_entries-contains g good.tracked id;
    entries-distinct = λ g good. (live_entries-IsDistinct g good.tracked).0;
    entries-dim = λ g good. (live_entries-IsDistinct g good.tracked).1;
  }

  -- Inserts, deletes and background builds on a new segmented index over graph indexes are answered
  -- as a set of ids answers them, and leave its ids alive.
  pub run_hnsw :
      (dim : ℕ) (metric : Metric) (seed seal_threshold : ℕ) (todo : List Op)
      → let end = run ops hnsw_graph (new_index dim metric seed seal_threshold) todo in
        (end.1 ≡ (spec_run dim (λ key. false) todo).1)
        × ((key : VectorId)
            → contains_live ops hnsw_graph end.0 key ≡ (spec_run dim (λ key. false) todo).0 key)
  run_hnsw = run-spec_run ops hnsw_graph hnsw-IsGraph

  named-IsAnswer :
      (g : HnswIndex R) (query : List F32) (allow : VectorId → Bool) (rs : List SearchResult)
      (id : VectorId)
      → All (IsAnswer ops g query allow) rs
      → names_id id rs ≡ true
      → contains g id ≡ true
  unfolding contains vector_of
  named-IsAnswer g query allow [] id h named = absurd (cc named)
  named-IsAnswer g query allow (r ∷ rs) id (h, hs) named = elim (Bool-cases (eqb id r.id)) [
    | inl same ↦ elim (Option-cases (lookup r.id g.slot_of)) [
      | inl none_left ↦ absurd (cc (rw (none_left, vector_of) at h.held))
      | inr (s, at) ↦ rw ((eqb_iff id r.id).0 same, at, contains) refl
    ]
    | inr other ↦ named-IsAnswer g query allow rs id hs (rw other at named)
  ]

  -- A search of the graph index names ids that are alive in it.
  pub hnsw-IsSearchable : IsSearchable hnsw_graph
  hnsw-IsSearchable = record {
    IsGood = IsValid;
    finds_live = λ g query k ef id valid named.
        named-IsAnswer g (prepare ops g.metric query) (λ x. true) (search_with_ef ops g query k ef)
          id (search_with_ef-Answers ops g valid query k ef).0 named;
  }
