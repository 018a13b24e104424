-- ===== src/Tests/Sources.antt =====
-- The segmented index over a graph that is a list of entries.
use gvector.Prelude.{
  ℕ, ◌≤◌, ◌<◌, ◌≡◌, refl, sym, ap, ◌∙◌, subst, ◌⊎◌, true, false, not, ◌&&◌, ◌||◌, some, List, [],
  ◌∷◌, map, arith, eqb, if◌then◌else◌, eqb_iff, eqb_refl, some_inj, length, take, All, nat_key,
  string_key, lookup, insert,
}
use Prim.{Unit, tt}
use gvector.Types.{VectorId, Vector}
use gvector.Index.{Result, ok, err, not_found, duplicate_id, dimension_mismatch}
use gvector.Distance.{l2, prepare}
use gvector.BruteForce.{contains, insert_vector, len, new as new_index}
use gvector.BruteForce.Invariant.{IsValid, new-IsValid, insert_vector-IsValid}
use gvector.BruteForce.Contains.{IsDistinct}
use gvector.Segmented.{
  Graph, Part, SegmentedIndex, has_id, contains_live, is_live, insert_shared, delete_shared, seal,
}
use gvector.Segmented.Live.{copies, marks}
use gvector.Segmented.Spec.{Op, insert_op, delete_op, build_op, spec_op, spec_run}
use gvector.Segmented.Refines.{new, run, run-spec_run}
use gvector.Segmented.Insert.{insert_shared_total, insert_shared-copies}
use gvector.Segmented.Delete.{delete_shared-copies}
use gvector.Segmented.Background.{build_first, MergeTask, merge_build, merge_finish, find_part}
use gvector.Segmented.Background.Build.{IsGraph, entry_ids, build_first-marks}
use gvector.Segmented.Background.Merge.{IsVictim, IsGrown, merge_build-total, merge_finish-copies}
use gvector.Tests.Scans.{toy_ops, pool}
use gvector.Types.Order.{result_ord}
use gvector.Order.Sort.{IsSorted}
use gvector.Segmented.Search.{search_shared_with_ef}
use gvector.Segmented.Search.Live.{IsSearchable, IsInReach, search_shared-alive}
use gvector.BruteForce.Named.{names_id, names_id-take}

record EntryList : Type 0 where
  dim : ℕ
  held : List (VectorId × Vector)

add_entry : EntryList → VectorId → Vector → Result EntryList
add_entry g id v =
    if not (eqb (length v) g.dim)
    then err (dimension_mismatch g.dim (length v))
    else if has_id id (entry_ids g.held)
    then err (duplicate_id id)
    else ok (record g { held = (id, v) ∷ g.held })

abbrev toy_graph : Graph EntryList
unfolding add_entry
toy_graph = record {
  create = λ dim metric seed. record { dim = dim; held = [] };
  dim_of = λ g. g.dim;
  insert_node = add_entry;
  has_node = λ g id. has_id id (entry_ids g.held);
  live_entries = λ g. g.held;
  node_count = λ g. length g.held;
  search_with_ef = λ g query k ef. take k (map (λ e. record { id = e.0; distance = 1 }) g.held);
}

record IsGoodList (g : EntryList) : Type 0 where
  distinct : IsDistinct (entry_ids g.held)
  dims : All (λ e. length e.1 ≡ g.dim) g.held

toy-IsGraph : IsGraph toy_graph
unfolding toy_graph add_entry
toy-IsGraph = record {
  IsGood = IsGoodList;
  create-IsGood = λ dim metric seed. record { distinct = tt; dims = tt };
  create-dim = λ dim metric seed. refl;
  create-empty = λ dim metric seed id. refl;
  insert-total = λ g id v good l free. (
    record g { held = (id, v) ∷ g.held },
    ground (arith, l, free, eqb_refl g.dim),
    record { distinct = (free, good.distinct); dims = (l, good.dims) },
    refl,
    λ key. ground (arith, eqb_iff id key, eqb_iff key id),
  );
  entries-has = λ g id good. refl;
  entries-distinct = λ g good. good.distinct;
  entries-dim = λ g good. good.dims;
}

-- An insert that fills the buffer, its build, and a delete of what was built.
abbrev todo : List Op
todo =
    insert_op 4 (1 ∷ 2 ∷ [])
    ∷ (build_op ∷ (insert_op 4 (1 ∷ 3 ∷ []) ∷ (delete_op 4 ∷ (insert_op 4 (5 ∷ 5 ∷ []) ∷ []))))

run-spec_run_example :
    ((run toy_ops toy_graph (new 2 l2 0 1) todo).1 ≡ (spec_run 2 (λ key. false) todo).1)
    × ((key : VectorId)
        → contains_live toy_ops toy_graph (run toy_ops toy_graph (new 2 l2 0 1) todo).0 key
          ≡ (spec_run 2 (λ key. false) todo).0 key)
run-spec_run_example = run-spec_run toy_ops toy_graph toy-IsGraph 2 l2 0 1 todo

-- The replies: the second insert of 4 is refused, the third is not.
replies : (spec_run 2 (λ key. false) todo).1 ≡ true ∷ (true ∷ (false ∷ (true ∷ (true ∷ []))))
unfolding spec_run spec_op
replies = refl

-- Two segments of one vector each.
abbrev one_part : Part EntryList
one_part = record {
  ticket = 0;
  data_of = record { dim = 1; held = (1, 9 ∷ []) ∷ [] };
  tombstones = [];
}

abbrev two_part : Part EntryList
two_part = record {
  ticket = 1;
  data_of = record { dim = 1; held = (2, 8 ∷ []) ∷ [] };
  tombstones = [];
}

abbrev two_segments : SegmentedIndex EntryList
unfolding new
two_segments = record (new 1 l2 0 100) { segments = one_part ∷ (two_part ∷ []); next_ticket = 2 }

-- What became of them while they were merged: 1 was deleted.
abbrev one_deleted : SegmentedIndex EntryList
unfolding two_segments
one_deleted = record two_segments {
  segments = record one_part { tombstones = 1 ∷ [] } ∷ (two_part ∷ []);
}

abbrev task : MergeTask EntryList
task = record { first = one_part; second = two_part }

abbrev merged : EntryList
merged = record { dim = 1; held = (2, 8 ∷ []) ∷ ((1, 9 ∷ []) ∷ []) }

one-IsVictim : IsVictim toy_ops toy_graph toy-IsGraph two_segments one_part
unfolding toy-IsGraph toy_graph two_segments
one-IsVictim = record {
  good = record { distinct = (refl, tt); dims = (refl, tt) };
  dim_eq = refl;
  held = λ id. ground arith;
}

two-IsVictim : IsVictim toy_ops toy_graph toy-IsGraph two_segments two_part
unfolding toy-IsGraph toy_graph two_segments
two-IsVictim = record {
  good = record { distinct = (refl, tt); dims = (refl, tt) };
  dim_eq = refl;
  held = λ id. ground arith;
}

one_live :
    (id : VectorId)
    → (is_live toy_graph.has_node id one_part && is_live toy_graph.has_node id two_part) ≡ false
unfolding toy_graph
one_live id = ground (arith, eqb_iff id 1, eqb_iff id 2)

merge_build-total_example :
    (m : EntryList) × (merge_build toy_ops toy_graph two_segments task ≡ ok m)
    × ((id : VectorId)
        → toy_graph.has_node m id
          ≡ (is_live toy_graph.has_node id one_part || is_live toy_graph.has_node id two_part))
merge_build-total_example =
    merge_build-total toy_ops toy_graph toy-IsGraph two_segments task one-IsVictim two-IsVictim
      one_live

first_now :
    (a : Part EntryList)
    → find_part 0 one_deleted.segments ≡ some a
    → IsVictim toy_ops toy_graph toy-IsGraph one_deleted a
      × IsGrown toy_ops toy_graph toy-IsGraph one_part a
unfolding find_part one_deleted two_segments toy_graph toy-IsGraph
first_now a e =
    subst
      (λ x.
        IsVictim toy_ops toy_graph toy-IsGraph one_deleted x
        × IsGrown toy_ops toy_graph toy-IsGraph one_part x)
      (some_inj e)
      (
        record {
          good = record { distinct = (refl, tt); dims = (refl, tt) };
          dim_eq = refl;
          held = λ id. ground arith;
        },
        record { data_eq = refl; grown = λ id. refl },
      )

second_now :
    (b : Part EntryList)
    → find_part 1 one_deleted.segments ≡ some b
    → IsVictim toy_ops toy_graph toy-IsGraph one_deleted b
      × IsGrown toy_ops toy_graph toy-IsGraph two_part b
unfolding find_part one_deleted two_segments toy_graph toy-IsGraph
second_now b e =
    subst
      (λ x.
        IsVictim toy_ops toy_graph toy-IsGraph one_deleted x
        × IsGrown toy_ops toy_graph toy-IsGraph two_part x)
      (some_inj e)
      (
        record {
          good = record { distinct = (refl, tt); dims = (refl, tt) };
          dim_eq = refl;
          held = λ id. ground arith;
        },
        record { data_eq = refl; grown = λ id. refl },
      )

merge_finish-copies_example :
    copies toy_graph (merge_finish toy_ops toy_graph one_deleted task merged) 1
    ≡ copies toy_graph one_deleted 1
unfolding one_deleted two_segments toy_graph
merge_finish-copies_example =
    merge_finish-copies toy_ops toy_graph toy-IsGraph one_deleted task merged 1
      (omega arith, (refl, tt), (omega arith, tt, tt)) refl first_now second_now refl refl

insert_shared_total_example :
    ((copies toy_graph one_deleted 7 ≡ 0)
      × ((idx' : SegmentedIndex EntryList) × (insert_shared toy_ops toy_graph one_deleted 7 (3 ∷ [])
            ≡ ok idx')))
    ⊎ ((0 < copies toy_graph one_deleted 7)
        × (insert_shared toy_ops toy_graph one_deleted 7 (3 ∷ []) ≡ err (duplicate_id 7)))
unfolding one_deleted two_segments new new_index
insert_shared_total_example = insert_shared_total toy_ops toy_graph one_deleted 7 (3 ∷ []) refl refl

abbrev filled : SegmentedIndex EntryList
unfolding one_deleted
filled = record one_deleted {
  buffer = record {
    metric = l2;
    dim = 1;
    data_block = 3 ∷ [];
    ids = 7 ∷ [];
    slot_of = (7, 0) ∷ [];
  };
}

seven_taken : insert_shared toy_ops toy_graph one_deleted 7 (3 ∷ []) ≡ ok filled
unfolding insert_shared insert_vector filled one_deleted two_segments new new_index toy_graph
    contains lookup insert prepare seal len
seven_taken = refl

insert_shared-copies_example :
    copies toy_graph filled 7 ≡ (if eqb 7 7 then 1 else copies toy_graph one_deleted 7)
unfolding one_deleted two_segments new
insert_shared-copies_example =
    insert_shared-copies toy_ops toy_graph one_deleted 7 7 (3 ∷ []) filled (new-IsValid 1 l2)
      seven_taken

delete_shared-copies_example :
    ((copies toy_graph one_deleted 2 ≡ 0)
      × (delete_shared toy_ops toy_graph one_deleted 2 ≡ err (not_found 2)))
    ⊎ ((idx' : SegmentedIndex EntryList) × (delete_shared toy_ops toy_graph one_deleted 2 ≡ ok idx')
        × ((key : VectorId)
            → copies toy_graph idx' key
              ≡ (if eqb 2 key then 0 else copies toy_graph one_deleted key)))
unfolding one_deleted two_segments new toy_graph contains lookup new_index
delete_shared-copies_example =
    delete_shared-copies toy_ops toy_graph one_deleted 2 (new-IsValid 1 l2)
      (refl, (refl, (refl, tt)))

-- A buffer of one vector that waits for its build, with a tombstone.
abbrev waiting : SegmentedIndex EntryList
unfolding filled
waiting = record filled {
  buffer = new_index 1 l2;
  sealing = record { ticket = 2; data_of = filled.buffer; tombstones = 7 ∷ [] } ∷ [];
  next_ticket = 3;
}

seven_buffered : insert_vector toy_ops (new_index 1 l2) 7 (3 ∷ []) ≡ ok filled.buffer
unfolding insert_vector filled new_index prepare lookup insert
seven_buffered = refl

filled-IsValid : IsValid filled.buffer
filled-IsValid =
    insert_vector-IsValid toy_ops (new_index 1 l2) 7 (3 ∷ []) (new-IsValid 1 l2) seven_buffered

build_first-marks_example :
    (idx' : SegmentedIndex EntryList) × (build_first toy_ops toy_graph waiting ≡ ok idx')
    × (idx'.sealing ≡ [])
    × ((id : VectorId) → marks toy_graph idx' id ≡ marks toy_graph waiting id)
    × (idx'.buffer ≡ waiting.buffer)
    × (idx'.dim ≡ waiting.dim)
    × (3 ≤ idx'.next_ticket)
unfolding waiting filled one_deleted two_segments new
build_first-marks_example =
    build_first-marks toy_ops toy_graph toy-IsGraph waiting ((filled-IsValid, refl), tt)
      (omega arith, tt, tt)

listed :
    (id : VectorId) (es : List (VectorId × Vector))
    → names_id id (map (λ e. record { id = e.0; distance = 1 }) es) ≡ has_id id (entry_ids es)
listed id [] = refl
listed id (e ∷ es) = ap (λ b. if eqb id e.0 then true else b) (listed id es)

toy-IsSearchable : IsSearchable toy_graph
unfolding toy_graph
toy-IsSearchable = record {
  IsGood = λ g. Unit;
  finds_live = λ g query k ef id good named.
      sym (listed id g.held)
      ∙ names_id-take id k (map (λ e. record { id = e.0; distance = 1 }) g.held) named;
}

search_shared-alive_example :
    let results = search_shared_with_ef toy_ops pool toy_graph waiting (4 ∷ []) 3 16 in
    IsSorted results
    × IsDistinct (map (λ r. r.id) results)
    × (length results ≤ 3)
    × ((id : VectorId)
        → names_id id results ≡ true
        → contains_live toy_ops toy_graph waiting id ≡ true)
    × (length results < 3
        → (id : VectorId)
        → IsInReach toy_ops pool toy_graph toy-IsSearchable waiting (4 ∷ []) 3 16 id
        → names_id id results ≡ true)
unfolding waiting filled one_deleted two_segments new toy-IsSearchable
search_shared-alive_example =
    search_shared-alive toy_ops pool toy_graph toy-IsSearchable waiting (4 ∷ []) 3 16 (tt, (tt, tt))
      (filled-IsValid, tt) (new-IsValid 1 l2)
