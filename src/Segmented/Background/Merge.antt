-- ===== src/Segmented/Background/Merge.antt =====
-- A merge succeeds and moves no id, whatever was deleted while it ran.
use gvector.Prelude.{
  ℕ, ◌+◌, ◌%◌, ◌^◌, ◌≡◌, sym, ap, ◌∙◌, subst, inl, inr, false, not, ◌&&◌, ◌||◌, none, some, [], ◌∷◌,
  ◌++◌, map, arith, eqb, if◌then◌else◌, Option-cases, length, All, nat_key, string_key,
}
use gvector.Types.{VectorId}
use gvector.Index.{ok}
use gvector.Distance.{F32Ops}
use gvector.BruteForce.{contains}
use gvector.BruteForce.Contains.{IsDistinct}
use gvector.Segmented.{Graph, Part, SegmentedIndex, has_id, is_live}
use gvector.Segmented.Live.{mark, buffer_mark, copies, alive_count, alive_count-append, map-snoc}
use gvector.Segmented.Background.{
  retain_others, extend_difference, find_part, MergeTask, carried_entries, merge_build,
  merge_finish,
}
use gvector.Segmented.Background.Retain.{
  IsTicketed, retain-count, find-retain, retain-IsTicketed, has-extend_difference,
}
use gvector.Segmented.Background.Kept.{
  kept-ids, kept-IsDistinct, kept-All, All-append, ids-append, append-IsDistinct,
}
use gvector.Segmented.Background.Build.{entry_ids, IsGraph, insert_all-total}

module _ {G : Type 0} (ops : F32Ops) (graph : Graph G) (law : IsGraph graph) where
  -- A victim: its tombstones are of ids that it holds.
  pub record IsVictim (idx : SegmentedIndex G) (p : Part G) : Type 0 where
    pub good : law.IsGood p.data_of
    pub dim_eq : graph.dim_of p.data_of ≡ idx.dim
    pub held :
        (id : VectorId) → (has_id id p.tombstones && not (graph.has_node p.data_of id)) ≡ false

  -- What has become of a victim since the merge began: new tombstones, nothing else.
  pub record IsGrown (before now : Part G) : Type 0 where
    pub data_eq : now.data_of ≡ before.data_of
    pub grown :
        (id : VectorId) → (has_id id before.tombstones && not (has_id id now.tombstones)) ≡ false

  -- What a victim hands on: the ids that its snapshot does not bury.
  carried-has :
      (idx : SegmentedIndex G) (p : Part G) (id : VectorId)
      → IsVictim idx p
      → has_id id (entry_ids (carried_entries ops graph p))
        ≡ (graph.has_node p.data_of id && not (has_id id p.tombstones))
  unfolding carried_entries
  carried-has idx p id v =
      kept-ids id p.tombstones (graph.live_entries p.data_of)
      ∙ ap (λ b. b && not (has_id id p.tombstones)) (law.entries-has p.data_of id v.good)

  carried-IsDistinct :
      (idx : SegmentedIndex G) (p : Part G)
      → IsVictim idx p
      → IsDistinct (entry_ids (carried_entries ops graph p))
  unfolding carried_entries
  carried-IsDistinct idx p v =
      kept-IsDistinct p.tombstones (graph.live_entries p.data_of)
        (law.entries-distinct p.data_of v.good)

  carried-dim :
      (idx : SegmentedIndex G) (p : Part G)
      → IsVictim idx p
      → All (λ e. length e.1 ≡ idx.dim) (carried_entries ops graph p)
  unfolding carried_entries
  carried-dim idx p v =
      kept-All (λ e. length e.1 ≡ idx.dim) p.tombstones (graph.live_entries p.data_of)
        (subst (λ n. All (λ e. length e.1 ≡ n) (graph.live_entries p.data_of)) v.dim_eq
          (law.entries-dim p.data_of v.good))

  -- No insert of a rebuild fails when no id is alive in both victims; the graph then holds what was
  -- alive in one of them.
  pub merge_build-total :
      (idx : SegmentedIndex G) (task : MergeTask G)
      → IsVictim idx task.first
      → IsVictim idx task.second
      → ((id : VectorId)
          → (is_live graph.has_node id task.first && is_live graph.has_node id task.second) ≡ false)
      → (merged : G) × (merge_build ops graph idx task ≡ ok merged)
        × ((id : VectorId)
            → graph.has_node merged id
              ≡ (is_live graph.has_node id task.first || is_live graph.has_node id task.second))
  unfolding merge_build
  merge_build-total idx task v w apart =
      let seed =
        (idx.seed
          + (graph.node_count task.first.data_of + graph.node_count task.second.data_of)
          + 1)
        % 2 ^ 64 in
      let xs = carried_entries ops graph task.first in
      let ys = carried_entries ops graph task.second in
      let made = law.create-dim idx.dim idx.metric seed in
      let (g, e, good, dim, has) =
        insert_all-total ops graph law (xs ++ ys) (graph.create idx.dim idx.metric seed)
          (law.create-IsGood idx.dim idx.metric seed)
          (append-IsDistinct xs ys (carried-IsDistinct idx task.first v)
            (carried-IsDistinct idx task.second w)
            (λ key. ground (
              arith,
              apart key,
              carried-has idx task.first key v,
              carried-has idx task.second key w,
            )))
          (subst (λ n. All (λ e. length e.1 ≡ n) (xs ++ ys)) (sym made)
            (All-append (λ e. length e.1 ≡ idx.dim) xs ys (carried-dim idx task.first v)
              (carried-dim idx task.second w)))
          (λ key. ground (arith, law.create-empty idx.dim idx.metric seed key)) in
      (
        g,
        e,
        λ id. ground (
          arith,
          has id,
          law.create-empty idx.dim idx.metric seed id,
          ids-append id xs ys,
          carried-has idx task.first id v,
          carried-has idx task.second id w,
        ),
      )

  -- What the merged part shows of an id is what its victims show of it at the swap.
  merged-live :
      (idx : SegmentedIndex G) (task : MergeTask G) (a b : Part G) (merged : G) (n : ℕ)
      (id : VectorId)
      → IsVictim idx a
      → IsVictim idx b
      → IsGrown task.first a
      → IsGrown task.second b
      → ((is_live graph.has_node id task.first && is_live graph.has_node id task.second) ≡ false)
      → (graph.has_node merged id
          ≡ (is_live graph.has_node id task.first || is_live graph.has_node id task.second))
      → (if is_live graph.has_node id (record {
        ticket = n;
        data_of = merged;
        tombstones =
            extend_difference
              (extend_difference [] a.tombstones task.first.tombstones)
              b.tombstones
              task.second.tombstones;
      })
          then 1
          else 0)
        ≡ (if is_live graph.has_node id a then 1 else 0)
          + (if is_live graph.has_node id b then 1 else 0)
  merged-live idx task a b merged n id v w ga gb apart has =
      let inner = has-extend_difference id [] a.tombstones task.first.tombstones in
      let outer =
        has-extend_difference id (extend_difference [] a.tombstones task.first.tombstones)
          b.tombstones task.second.tombstones in
      let da = ap (λ d. graph.has_node d id) ga.data_eq in
      let db = ap (λ d. graph.has_node d id) gb.data_eq in
      ground
        (arith, inner, outer, da, db, v.held id, w.held id, ga.grown id, gb.grown id, apart, has)

  finish-first :
      (idx : SegmentedIndex G) (task : MergeTask G) (merged : G)
      → find_part task.first.ticket idx.segments ≡ none
      → merge_finish ops graph idx task merged ≡ idx
  unfolding merge_finish
  finish-first idx task merged e = simp (merge_finish, e)

  finish-second :
      (idx : SegmentedIndex G) (task : MergeTask G) (merged : G) (a : Part G)
      → find_part task.first.ticket idx.segments ≡ some a
      → find_part task.second.ticket idx.segments ≡ none
      → merge_finish ops graph idx task merged ≡ idx
  unfolding merge_finish
  finish-second idx task merged a e f = simp (merge_finish, e, f)

  finish-swap :
      (idx : SegmentedIndex G) (task : MergeTask G) (merged : G) (a b : Part G)
      → find_part task.first.ticket idx.segments ≡ some a
      → find_part task.second.ticket idx.segments ≡ some b
      → merge_finish ops graph idx task merged ≡ record idx {
        segments =
            retain_others task.second.ticket (retain_others task.first.ticket idx.segments)
            ++ (record {
              ticket = idx.next_ticket;
              data_of = merged;
              tombstones =
                  extend_difference
                    (extend_difference [] a.tombstones task.first.tombstones)
                    b.tombstones
                    task.second.tombstones;
            }
                ∷ []);
        next_ticket = idx.next_ticket + 1;
      }
  unfolding merge_finish
  finish-swap idx task merged a b e f = simp (merge_finish, e, f)

  -- Whatever was deleted from the victims since the merge began, the swap leaves every id as many
  -- living copies as it had: nothing that was deleted comes back, and nothing alive is lost. A
  -- merge whose victims are gone changes nothing.
  pub merge_finish-copies :
      (idx : SegmentedIndex G) (task : MergeTask G) (merged : G) (id : VectorId)
      → IsTicketed idx.next_ticket idx.segments
      → eqb task.first.ticket task.second.ticket ≡ false
      → ((a : Part G)
          → find_part task.first.ticket idx.segments ≡ some a
          → IsVictim idx a × IsGrown task.first a)
      → ((b : Part G)
          → find_part task.second.ticket idx.segments ≡ some b
          → IsVictim idx b × IsGrown task.second b)
      → ((is_live graph.has_node id task.first && is_live graph.has_node id task.second) ≡ false)
      → (graph.has_node merged id
          ≡ (is_live graph.has_node id task.first || is_live graph.has_node id task.second))
      → copies graph (merge_finish ops graph idx task merged) id ≡ copies graph idx id
  unfolding merge_finish copies alive_count
  merge_finish-copies idx task merged id tickets distinct first second apart has =
      let m = task.first.ticket in
      let n = task.second.ticket in
      elim (Option-cases (find_part m idx.segments)) [
        | inl gone ↦ ap (λ x. copies graph x id) (finish-first idx task merged gone)
        | inr (a, fa) ↦ elim (Option-cases (find_part n idx.segments)) [
          | inl gone ↦ ap (λ x. copies graph x id) (finish-second idx task merged a fa gone)
          | inr (b, fb) ↦
              let (va, ga) = first a fa in
              let (vb, gb) = second b fb in
              let left = retain_others m idx.segments in
              let rest = map (mark contains id) idx.sealing ++ (buffer_mark idx.buffer id ∷ []) in
              let ca = retain-count graph.has_node idx.next_ticket m idx.segments a id tickets fa in
              let cb =
                retain-count graph.has_node idx.next_ticket n left b id
                  (retain-IsTicketed idx.next_ticket m idx.segments tickets)
                  (find-retain m n idx.segments distinct ∙ fb) in
              let live = merged-live idx task a b merged idx.next_ticket id va vb ga gb apart has in
              let part : Part G = record {
                ticket = idx.next_ticket;
                data_of = merged;
                tombstones =
                    extend_difference (extend_difference [] a.tombstones task.first.tombstones)
                      b.tombstones task.second.tombstones;
              } in
              let others = retain_others n left in
              let f = mark graph.has_node id in
              ap (λ x. copies graph x id) (finish-swap idx task merged a b fa fb)
              ∙ ap alive_count (map-snoc f others part rest)
              ∙ omega (
                arith,
                ca,
                cb,
                live,
                alive_count-append (map f others) (f part ∷ rest),
                alive_count-append (map f idx.segments) rest,
              )
        ]
      ]
