-- ===== src/Segmented/Background/Build.antt =====
-- The build of a segment from a sealed buffer succeeds and moves no id.
use gvector.Prelude.{
  ℕ, ◌+◌, ◌%◌, ◌^◌, ◌≤◌, ◌≡◌, refl, sym, ap, ◌∙◌, subst, inl, inr, false, not, ◌&&◌, ◌||◌, List, [],
  ◌∷◌, ◌++◌, map, arith, eqb, eqb_iff, eqb_refl, Bool-cases, List-cases, length, drop, All, nat_key,
  string_key,
}
use gvector.Types.{VectorId, Vector}
use gvector.Index.{ok}
use gvector.Distance.{F32Ops, Metric}
use gvector.BruteForce.{BruteForceIndex, contains, len, entries}
use gvector.BruteForce.Invariant.{IsValid}
use gvector.BruteForce.Contains.{IsDistinct, ids-IsDistinct, contains-ids, entries-ids, entries-row}
use gvector.Segmented.{Graph, Part, SegmentedIndex, has_id, insert_all}
use gvector.Segmented.Live.{mark, marks, buffer_mark, map-snoc}
use gvector.Segmented.Background.Retain.{IsTicketed, retain_first}
use gvector.Segmented.Background.{retain_others, build_first, build_done, build_queue}

abbrev pub entry_ids : List (VectorId × Vector) → List VectorId
entry_ids es = map (λ e. e.0) es

-- What a graph promises to the segments.
pub record IsGraph {G : Type 0} (graph : Graph G) : Type 1 where
  pub IsGood : G → Type 0
  pub create-IsGood : (dim : ℕ) (metric : Metric) (seed : ℕ) → IsGood (graph.create dim metric seed)
  pub create-dim :
      (dim : ℕ) (metric : Metric) (seed : ℕ) → graph.dim_of (graph.create dim metric seed) ≡ dim
  pub create-empty :
      (dim : ℕ) (metric : Metric) (seed id : ℕ)
      → graph.has_node (graph.create dim metric seed) id ≡ false
  pub insert-total :
      (g : G) (id : VectorId) (v : Vector)
      → IsGood g
      → length v ≡ graph.dim_of g
      → graph.has_node g id ≡ false
      → (g' : G) × (graph.insert_node g id v ≡ ok g')
        × IsGood g'
        × (graph.dim_of g' ≡ graph.dim_of g)
        × ((key : VectorId) → graph.has_node g' key ≡ (eqb id key || graph.has_node g key))
  pub entries-has :
      (g : G) (id : VectorId)
      → IsGood g
      → has_id id (entry_ids (graph.live_entries g)) ≡ graph.has_node g id
  pub entries-distinct : (g : G) → IsGood g → IsDistinct (entry_ids (graph.live_entries g))
  pub entries-dim :
      (g : G) → IsGood g → All (λ e. length e.1 ≡ graph.dim_of g) (graph.live_entries g)

module _ {G : Type 0} (ops : F32Ops) (graph : Graph G) (law : IsGraph graph) where
  -- Distinct new entries of the right length are all taken.
  pub insert_all-total :
      (es : List (VectorId × Vector)) (g : G)
      → law.IsGood g
      → IsDistinct (entry_ids es)
      → All (λ e. length e.1 ≡ graph.dim_of g) es
      → ((key : VectorId) → (has_id key (entry_ids es) && graph.has_node g key) ≡ false)
      → (g' : G) × (insert_all ops graph es g ≡ ok g')
        × law.IsGood g'
        × (graph.dim_of g' ≡ graph.dim_of g)
        × ((key : VectorId)
            → graph.has_node g' key ≡ (has_id key (entry_ids es) || graph.has_node g key))
  unfolding insert_all
  insert_all-total [] g good d l new = (g, refl, good, refl, λ key. refl)
  insert_all-total ((id, v) ∷ es) g good (d, ds) (l, ls) new =
      let fresh : graph.has_node g id ≡ false = ground (arith, new id, eqb_refl id) in
      let (g', taken, good', dim', has') = law.insert-total g id v good l fresh in
      let (g'', rest, good'', dim'', has'') =
        insert_all-total es g' good' ds (subst (λ n. All (λ e. length e.1 ≡ n) es) (sym dim') ls)
          (λ key. elim (Bool-cases (eqb id key)) [
            | inl q ↦ ground (
              arith,
              has' key,
              subst (λ k. has_id k (entry_ids es) ≡ false) ((eqb_iff id key).0 q) d,
            )
            | inr q ↦ ground (arith, has' key, new key, q, eqb_iff id key, eqb_iff key id)
          ]) in
      (
        g'',
        rw (taken, insert_all) rest,
        good'',
        dim'' ∙ dim',
        λ key. ground (arith, has' key, has'' key, eqb_iff id key, eqb_iff key id),
      )

  -- The part that a build makes shows what the buffer showed.
  mark-built :
      (data_of : BruteForceIndex) (g : G) (tombs : List VectorId) (m n : ℕ) (id : VectorId)
      → graph.has_node g id ≡ contains data_of id
      → mark graph.has_node id (record { ticket = m; data_of = g; tombstones = tombs })
        ≡ mark contains id (record { ticket = n; data_of = data_of; tombstones = tombs })
  mark-built data_of g tombs m n id h =
      ap (λ b. record { holds = b; alive = b && not (has_id id tombs) }) h

  -- A whole buffer goes into a new graph.
  insert_entries :
      (data_of : BruteForceIndex) (metric : Metric) (seed : ℕ)
      → IsValid data_of
      → (g : G) × (insert_all ops graph (entries data_of) (graph.create data_of.dim metric seed)
          ≡ ok g)
        × law.IsGood g
        × (graph.dim_of g ≡ data_of.dim)
        × ((id : VectorId) → graph.has_node g id ≡ contains data_of id)
  insert_entries data_of metric seed valid =
      let made = law.create-dim data_of.dim metric seed in
      let (g, e, good, dim, has) =
        insert_all-total (entries data_of) (graph.create data_of.dim metric seed)
          (law.create-IsGood data_of.dim metric seed)
          (subst IsDistinct (sym (entries-ids data_of)) (ids-IsDistinct data_of valid))
          (subst (λ n. All (λ e. length e.1 ≡ n) (entries data_of)) (sym made)
            (entries-row data_of valid))
          (λ key. ground (arith, law.create-empty data_of.dim metric seed key)) in
      (
        g,
        e,
        good,
        dim ∙ made,
        λ id. ground (
          arith,
          has id,
          law.create-empty data_of.dim metric seed id,
          ap (has_id id) (entries-ids data_of),
          contains-ids data_of id valid,
        ),
      )

  -- One round of the worker succeeds, whatever landed on the buffer's tombstones, and every id
  -- stands where it stood.
  pub build_first-marks :
      (idx : SegmentedIndex G)
      → All (λ p. IsValid p.data_of × (p.data_of.dim ≡ idx.dim)) idx.sealing
      → IsTicketed idx.next_ticket idx.sealing
      → (idx' : SegmentedIndex G) × (build_first ops graph idx ≡ ok idx')
        × (idx'.sealing ≡ drop 1 idx.sealing)
        × ((id : VectorId) → marks graph idx' id ≡ marks graph idx id)
        × (idx'.buffer ≡ idx.buffer)
        × (idx'.dim ≡ idx.dim)
        × (idx.next_ticket ≤ idx'.next_ticket)
  unfolding build_first build_queue build_done
  build_first-marks idx valid tickets = elim (List-cases idx.sealing) [
    | inl none_left ↦ (
      idx,
      ap (build_queue ops graph idx) none_left,
      none_left ∙ sym (ap (drop 1) none_left),
      λ id. refl,
      refl,
      refl,
      omega arith,
    )
    | inr (next, rest, e) ↦
        let (v, d) = (subst (All (λ p. IsValid p.data_of × (p.data_of.dim ≡ idx.dim))) e valid).0 in
        let kept =
          retain_first idx.next_ticket next rest (subst (IsTicketed idx.next_ticket) e tickets) in
        let seed = (idx.seed + len next.data_of) % 2 ^ 64 in
        let (g, taken, good, dim, has) = insert_entries next.data_of idx.metric seed v in
        let taken' : insert_all ops graph (entries next.data_of)
              (graph.create idx.dim idx.metric seed)
            ≡ ok g =
          subst
            (λ n.
              insert_all ops graph (entries next.data_of) (graph.create n idx.metric seed) ≡ ok g)
            d taken in
        let part : Part G = record {
          ticket = idx.next_ticket;
          data_of = g;
          tombstones = next.tombstones;
        } in
        (
          record idx {
            segments = idx.segments ++ (part ∷ []);
            sealing = rest;
            next_ticket = idx.next_ticket + 1;
          },
          ap (build_queue ops graph idx) e
              ∙ (ap (build_done ops graph idx next) taken'
                  ∙ ap
                      (λ z. ok (record idx {
                        segments = idx.segments ++ (part ∷ []);
                        sealing = z;
                        next_ticket = idx.next_ticket + 1;
                      }))
                      (ap (retain_others next.ticket) e ∙ kept)),
          sym (ap (drop 1) e),
          λ id.
              map-snoc (mark graph.has_node id) idx.segments part
                (map (mark contains id) rest ++ (buffer_mark idx.buffer id ∷ []))
              ∙ ap
                  (λ z.
                    map (mark graph.has_node id) idx.segments
                    ++ (z ∷ (map (mark contains id) rest ++ (buffer_mark idx.buffer id ∷ []))))
                  (mark-built next.data_of g next.tombstones idx.next_ticket next.ticket id
                    (has id))
              ∙ ap
                  (λ z.
                    map (mark graph.has_node id) idx.segments
                    ++ (map (mark contains id) z ++ (buffer_mark idx.buffer id ∷ [])))
                  (sym e),
          refl,
          refl,
          omega arith,
        )
  ]
