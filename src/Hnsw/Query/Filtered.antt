-- ===== src/Hnsw/Query/Filtered.antt =====
-- The filtered search: as many answers as were asked for, or the exact answer.
use gvector.Prelude.{
  ℕ, zero, suc, ◌+◌, max, ◌≡◌, refl, sym, ap, ◌∙◌, subst, ◌⊎◌, inl, inr, Bool, true, false, none,
  some, List, [], ◌∷◌, map, arith, leb, eqb, if◌then◌else◌, leb→le, eqb_iff, eqb_refl, Bool-cases,
  Option-cases, some_inj, length, get_elem?, get_or, take, filterb, anyb, length-take, length-map,
  nat_key, string_key,
}
use gvector.Types.{VectorId, F32, SearchResult, Cand}
use gvector.Types.Order.{result_ord}
use gvector.Order.Sort.{sort}
use gvector.Order.TopK.{top, top-nil}
use gvector.Distance.{F32Ops, distance, prepare}
use gvector.BruteForce.Search.{result_of}
use gvector.Hnsw.{
  HnswIndex, contains, vector_at, result_at, dist_to, live_entries, entries_from, range_from,
}
use gvector.Hnsw.Layer.{search_layer, admissible}
use gvector.Hnsw.Query.{base, scan_slots, search_filtered_stats, search_filtered_with_ef}
use gvector.Hnsw.Query.Searches.{Answers, base_entry, base_entry-HasLevel, base-Answers}
use gvector.Hnsw.Update.Valid.{IsValid}
use gvector.Hnsw.Update.Entries.{live_entries-contains, at_start, from_zero, shift}

get_or-elem : (xs : List ℕ) (i x : ℕ) → get_elem? xs i ≡ some x → get_or xs i 0 ≡ x
get_or-elem [] i x h = cc
get_or-elem (y ∷ xs) zero x h = some_inj h
get_or-elem (y ∷ xs) (suc i) x h = get_or-elem xs i x h

no_entries :
    (es : List (VectorId × List F32))
    → ((key : VectorId) → anyb (eqb key) (map (λ e. e.0) es) ≡ false)
    → es ≡ []
no_entries [] h = refl
no_entries ((id, v) ∷ es) h = absurd (ground (arith, h id, eqb_refl id))

module _ (ops : F32Ops) {R : Type 0} (idx : HnswIndex R) (query : List F32)
    (allow : VectorId → Bool) where
  scan_slots-entries :
      (start : ℕ) (ids : List VectorId)
      → ((i : ℕ) → get_elem? ids i ≡ get_elem? idx.ids (start + i))
      → scan_slots ops idx query allow (range_from start (length ids))
        ≡ map
            (result_of ops idx.metric query)
            (filterb (λ e. allow e.0) (entries_from idx start ids))
  unfolding scan_slots entries_from range_from dist_to
  scan_slots-entries start [] tail = refl
  scan_slots-entries start (id ∷ ids) tail =
      let here : get_or idx.ids start 0 ≡ id =
        get_or-elem idx.ids start id (ap (get_elem? idx.ids) (at_start start) ∙ sym (tail 0)) in
      let rest =
        scan_slots-entries (start + 1) ids
          (λ i. tail (suc i) ∙ ap (get_elem? idx.ids) (shift start i)) in
      elim (Bool-cases (get_or idx.deleted start false)) [
        | inl dead ↦ rw dead rest
        | inr alive ↦ elim (Bool-cases (allow id)) [
          | inl y ↦
              rw (alive, here, y)
                (ap
                  (◌∷◌ (record {
                    id = id;
                    distance = distance ops idx.metric query (vector_at idx start);
                  }))
                  rest)
          | inr n ↦ rw (alive, here, n) rest
        ]
      ]

  -- The scan of all slots is the scan of the live entries.
  scan_all :
      scan_slots ops idx query allow (range_from 0 (length idx.ids))
      ≡ map (result_of ops idx.metric query) (filterb (λ e. allow e.0) (live_entries idx))
  unfolding live_entries
  scan_all = scan_slots-entries 0 idx.ids (λ i. ap (get_elem? idx.ids) (from_zero i))

module _ (ops : F32Ops) {R : Type 0} (idx : HnswIndex R) (valid : IsValid idx) (query : List F32)
    (k ef : ℕ) (allow : VectorId → Bool) where
  abbrev q : List F32
  q = prepare ops idx.metric query

  -- The `k` nearest of the live entries that pass, in order.
  abbrev pub exact : List SearchResult
  exact = top k (map (result_of ops idx.metric q) (filterb (λ e. allow e.0) (live_entries idx)))

  abbrev slot_allow : ℕ → Bool
  slot_allow slot = allow (get_or idx.ids slot 0)

  abbrev found : ℕ → List Cand
  found entry =
      (search_layer ops idx (base q (max ef k) (some slot_allow) none)
        (base_entry ops idx valid q entry ∷ [])).0

  filtered_none : idx.entry ≡ none → search_filtered_with_ef ops idx query k ef allow ≡ []
  unfolding search_filtered_with_ef search_filtered_stats
  filtered_none n = ground arith

  filtered_some :
      (entry : ℕ)
      → idx.entry ≡ some entry
      → search_filtered_with_ef ops idx query k ef allow ≡ (
          if eqb k 0
          then []
          else if leb k (length (found entry))
          then map (result_at ops idx) (take k (found entry))
          else take k (sort (scan_slots ops idx q allow (range_from 0 (length idx.ids)))))
  unfolding search_filtered_with_ef search_filtered_stats
  filtered_some entry e = elim (Bool-cases (eqb k 0)) [
    | inl z ↦ ground arith
    | inr nz ↦ elim (Bool-cases (leb k (length (found entry)))) [
      | inl y ↦ ground arith
      | inr n ↦ ground arith
    ]
  ]

  passing :
      (s : ℕ)
      → admissible ops idx (base q (max ef k) (some slot_allow) none) s ≡ true
      → (get_or idx.deleted s false ≡ false) × (allow (get_or idx.ids s 0) ≡ true)
  unfolding admissible
  passing s h = ground arith

  exact_zero : k ≡ 0 → [] ≡ exact
  unfolding top
  exact_zero z = rw z refl

  exact_empty : idx.entry ≡ none → [] ≡ exact
  unfolding contains
  exact_empty n =
      let empty : live_entries idx ≡ [] = no_entries (live_entries idx) (λ key.
        live_entries-contains idx valid.tracked key ∙ rw (valid.started n key, contains) refl) in
      sym (
        ap (λ es. top k (map (result_of ops idx.metric q) (filterb (λ e. allow e.0) es))) empty
        ∙ top-nil k)

  -- Without a budget a filtered search gives `k` answers among the live entries that pass, or
  -- exactly the `k` nearest of all of them.
  pub search_filtered_complete :
      let rs = search_filtered_with_ef ops idx query k ef allow in
      (Answers ops idx valid q allow k rs × (length rs ≡ k)) ⊎ (rs ≡ exact)
  unfolding top
  search_filtered_complete = elim (Option-cases idx.entry) [
    | inl n ↦ inr (filtered_none n ∙ exact_empty n)
    | inr (entry, e) ↦
        let out = filtered_some entry e in
        elim (Bool-cases (eqb k 0)) [
          | inl z ↦ inr (out ∙ rw z (exact_zero ((eqb_iff k 0).0 z)))
          | inr nz ↦ elim (Bool-cases (leb k (length (found entry)))) [
            | inl y ↦
                let rs = map (result_at ops idx) (take k (found entry)) in
                let same : search_filtered_with_ef ops idx query k ef allow ≡ rs =
                  out ∙ rw (nz, y) refl in
                inl (
                  subst (Answers ops idx valid q allow k) (sym same) (
                      base-Answers ops idx valid q k (max ef k) (base_entry ops idx valid q entry)
                        (some slot_allow) none allow (base_entry-HasLevel ops idx valid q entry e)
                        passing),
                  ap length same
                      ∙ length-map (take k (found entry)) (result_at ops idx)
                      ∙ omega (arith, length-take k (found entry), leb→le k _ y),
                )
            | inr n ↦ inr (out ∙ rw (nz, n) (ap (λ l. take k (sort l)) (scan_all ops idx q allow)))
          ]
        ]
  ]
