-- ===== src/Hnsw/Query/Searches.antt =====
-- The searches of the graph index on a valid index.
use gvector.Prelude.{
  ℕ, zero, suc, ◌-◌, ◌≤◌, max, ◌≡◌, sym, subst, inl, inr, Bool, true, false, Option, none, some,
  List, [], ◌∷◌, map, arith, eqb, if◌then◌else◌, Bool-cases, Option-cases, length, get_or, take,
  All, length-take, length-map, nat_key, string_key,
}
use gvector.Types.{VectorId, F32, SearchResult, Cand}
use gvector.Types.Order.{cand_ord, result_ord}
use gvector.Distance.{F32Ops, prepare}
use gvector.BruteForce.Contains.{IsDistinct}
use gvector.Hnsw.{HnswIndex, levels_at, count_down, result_at, cand_at}
use gvector.Hnsw.Layer.{search_layer, admissible}
use gvector.Hnsw.Layer.Found.{HasLevel, IsHit, HasLevel-lt}
use gvector.Hnsw.Layer.Results.{search_layer-IsHit}
use gvector.Hnsw.Neighbors.Links.{All-weaken}
use gvector.Hnsw.Query.{base, descend, search_with_ef}
use gvector.Hnsw.Query.Descend.{count_down-Descends, descend-HasLevel}
use gvector.Hnsw.Query.Answers.{
  IsAnswer, IsNearestFirst, IsLiveSlot, live-IsAnswer, live-IsDistinct, sorted-IsNearestFirst,
  take-IsSorted, take-IsDistinct, take-All,
}
use gvector.Hnsw.Update.Valid.{IsValid}

count_down-pos : (n : ℕ) → All (λ l. 0 ≤ l) (count_down n)
unfolding count_down
count_down-pos zero = tt
count_down-pos (suc n) = (omega arith, count_down-pos n)

module _ (ops : F32Ops) {R : Type 0} (idx : HnswIndex R) (valid : IsValid idx) where
  -- What an answer to `query` under `allow` is: entries that are alive and pass, each once, nearest
  -- first, at most `k`.
  abbrev pub Answers : List F32 → (VectorId → Bool) → ℕ → List SearchResult → Type 0
  Answers query allow k rs =
      All (IsAnswer ops idx query allow) rs
      × IsNearestFirst rs
      × IsDistinct (map (λ r. r.id) rs)
      × (length rs ≤ k)

  pub no-Answers : (query : List F32) (allow : VectorId → Bool) (k : ℕ) → Answers query allow k []
  no-Answers query allow k = (tt, tt, tt, omega arith)

  All-results :
      (query : List F32) (allow : VectorId → Bool) (cs : List Cand)
      → All (λ c. IsLiveSlot ops idx allow c.slot × (c ≡ cand_at ops idx query c.slot)) cs
      → All (IsAnswer ops idx query allow) (map (result_at ops idx) cs)
  All-results query allow [] h = tt
  All-results query allow (c ∷ cs) ((live, e), hs) = (
    subst (λ d. IsAnswer ops idx query allow (result_at ops idx d)) (sym e)
        (live-IsAnswer ops idx valid.tracked query allow c.slot live),
    All-results query allow cs hs,
  )

  -- The entry point of the base layer.
  abbrev pub base_entry : List F32 → ℕ → ℕ
  base_entry query entry =
      descend ops idx query (count_down (length (levels_at idx.links entry) - 1)) entry

  pub base_entry-HasLevel :
      (query : List F32) (entry : ℕ)
      → idx.entry ≡ some entry
      → HasLevel idx.links 0 (base_entry query entry)
  base_entry-HasLevel query entry e =
      let top = length (levels_at idx.links entry) - 1 in
      descend-HasLevel ops idx query (count_down top) top 0 entry valid.closed
        (count_down-Descends top) (count_down-pos top) (omega arith)
        (omega (arith, (valid.entered entry e).0))

  -- The first `k` of what the base layer gives, whatever the filter and the budget.
  pub base-Answers :
      (query : List F32) (k ef ep : ℕ) (filter : Option (ℕ → Bool)) (budget : Option ℕ)
      (allow : VectorId → Bool)
      → HasLevel idx.links 0 ep
      → ((s : ℕ)
          → admissible ops idx (base query ef filter budget) s ≡ true
          → (get_or idx.deleted s false ≡ false) × (allow (get_or idx.ids s 0) ≡ true))
      → Answers query allow k (
          map
            (result_at ops idx)
            (take k (search_layer ops idx (base query ef filter budget) (ep ∷ [])).0))
  base-Answers query k ef ep filter budget allow at_ep passing =
      let ask = base query ef filter budget in
      let found = (search_layer ops idx ask (ep ∷ [])).0 in
      let (hits, sorted, distinct, short) =
        search_layer-IsHit ops idx ask (ep ∷ []) valid.closed (at_ep, tt) in
      let live =
        take-All (λ c. IsLiveSlot ops idx allow c.slot × (c ≡ cand_at ops idx query c.slot)) k found
          (All-weaken (IsHit ops idx ask)
            (λ c. IsLiveSlot ops idx allow c.slot × (c ≡ cand_at ops idx query c.slot)) found
            (λ c h.
              let (alive, allowed) = passing c.slot h.2 in
              (
                (omega (arith, HasLevel-lt idx.links 0 c.slot h.0, valid.nodes), alive, allowed),
                h.1,
              ))
            hits) in
      (
        All-results query allow (take k found) live,
        sorted-IsNearestFirst ops idx (take k found) (take-IsSorted k found sorted),
        live-IsDistinct ops idx valid.tracked allow (take k found)
            (All-weaken (λ c. IsLiveSlot ops idx allow c.slot × (c ≡ cand_at ops idx query c.slot))
              (λ c. IsLiveSlot ops idx allow c.slot) (take k found) (λ c h. h.0) live)
            (take-IsDistinct k found distinct),
        omega (arith, length-map (take k found) (result_at ops idx), length-take k found),
      )

  no_entry :
      (query : List F32) (k ef : ℕ) → idx.entry ≡ none → search_with_ef ops idx query k ef ≡ []
  unfolding search_with_ef
  no_entry query k ef n = ground arith

  some_entry :
      (query : List F32) (k ef entry : ℕ)
      → idx.entry ≡ some entry
      → search_with_ef ops idx query k ef ≡ (
          let q = prepare ops idx.metric query in
          if eqb k 0
          then []
          else map (result_at ops idx) (
              take k
                (search_layer ops idx (base q (max ef k) none none) (base_entry q entry ∷ [])).0))
  unfolding search_with_ef
  some_entry query k ef entry e = ground arith

  plain_passing :
      (query : List F32) (ef s : ℕ)
      → admissible ops idx (base query ef none none) s ≡ true
      → (get_or idx.deleted s false ≡ false) × (true ≡ true)
  unfolding admissible
  plain_passing query ef s h = ground arith

  -- A search answers with entries that are alive, each once, at the distances of their vectors,
  -- nearest first, and at most `k`.
  pub search_with_ef-Answers :
      (query : List F32) (k ef : ℕ)
      → Answers (prepare ops idx.metric query) (λ id. true) k (search_with_ef ops idx query k ef)
  search_with_ef-Answers query k ef = elim (Option-cases idx.entry) [
    | inl n ↦
        subst (Answers (prepare ops idx.metric query) (λ id. true) k) (sym (no_entry query k ef n))
          (no-Answers (prepare ops idx.metric query) (λ id. true) k)
    | inr (entry, e) ↦
        subst (Answers (prepare ops idx.metric query) (λ id. true) k)
          (sym (some_entry query k ef entry e))
          (elim (Bool-cases (eqb k 0)) [
            | inl z ↦ rw z (no-Answers (prepare ops idx.metric query) (λ id. true) k)
            | inr nz ↦ rw nz (
                base-Answers (prepare ops idx.metric query) k (max ef k) _ none none (λ id. true)
                  (base_entry-HasLevel (prepare ops idx.metric query) entry e) (plain_passing _ _))
          ])
  ]
