-- ===== src/Eval.antt =====
-- src/eval.rs: the exact answers that the indexes are measured against, a linear scan of its own.
use gvector.Prelude.{ℕ, ◌+◌, ◌≡◌, refl, sym, ap, ◌∙◌, true, List, [], ◌∷◌, map, filterb, nat_key}
use gvector.Types.{VectorId, F32, SearchResult}
use gvector.Types.Order.{result_ord}
use gvector.Distance.{F32Ops, Metric, distance, prepare}
use mathlib.Core.List.{Permᴰ}
use mathlib.Core.List.Permᴰ as Perm
use gvector.Order.Sort.{sort, sort-eq_self}
use gvector.Order.TopK.{offer, offer_all, offer_all-nil, top, top-IsSorted, top-perm}
use gvector.BruteForce.{BruteForceIndex, Rayon, entries, search}
use gvector.BruteForce.Search.{search_exact, search_filtered-top, result_of}

module _ (ops : F32Ops) where
  -- `for (i, v) in base.iter().enumerate()`, from an `i` on
  exact_loop : Metric → List F32 → ℕ → ℕ → List (List F32) → List SearchResult → List SearchResult
  exact_loop metric query k i [] heap = heap
  exact_loop metric query k i (v ∷ base) heap =
      let cand : SearchResult = record { id = i; distance = distance ops metric query v } in
      exact_loop metric query k (i + 1) base (offer k cand heap)

  unfoldable pub exact_top_k : List (List F32) → List F32 → ℕ → Metric → List SearchResult
  unfolding exact_loop
  exact_top_k base query k metric = sort (exact_loop metric query k 0 base [])

  unfoldable pub ground_truth :
      List (List F32) → List (List F32) → ℕ → Metric → List (List VectorId)
  unfolding exact_top_k
  ground_truth base queries k metric =
      map (λ q. map (λ r. r.id) (exact_top_k base q k metric)) queries

-- The base as entries: a vector's id is its place.
unfoldable pub enumerate : ℕ → List (List F32) → List (VectorId × List F32)
enumerate i [] = []
enumerate i (v ∷ base) = (i, v) ∷ enumerate (i + 1) base

filterb-true : {A : Type 0} (xs : List A) → filterb (λ x. true) xs ≡ xs
filterb-true [] = refl
filterb-true (x ∷ xs) = ap (◌∷◌ x) (filterb-true xs)

exact_loop-offer :
    (ops : F32Ops) (metric : Metric) (query : List F32) (k i : ℕ) (base : List (List F32))
    (heap : List SearchResult)
    → exact_loop ops metric query k i base heap
      ≡ offer_all k (map (result_of ops metric query) (enumerate i base)) heap
unfolding exact_loop offer_all enumerate
exact_loop-offer ops metric query k i [] heap = refl
exact_loop-offer ops metric query k i (v ∷ base) heap =
    exact_loop-offer ops metric query k (i + 1) base _

-- The scan keeps what the sort of the whole base would.
exact_top_k-top :
    (ops : F32Ops) (base : List (List F32)) (query : List F32) (k : ℕ) (metric : Metric)
    → exact_top_k ops base query k metric
      ≡ top k (map (result_of ops metric query) (enumerate 0 base))
unfolding exact_top_k
exact_top_k-top ops base query k metric =
    let all = map (result_of ops metric query) (enumerate 0 base) in
    ap sort (exact_loop-offer ops metric query k 0 base [] ∙ offer_all-nil k all)
    ∙ sort-eq_self (top k all) (top-IsSorted k all)

-- An index whose entries are, in some order, the vectors of the base under their places as ids
-- answers a search, by whatever threads and reduction, with the exact answer to the prepared query.
pub search-exact_top_k :
    (ops : F32Ops) (pool : Rayon) (idx : BruteForceIndex) (base : List (List F32))
    (query : List F32) (k : ℕ)
    → Permᴰ (entries idx) (enumerate 0 base)
    → search ops pool idx query k ≡ exact_top_k ops base (prepare ops idx.metric query) k idx.metric
search-exact_top_k ops pool idx base query k p =
    let q = prepare ops idx.metric query in
    search_exact ops pool idx query k
    ∙ search_filtered-top ops idx query k (λ _. true)
    ∙ ap (λ l. top k (map (result_of ops idx.metric q) l)) (filterb-true (entries idx))
    ∙ top-perm k (Perm.map (result_of ops idx.metric q) p)
    ∙ sym (exact_top_k-top ops base q k idx.metric)
