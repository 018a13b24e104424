-- ===== src/Hnsw/Query/Answers.antt =====
-- What `search_with_ef` answers on a valid index.
use gvector.Prelude.{
  ℕ, zero, suc, ◌<◌, ◌≡◌, refl, sym, ap, ◌∙◌, Bool, true, false, some, List, [], ◌∷◌, map, arith,
  eqb, eqb_iff, some_inj, length, get_or, take, anyb, All, nat_key, string_key, lookup,
}
use gvector.Types.{VectorId, F32, SearchResult, Cand, sign32, total_cmp, is_lt}
use gvector.Types.Order.{cand_ord, lt_cand}
use gvector.Order.Sort.{IsSorted, AtMost}
use gvector.Distance.{F32Ops, distance}
use gvector.BruteForce.Contains.{IsDistinct}
use gvector.Hnsw.{HnswIndex, vector_of, vector_at, cand_at, result_at, dist_to}
use gvector.Hnsw.Layer.Slots.{slots}
use gvector.Hnsw.Update.Rows.{rows}
use gvector.Hnsw.Update.Tracked.{IsTracked}
use gvector.Hnsw.Update.Compacted.{get_or-some}

-- No distance stands before an earlier one, under `total_cmp`.
abbrev pub FarFrom : F32 → List SearchResult → Type 0
FarFrom d [] = Unit
FarFrom d (r ∷ rs) = (is_lt (total_cmp sign32 r.distance d) ≡ false) × FarFrom d rs

abbrev pub IsNearestFirst : List SearchResult → Type 0
IsNearestFirst [] = Unit
IsNearestFirst (r ∷ rs) = FarFrom r.distance rs × IsNearestFirst rs

AtMost-take : (c : Cand) (k : ℕ) (cs : List Cand) → AtMost c cs → AtMost c (take k cs)
AtMost-take c zero cs h = tt
AtMost-take c (suc k) [] h = tt
AtMost-take c (suc k) (d ∷ cs) (h, hs) = (h, AtMost-take c k cs hs)

pub take-IsSorted : (k : ℕ) (cs : List Cand) → IsSorted cs → IsSorted (take k cs)
take-IsSorted zero cs h = tt
take-IsSorted (suc k) [] h = tt
take-IsSorted (suc k) (c ∷ cs) (h, hs) = (AtMost-take c k cs h, take-IsSorted k cs hs)

pub take-All : {A : Type 0} (P : A → Type 0) (k : ℕ) (xs : List A) → All P xs → All P (take k xs)
take-All P zero xs h = tt
take-All P (suc k) [] h = tt
take-All P (suc k) (x ∷ xs) (h, hs) = (h, take-All P k xs hs)

pub take-fresh :
    (s k : ℕ) (cs : List Cand)
    → anyb (eqb s) (slots cs) ≡ false
    → anyb (eqb s) (slots (take k cs)) ≡ false
take-fresh s zero cs h = refl
take-fresh s (suc k) [] h = refl
take-fresh s (suc k) (c ∷ cs) h = ground (arith, take-fresh s k cs)

pub take-IsDistinct :
    (k : ℕ) (cs : List Cand) → IsDistinct (slots cs) → IsDistinct (slots (take k cs))
take-IsDistinct zero cs h = tt
take-IsDistinct (suc k) [] h = tt
take-IsDistinct (suc k) (c ∷ cs) (h, hs) = (take-fresh c.slot k cs h, take-IsDistinct k cs hs)

lt_cand_dist : (a b : Cand) → lt_cand a b ≡ false → is_lt (total_cmp sign32 a.dist b.dist) ≡ false
unfolding lt_cand
lt_cand_dist a b h = ground arith

module _ (ops : F32Ops) {R : Type 0} (idx : HnswIndex R) where
  AtMost-FarFrom :
      (c : Cand) (cs : List Cand) → AtMost c cs → FarFrom c.dist (map (result_at ops idx) cs)
  unfolding lt_cand
  AtMost-FarFrom c [] h = tt
  AtMost-FarFrom c (d ∷ cs) (h, hs) = (lt_cand_dist d c h, AtMost-FarFrom c cs hs)

  pub sorted-IsNearestFirst :
      (cs : List Cand) → IsSorted cs → IsNearestFirst (map (result_at ops idx) cs)
  sorted-IsNearestFirst [] h = tt
  sorted-IsNearestFirst (c ∷ cs) (h, hs) = (AtMost-FarFrom c cs h, sorted-IsNearestFirst cs hs)

  -- The result of an id that is alive and passes, at the distance of its vector.
  pub record IsAnswer (query : List F32) (allow : VectorId → Bool) (r : SearchResult) : Type 0 where
    pub vector : List F32
    pub held : vector_of idx r.id ≡ some vector
    pub at_distance : r.distance ≡ distance ops idx.metric query vector
    pub allowed : allow r.id ≡ true

  -- A slot that is alive and passes.
  abbrev pub IsLiveSlot : (VectorId → Bool) → ℕ → Type 0
  IsLiveSlot allow s =
      (s < length idx.ids)
      × (get_or idx.deleted s false ≡ false)
      × (allow (get_or idx.ids s 0) ≡ true)

  pub live-mapped :
      IsTracked (rows idx)
      → (allow : VectorId → Bool) (s : ℕ) → IsLiveSlot allow s
      → lookup (get_or idx.ids s 0) idx.slot_of ≡ some s
  live-mapped t allow s (l, alive, a) =
      t.mapped (get_or idx.ids s 0) s (get_or-some idx.ids s 0 l)
        (get_or-some idx.deleted s false (omega (arith, t.flags)) ∙ ap some alive)

  pub live-IsAnswer :
      IsTracked (rows idx)
      → (query : List F32) (allow : VectorId → Bool) (s : ℕ) → IsLiveSlot allow s
      → IsAnswer query allow (result_at ops idx (cand_at ops idx query s))
  unfolding vector_of dist_to
  live-IsAnswer t query allow s live = record {
    vector = vector_at idx s;
    held = rw (live-mapped t allow s live, vector_of) refl;
    at_distance = refl;
    allowed = live.2;
  }

  live-fresh :
      IsTracked (rows idx)
      → (allow : VectorId → Bool) (s : ℕ) (cs : List Cand) → IsLiveSlot allow s
      → All (λ c. IsLiveSlot allow c.slot) cs
      → anyb (eqb s) (slots cs) ≡ false
      → anyb (eqb (get_or idx.ids s 0)) (map (λ r. r.id) (map (result_at ops idx) cs)) ≡ false
  live-fresh t allow s [] live h n = refl
  live-fresh t allow s (c ∷ cs) live (h, hs) n =
      let same : get_or idx.ids s 0 ≡ get_or idx.ids c.slot 0 → s ≡ c.slot = λ q. some_inj (
        sym (live-mapped t allow s live)
        ∙ ap (λ id. lookup id idx.slot_of) q
        ∙ live-mapped t allow c.slot h) in
      ground (
        arith,
        eqb_iff s c.slot,
        eqb_iff (get_or idx.ids s 0) (get_or idx.ids c.slot 0),
        live-fresh t allow s cs live hs (ground arith),
      )

  -- Different slots that are alive hold different ids.
  pub live-IsDistinct :
      IsTracked (rows idx)
      → (allow : VectorId → Bool) (cs : List Cand) → All (λ c. IsLiveSlot allow c.slot) cs
      → IsDistinct (slots cs)
      → IsDistinct (map (λ r. r.id) (map (result_at ops idx) cs))
  live-IsDistinct t allow [] h d = tt
  live-IsDistinct t allow (c ∷ cs) (h, hs) (n, d) =
      (live-fresh t allow c.slot cs h hs n, live-IsDistinct t allow cs hs d)
