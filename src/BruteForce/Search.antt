-- ===== src/BruteForce/Search.antt =====
-- The heap scan, serial or over rayon's chunks, finds what the sorting scan finds.
use gvector.Prelude.{
  ℕ, zero, suc, ◌+◌, ◌-◌, ◌/◌, ◌≤◌, ◌<◌, min, max, ◌≡◌, refl, sym, ap, ◌∙◌, subst, inl, inr, Bool,
  true, List, [], ◌∷◌, ◌++◌, map, append-nil, append_assoc, arith, ltb, leb, eqb, ltb→lt,
  ltb-false→le, leb→le, eqb_iff, Bool-cases, length, get_or, filterb, All, nat_key, string_key,
}
use mathlib.Core.Path.{ap₂}
use mathlib.Core.List.{reverse, reverse-reverse, flatten}
use gvector.Types.{VectorId, F32, SearchResult}
use gvector.Types.Order.{result_ord}
use gvector.Distance.{F32Ops, Metric, distance, prepare}
use gvector.Order.TopK.{
  offer_all, top, offer_all-nil, offer_all-top, top-append_top, top-append_congr, top-append_comm,
  top-nil, top-top, drain, drain-eq_reverse,
}
use gvector.BruteForce.{
  BruteForceIndex, Rayon, Reduction, identity, leaf, both, leaves, vector_at, candidate, scan_loop,
  scan_range, chunk_heaps, reduce_heaps, search, search_filtered, filtered_candidates, entries,
  entries_from,
}

at_zero : (n : ℕ) → n + 0 ≡ n
at_zero n = omega arith

zero_at : (n : ℕ) → 0 + n ≡ n
zero_at n = omega arith

shift : (n i : ℕ) → n + 1 + i ≡ n + suc i
shift n i = omega arith

flatten-append : (xs ys : List (List SearchResult)) → flatten (xs ++ ys) ≡ flatten xs ++ flatten ys
unfolding flatten
flatten-append [] ys = refl
flatten-append (x ∷ xs) ys =
    ap (◌++◌ x) (flatten-append xs ys) ∙ sym (append_assoc x (flatten xs) (flatten ys))

-- A heap that some scan has left holds its own best.
abbrev IsTop : ℕ → List SearchResult → Type 0
IsTop k h = top k h ≡ h

All-append_left {ℓ κ} : {A : Type ℓ} (P : A → Type κ) (xs ys : List A) → All P (xs ++ ys) → All P xs
All-append_left P [] ys h = tt
All-append_left P (x ∷ xs) ys h = (h.0, All-append_left P xs ys h.1)

All-append_right {ℓ κ} :
    {A : Type ℓ} (P : A → Type κ) (xs ys : List A) → All P (xs ++ ys) → All P ys
All-append_right P [] ys h = h
All-append_right P (x ∷ xs) ys h = All-append_right P xs ys h.1

-- Any bracketing of heaps gives the best of them together.
reduce_heaps-top :
    (ops : F32Ops) (k : ℕ) (t : Reduction)
    → All (IsTop k) (leaves t)
    → reduce_heaps ops k t ≡ top k (flatten (leaves t))
unfolding reduce_heaps flatten
reduce_heaps-top ops k identity h = sym (top-nil k)
reduce_heaps-top ops k (leaf l) h = sym (ap (top k) (append-nil l) ∙ h.0)
reduce_heaps-top ops k (both a b) h =
    let fa = flatten (leaves a) in
    let fb = flatten (leaves b) in
    ap (offer_all k (reduce_heaps ops k b))
      (reduce_heaps-top ops k a (All-append_left (IsTop k) (leaves a) (leaves b) h))
    ∙ offer_all-top k (reduce_heaps ops k b) fa
    ∙ ap (λ r. top k (r ++ fa))
        (reduce_heaps-top ops k b (All-append_right (IsTop k) (leaves a) (leaves b) h))
    ∙ top-append_comm k (top k fb) fa
    ∙ top-append_top k fb fa
    ∙ sym (ap (top k) (flatten-append (leaves a) (leaves b)))

module _ (ops : F32Ops) (idx : BruteForceIndex) (query : List F32) where
  -- The candidates of `n` slots from `slot` on.
  cands : ℕ → ℕ → List SearchResult
  cands slot zero = []
  cands slot (suc n) = candidate ops idx query slot ∷ cands (slot + 1) n

  cands_eq : (s s' n n' : ℕ) → s ≡ s' → n ≡ n' → cands s n ≡ cands s' n'
  cands_eq s s' n n' e f = rw (e, f)

  cands_zero : (s n : ℕ) → n ≡ 0 → cands s n ≡ []
  unfolding cands
  cands_zero s n e = rw e

  cands-add : (slot a b : ℕ) → cands slot (a + b) ≡ cands slot a ++ cands (slot + a) b
  unfolding cands
  cands-add slot zero b = cands_eq slot (slot + 0) (0 + b) b (omega arith) (omega arith)
  cands-add slot (suc a) b =
      cands_eq slot slot (suc a + b) (suc (a + b)) refl (omega arith)
      ∙ ap (◌∷◌ (candidate ops idx query slot)) (
          cands-add (slot + 1) a b
          ∙ ap (◌++◌ (cands (slot + 1) a))
              (cands_eq (slot + 1 + a) (slot + suc a) b b (omega arith) refl))

  scan_loop-offer :
      (k n slot : ℕ) (heap : List SearchResult)
      → scan_loop ops idx query k n slot heap ≡ offer_all k (cands slot n) heap
  unfolding scan_loop cands offer_all
  scan_loop-offer k zero slot heap = refl
  scan_loop-offer k (suc n) slot heap = scan_loop-offer k n (slot + 1) _

  scan_range-top :
      (k start end : ℕ) → scan_range ops idx query k start end ≡ top k (cands start (end - start))
  unfolding scan_range
  scan_range-top k start end =
      scan_loop-offer k (end - start) start [] ∙ offer_all-nil k (cands start (end - start))

  -- What a chunk leaves to the next.
  cands-rest :
      (start chunk n : ℕ)
      → start < n
      → cands start (n - start)
        ≡ cands start (min (start + chunk) n - start) ++ cands (start + chunk) (n - (start + chunk))
  cands-rest start chunk n h =
      let a = min (start + chunk) n - start in
      cands_eq start start (n - start) (a + (n - (start + chunk))) refl (omega arith)
      ∙ cands-add start a (n - (start + chunk))
      ∙ ap (◌++◌ (cands start a)) (elim (Bool-cases (leb (start + chunk) n)) [
        | inl e ↦ cands_eq (start + a) (start + chunk) _ _ (omega (arith, leb→le _ _ e)) refl
        | inr e ↦
            let z : n - (start + chunk) ≡ 0 = ground arith in
            cands_zero (start + a) _ z ∙ sym (cands_zero (start + chunk) _ z)
      ])

  -- The chunks together scan every slot once.
  chunk_heaps-top :
      (k chunk n fuel start : ℕ)
      → 0 < chunk
      → n ≤ start + fuel
      → top k (flatten (chunk_heaps ops idx query k chunk n fuel start))
        ≡ top k (cands start (n - start))
  unfolding chunk_heaps flatten
  chunk_heaps-top k chunk n zero start pos h =
      sym (ap (top k) (cands_zero start (n - start) (omega arith)))
  chunk_heaps-top k chunk n (suc fuel) start pos h =
      let this = cands start (min (start + chunk) n - start) in
      let next = cands (start + chunk) (n - (start + chunk)) in
      let rest = flatten (chunk_heaps ops idx query k chunk n fuel (start + chunk)) in
      elim (Bool-cases (ltb start n)) [
        | inl more ↦ rw more (
            ap (λ h. top k (h ++ rest)) (scan_range-top k start (min (start + chunk) n))
            ∙ top-append_comm k (top k this) rest
            ∙ top-append_top k this rest
            ∙ top-append_comm k rest this
            ∙ top-append_congr k this rest next
                (chunk_heaps-top k chunk n fuel (start + chunk) pos (omega arith))
            ∙ sym (ap (top k) (cands-rest start chunk n (ltb→lt start n more))))
        | inr over ↦ rw over (
            sym (
              ap (top k) (cands_zero start (n - start) (omega (arith, ltb-false→le start n over)))))
      ]

  cands-filtered :
      (slot : ℕ) (ids : List VectorId)
      → ((i : ℕ) → get_or idx.ids (slot + i) 0 ≡ get_or ids i 0)
      → cands slot (length ids) ≡ filtered_candidates ops idx query (λ _. true) slot ids
  unfolding cands filtered_candidates candidate
  cands-filtered slot [] h = refl
  cands-filtered slot (id ∷ ids) h =
      ap₂ ◌∷◌
        (ap (λ i. record { id = i; distance = distance ops idx.metric query (vector_at idx slot) })
          (sym (ap (λ n. get_or idx.ids n 0) (at_zero slot)) ∙ h 0))
        (cands-filtered (slot + 1) ids
          (λ i. ap (λ n. get_or idx.ids n 0) (shift slot i) ∙ h (suc i)))

  chunk_heaps-IsTop :
      (k chunk n fuel start : ℕ) → All (IsTop k) (chunk_heaps ops idx query k chunk n fuel start)
  unfolding chunk_heaps
  chunk_heaps-IsTop k chunk n zero start = tt
  chunk_heaps-IsTop k chunk n (suc fuel) start = elim (Bool-cases (ltb start n)) [
    | inl more ↦
        let e = scan_range-top k start (min (start + chunk) n) in
        rw more
          (ap (top k) e ∙ top-top k _ ∙ sym e, chunk_heaps-IsTop k chunk n fuel (start + chunk))
    | inr over ↦ rw over tt
  ]

  parallel-top :
      (pool : Rayon) (k chunk n : ℕ)
      → 0 < chunk
      → reduce_heaps ops k (pool.shape (chunk_heaps ops idx query k chunk n n 0))
        ≡ top k (cands 0 (n - 0))
  parallel-top pool k chunk n pos =
      let hs = chunk_heaps ops idx query k chunk n n 0 in
      reduce_heaps-top ops k (pool.shape hs)
        (subst (All (IsTop k)) (sym (pool.leaves-shape hs)) (chunk_heaps-IsTop k chunk n n 0))
      ∙ ap (λ l. top k (flatten l)) (pool.leaves-shape hs)
      ∙ chunk_heaps-top k chunk n n 0 pos (omega arith)

  cands-all : cands 0 (length idx.ids - 0) ≡ filtered_candidates ops idx query (λ _. true) 0 idx.ids
  cands-all =
      cands_eq 0 0 (length idx.ids - 0) (length idx.ids) refl (omega arith)
      ∙ cands-filtered 0 idx.ids (λ i. ap (λ n. get_or idx.ids n 0) (zero_at i))

  pub drained : (h : List SearchResult) → reverse (drain h) ≡ h
  drained h = ap reverse (drain-eq_reverse h) ∙ reverse-reverse h

div_ceil-pos : (n w : ℕ) → 0 < n → 0 < w → 0 < (n + w - 1) / w
div_ceil-pos n w h p = grind arith

-- A search is the sorting scan that lets every id pass, whatever the threads and the reduction.
pub search_exact :
    (ops : F32Ops) (pool : Rayon) (idx : BruteForceIndex) (query : List F32) (k : ℕ)
    → search ops pool idx query k ≡ search_filtered ops idx query k (λ _. true)
unfolding search search_filtered top
search_exact ops pool idx query k =
    let n = length idx.ids in
    let q = prepare ops idx.metric query in
    let w = max pool.threads 1 in
    let all = filtered_candidates ops idx q (λ _. true) 0 idx.ids in
    elim (Bool-cases (eqb k 0)) [
      | inl z ↦ rw z
      | inr nz ↦ elim (Bool-cases (eqb n 0)) [
        | inl e ↦
            let none_left : all ≡ [] =
              sym (cands-all ops idx q)
              ∙ cands_zero ops idx q 0 (n - 0) (omega (arith, (eqb_iff n 0).0 e)) in
            rw (nz, e) (sym (ap (top k) none_left ∙ top-nil k))
        | inr ne ↦
            rw (nz, ne)
              (drained ops idx q _ ∙ elim (Bool-cases (ltb n 20_000)) [
                | inl small ↦
                    rw small (scan_range-top ops idx q k 0 n ∙ ap (top k) (cands-all ops idx q))
                | inr large ↦ rw large (
                    parallel-top ops idx q pool k ((n + w - 1) / w) n
                      (div_ceil-pos n w (ground arith) (omega arith))
                    ∙ ap (top k) (cands-all ops idx q))
              ])
      ]
    ]

-- The result of an entry.
abbrev pub result_of : F32Ops → Metric → List F32 → VectorId × List F32 → SearchResult
result_of ops metric q (id, v) = record { id = id; distance = distance ops metric q v }

filtered-entries :
    (ops : F32Ops) (idx : BruteForceIndex) (q : List F32) (allow : VectorId → Bool) (slot : ℕ)
    (ids : List VectorId)
    → filtered_candidates ops idx q allow slot ids
      ≡ map (result_of ops idx.metric q) (filterb (λ e. allow e.0) (entries_from idx slot ids))
unfolding filtered_candidates entries_from
filtered-entries ops idx q allow slot [] = refl
filtered-entries ops idx q allow slot (id ∷ ids) = elim (Bool-cases (allow id)) [
  | inl y ↦ rw y (
      ap (◌∷◌ (record { id = id; distance = distance ops idx.metric q (vector_at idx slot) }))
        (filtered-entries ops idx q allow (slot + 1) ids))
  | inr n ↦ rw n (filtered-entries ops idx q allow (slot + 1) ids)
]

-- A filtered search gives the `k` nearest entries among those that pass, in order.
pub search_filtered-top :
    (ops : F32Ops) (idx : BruteForceIndex) (query : List F32) (k : ℕ) (allow : VectorId → Bool)
    → search_filtered ops idx query k allow
      ≡ top k (
          map
            (result_of ops idx.metric (prepare ops idx.metric query))
            (filterb (λ e. allow e.0) (entries idx)))
unfolding search_filtered entries top
search_filtered-top ops idx query k allow = elim (Bool-cases (eqb k 0)) [
  | inl z ↦ rw (z, (eqb_iff k 0).0 z)
  | inr nz ↦
      rw nz (ap (top k) (filtered-entries ops idx (prepare ops idx.metric query) allow 0 idx.ids))
]
