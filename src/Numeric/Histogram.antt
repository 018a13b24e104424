-- ===== src/Numeric/Histogram.antt =====
-- The histogram counts the map: every operation keeps it so.
use gvector.Prelude.{
  ℕ, ◌+◌, ◌^◌, ◌<◌, ◌≡◌, refl, ap, ◌∙◌, inl, inr, ◌||◌, some, List, [], ◌∷◌, arith, eqb,
  if◌then◌else◌, Bool-cases, Option-cases, length, get_or, replicate, length-set, nat_key,
  string_key,
}
use Prim.{tt}
use gvector.Types.{VectorId, F64}
use gvector.Meta.Number.{ordered_bits, bits_to_f64, bits_to_f64-ordered_bits}
use gvector.Numeric.{
  F64Arith, Sorted, NumericFieldIndex, new, buckets, push_id, ids_at, position, swap_remove, bucket,
  count_all, rebuild_hist, cleared, add_to, f64_lt, remove_at, remove, insert as insert_value,
}
use gvector.Numeric.Weights.{
  weigh, weigh-push_id, weigh-replace_ids, sum_ids-swap_remove, position_at,
}
use gvector.Numeric.Keys.{IsKeyed, IsKeyed-push_id, IsKeyed-replace_ids}
use gvector.Numeric.Counts.{
  sum_ids-ones, get_or-cleared, get_or-add_to, get_or-take_one, length-cleared,
}

module _ (ops : F64Arith) where
  -- One for each id in a bucket.
  abbrev pub in_bucket : F64 → F64 → ℕ → ℕ → VectorId → ℕ
  in_bucket lo hi b key id = if eqb (bucket ops lo hi (bits_to_f64 key)) b then 1 else 0

  pub record IsValid (idx : NumericFieldIndex) : Type 0 where
    pub keyed : IsKeyed idx.sorted
    pub total : idx.total ≡ weigh (λ k id. 1) idx.sorted
    pub size : length idx.hist ≡ buckets
    pub counted :
        (b : ℕ) → b < buckets → get_or idx.hist b 0 ≡ weigh (in_bucket idx.lo idx.hi b) idx.sorted

  pub bucket-lt : (lo hi v : F64) → bucket ops lo hi v < buckets
  unfolding bucket
  bucket-lt lo hi v = ground arith

  length-count_all :
      (lo hi : F64) (s : Sorted) (hist : List ℕ) → length (count_all ops lo hi s hist) ≡ length hist
  unfolding count_all
  length-count_all lo hi [] hist = refl
  length-count_all lo hi ((k, ids) ∷ s) hist =
      let b = bucket ops lo hi (bits_to_f64 k) in
      length-count_all lo hi s (add_to hist b (length ids))
      ∙ length-set hist b (get_or hist b 0 + length ids)

  -- The rebuilt histogram counts what the map holds, on top of what it had.
  count_all-weigh :
      (lo hi : F64) (s : Sorted) (hist : List ℕ) (b : ℕ)
      → length hist ≡ buckets
      → get_or (count_all ops lo hi s hist) b 0 ≡ get_or hist b 0 + weigh (in_bucket lo hi b) s
  unfolding count_all weigh
  count_all-weigh lo hi [] hist b h = omega arith
  count_all-weigh lo hi ((k, ids) ∷ s) hist b h =
      let i = bucket ops lo hi (bits_to_f64 k) in
      let now =
        get_or-add_to hist i b (length ids) (omega (arith, bucket-lt lo hi (bits_to_f64 k))) in
      let later =
        count_all-weigh lo hi s (add_to hist i (length ids)) b
          (length-set hist i (get_or hist i 0 + length ids) ∙ h) in
      let each = sum_ids-ones (eqb i b) ids in omega (arith, now, later, each)

  rebuilt-IsValid :
      (idx : NumericFieldIndex)
      → IsKeyed idx.sorted
      → idx.total ≡ weigh (λ k id. 1) idx.sorted
      → length idx.hist ≡ buckets
      → IsValid (rebuild_hist ops idx)
  unfolding rebuild_hist
  rebuilt-IsValid idx keyed total size =
      let clear : length (cleared idx.hist) ≡ buckets = length-cleared idx.hist ∙ size in
      record {
        keyed = keyed;
        total = total;
        size = length-count_all idx.lo idx.hi idx.sorted (cleared idx.hist) ∙ clear;
        counted = λ b l.
            count_all-weigh idx.lo idx.hi idx.sorted (cleared idx.hist) b clear
            ∙ ap (λ n. n + weigh (in_bucket idx.lo idx.hi b) idx.sorted) (get_or-cleared idx.hist b)
            ∙ omega arith;
      }

  pub new-IsValid : IsValid new
  unfolding new weigh
  new-IsValid = record {
    keyed = tt;
    total = refl;
    size = refl;
    counted = λ b l. get_or-cleared (replicate buckets 0) b;
  }

  in_bucket-key :
      (lo hi : F64) (b : ℕ) (v : F64) (id : VectorId)
      → v < 2 ^ 64
      → in_bucket lo hi b (ordered_bits v) id ≡ (if eqb (bucket ops lo hi v) b then 1 else 0)
  in_bucket-key lo hi b v id l = rw ((bits_to_f64-ordered_bits v l).0) refl

  -- An insert of a value of 64 bits keeps the index valid.
  pub insert-IsValid :
      (idx : NumericFieldIndex) (v : F64) (id : VectorId)
      → v < 2 ^ 64
      → IsValid idx
      → IsValid (insert_value ops idx v id)
  unfolding insert_value
  insert-IsValid idx v id l valid =
      let (back, low) = bits_to_f64-ordered_bits v l in
      let key = ordered_bits v in
      let keyed = IsKeyed-push_id key id idx.sorted low valid.keyed in
      let total : idx.total + 1 ≡ weigh (λ k x. 1) (push_id key id idx.sorted) =
        omega (arith, valid.total, weigh-push_id (λ k x. 1) key id idx.sorted) in
      let i = bucket ops idx.lo idx.hi v in
      elim (Bool-cases (f64_lt v idx.lo || f64_lt idx.hi v)) [
        | inl out ↦ rw out (rebuilt-IsValid _ keyed total valid.size)
        | inr inside ↦ rw inside (record {
          keyed = keyed;
          total = total;
          size = length-set idx.hist _ _ ∙ valid.size;
          counted = λ b lb. omega (
            arith,
            get_or-add_to idx.hist i b 1 (omega (arith, bucket-lt idx.lo idx.hi v, valid.size)),
            valid.counted b lb,
            weigh-push_id (in_bucket idx.lo idx.hi b) key id idx.sorted,
            in_bucket-key idx.lo idx.hi b v id l,
          );
        })
      ]

  remove_at-IsValid :
      (idx : NumericFieldIndex) (v : F64) (id : VectorId) (ids : List VectorId) (pos : ℕ)
      → v < 2 ^ 64
      → IsValid idx
      → ids_at (ordered_bits v) idx.sorted ≡ some ids
      → position id ids ≡ some pos
      → IsValid (remove_at ops idx v ids pos)
  unfolding remove_at
  remove_at-IsValid idx v id ids pos l valid at there =
      let (back, low) = bits_to_f64-ordered_bits v l in
      let key = ordered_bits v in
      let i = bucket ops idx.lo idx.hi v in
      let left = swap_remove ids pos in
      let gone = λ (f : ℕ → VectorId → ℕ).
        weigh-replace_ids f key id ids left idx.sorted at
          (sum_ids-swap_remove (f key) ids pos id (position_at id ids pos there)) in
      record {
        keyed = IsKeyed-replace_ids key left idx.sorted valid.keyed;
        total = omega (arith, valid.total, gone (λ k x. 1));
        size = length-set idx.hist _ _ ∙ valid.size;
        counted = λ b lb. omega (
          arith,
          get_or-take_one idx.hist i b (omega (arith, bucket-lt idx.lo idx.hi v, valid.size)),
          valid.counted b lb,
          gone (in_bucket idx.lo idx.hi b),
          in_bucket-key idx.lo idx.hi b v id l,
        );
      }

  -- A removal keeps the index valid, whether it finds the pair or not.
  pub remove-IsValid :
      (idx : NumericFieldIndex) (v : F64) (id : VectorId)
      → v < 2 ^ 64
      → IsValid idx
      → IsValid (remove ops idx v id)
  unfolding remove
  remove-IsValid idx v id l valid = elim (Option-cases (ids_at (ordered_bits v) idx.sorted)) [
    | inl none_left ↦ rw (none_left, remove) valid
    | inr (ids, at) ↦ elim (Option-cases (position id ids)) [
      | inl absent ↦ rw (at, absent, remove) valid
      | inr (pos, there) ↦
          rw (at, there, remove) (remove_at-IsValid idx v id ids pos l valid at there)
    ]
  ]
