-- ===== src/Numeric/Inside.antt =====
-- The bounds of the histogram stay numbers, and every value stays between them.
use gvector.Prelude.{
  ℕ, ◌*◌, ◌%◌, ◌^◌, ◌<◌, ◌≡◌, refl, sym, subst, inl, inr, true, false, ◌||◌, List, [], ◌∷◌, arith,
  ltb, eqb, Bool-cases, Option-cases, All, nat_key, string_key,
}
use Prim.{tt}
use gvector.Types.{VectorId, F64, sign64}
use gvector.Meta.Number.{ordered_bits, bits_to_f64, bits_to_f64-ordered_bits, is_nan, f64_le}
use gvector.Numeric.{
  F64Arith, Sorted, NumericFieldIndex, new, push_id, ids_at, put_ids, replace_ids, position,
  swap_remove, f64_lt, margin, rebuild_hist, remove_at, remove, insert as insert_value,
}
use gvector.Numeric.Floats.{IsMonotone, IsInside, le_trans, number_left, number_right, not_lt}

-- Neither an infinity nor a NaN.
abbrev pub IsFinite : F64 → Type 0
IsFinite v = v % sign64 < 2047 * 2 ^ 52

-- A margin is not negative: a number less its margin is not above it, a number with its margin not
-- below it.
pub record IsWidening (ops : F64Arith) : Type 0 where
  pub min_right :
      (a b : F64) → is_nan a ≡ false → is_nan b ≡ false → f64_le (ops.min_of a b) b ≡ true
  pub max_right :
      (a b : F64) → is_nan a ≡ false → is_nan b ≡ false → f64_le b (ops.max_of a b) ≡ true
  pub margin_below : (span v : F64) → IsFinite v → f64_le (ops.sub v (margin ops span v)) v ≡ true
  pub margin_above : (span v : F64) → IsFinite v → f64_le v (ops.add v (margin ops span v)) ≡ true

pub record IsBounded (idx : NumericFieldIndex) : Type 0 where
  pub number_lo : is_nan idx.lo ≡ false
  pub number_hi : is_nan idx.hi ≡ false
  pub inside : IsInside idx

module _ (P : ℕ → Type 0) where
  All-push_id :
      (key : ℕ) (id : VectorId) (s : Sorted)
      → P key
      → All (λ e. P e.0) s
      → All (λ e. P e.0) (push_id key id s)
  unfolding push_id
  All-push_id key id [] p h = (p, tt)
  All-push_id key id ((k, ids) ∷ s) p (q, h) = elim (Bool-cases (eqb k key)) [
    | inl same ↦ rw same (q, h)
    | inr other ↦ rw other (elim (Bool-cases (ltb key k)) [
      | inl below ↦ rw below (p, (q, h))
      | inr above ↦ rw above (q, All-push_id key id s p h)
    ])
  ]

  All-put_ids :
      (new_ids : List VectorId) (k : ℕ) (s : Sorted)
      → P k
      → All (λ e. P e.0) s
      → All (λ e. P e.0) (put_ids new_ids k s)
  unfolding put_ids
  All-put_ids [] k s p h = h
  All-put_ids (x ∷ xs) k s p h = (p, h)

  All-replace_ids :
      (key : ℕ) (new_ids : List VectorId) (s : Sorted)
      → All (λ e. P e.0) s
      → All (λ e. P e.0) (replace_ids key new_ids s)
  unfolding replace_ids
  All-replace_ids key new_ids [] h = tt
  All-replace_ids key new_ids ((k, ids) ∷ s) (q, h) = elim (Bool-cases (eqb k key)) [
    | inl same ↦ rw same (All-put_ids new_ids k s q h)
    | inr other ↦ rw other (q, All-replace_ids key new_ids s h)
  ]

abbrev Between : F64 → F64 → ℕ → Type 0
Between lo hi k = (f64_le lo (bits_to_f64 k) ≡ true) × (f64_le (bits_to_f64 k) hi ≡ true)

widened :
    (lo hi lo' hi' : F64) (s : Sorted)
    → f64_le lo' lo ≡ true
    → f64_le hi hi' ≡ true
    → All (λ e. Between lo hi e.0) s
    → All (λ e. Between lo' hi' e.0) s
widened lo hi lo' hi' [] a b h = tt
widened lo hi lo' hi' ((k, ids) ∷ s) a b ((below, above), h) = (
  (le_trans lo' lo (bits_to_f64 k) a below, le_trans (bits_to_f64 k) hi hi' above b),
  widened lo hi lo' hi' s a b h,
)

finite_number : (v : F64) → IsFinite v → is_nan v ≡ false
unfolding is_nan
finite_number v h = ground arith

pub new-IsBounded : IsBounded new
unfolding new is_nan
new-IsBounded = record { number_lo = refl; number_hi = refl; inside = tt }

module _ (ops : F64Arith) (mono : IsMonotone ops) (wide : IsWidening ops) where
  -- After an insert of a finite value the bounds are numbers and every value lies between them.
  pub insert-IsBounded :
      (idx : NumericFieldIndex) (v : F64) (id : VectorId)
      → v < 2 ^ 64
      → IsFinite v
      → IsBounded idx
      → IsBounded (insert_value ops idx v id)
  unfolding insert_value rebuild_hist
  insert-IsBounded idx v id l finite b =
      let n_v = finite_number v finite in
      let key = ordered_bits v in
      let back : v ≡ bits_to_f64 key = sym ((bits_to_f64-ordered_bits v l).0) in
      elim (Bool-cases (f64_lt v idx.lo || f64_lt idx.hi v)) [
        | inl out ↦
            let span = ops.sub idx.hi idx.lo in
            let low = ops.sub v (margin ops span v) in
            let high = ops.add v (margin ops span v) in
            let under = wide.margin_below span v finite in
            let over = wide.margin_above span v finite in
            let n_low = number_left low v under in
            let n_high = number_right v high over in
            let left = mono.min_left idx.lo low b.number_lo n_low in
            let right = mono.max_left idx.hi high b.number_hi n_high in
            let lo' = ops.min_of idx.lo low in
            let hi' = ops.max_of idx.hi high in
            let at_v : Between lo' hi' key =
              subst (λ x. (f64_le lo' x ≡ true) × (f64_le x hi' ≡ true)) back
                (
                  le_trans lo' low v (wide.min_right idx.lo low b.number_lo n_low) under,
                  le_trans v high hi' over (wide.max_right idx.hi high b.number_hi n_high),
                ) in
            rw out (record {
              number_lo = number_left lo' idx.lo left;
              number_hi = number_right idx.hi hi' right;
              inside =
                  All-push_id (Between lo' hi') key id idx.sorted at_v
                    (widened idx.lo idx.hi lo' hi' idx.sorted left right b.inside);
            })
        | inr in_bounds ↦
            let at_v : Between idx.lo idx.hi key =
              subst (λ x. (f64_le idx.lo x ≡ true) × (f64_le x idx.hi ≡ true)) back
                (
                  not_lt v idx.lo n_v b.number_lo (ground arith),
                  not_lt idx.hi v b.number_hi n_v (ground arith),
                ) in
            rw in_bounds (record {
              number_lo = b.number_lo;
              number_hi = b.number_hi;
              inside = All-push_id (Between idx.lo idx.hi) key id idx.sorted at_v b.inside;
            })
      ]

  -- A removal keeps the bounds, and takes no value out of them.
  pub remove-IsBounded :
      (idx : NumericFieldIndex) (v : F64) (id : VectorId)
      → IsBounded idx
      → IsBounded (remove ops idx v id)
  unfolding remove remove_at
  remove-IsBounded idx v id b = elim (Option-cases (ids_at (ordered_bits v) idx.sorted)) [
    | inl none_left ↦ rw (none_left, remove) b
    | inr (ids, at) ↦ elim (Option-cases (position id ids)) [
      | inl absent ↦ rw (at, absent, remove) b
      | inr (pos, there) ↦
          rw (at, there, remove)
            (record {
              number_lo = b.number_lo;
              number_hi = b.number_hi;
              inside =
                  All-replace_ids (Between idx.lo idx.hi) (ordered_bits v) (swap_remove ids pos)
                    idx.sorted b.inside;
            })
    ]
  ]
