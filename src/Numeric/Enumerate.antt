-- ===== src/Numeric/Enumerate.antt =====
-- The enumeration of a range: its bounded form, and what inserts and removals do to it.
use gvector.Prelude.{
  ℕ, ◌+◌, ◌≤◌, ◌<◌, ◌≡◌, refl, sym, ap, ◌∙◌, inl, inr, true, false, ◌||◌, Option, none, some, List,
  [], ◌∷◌, ◌++◌, append-nil, append_assoc, arith, ltb, leb, eqb, if◌then◌else◌, lt→ltb, eqb_refl,
  Bool-cases, Option-cases, length, length-append, nat_key, string_key,
}
use mathlib.Core.Option
use gvector.Types.{VectorId, F64}
use gvector.Meta.Number.{ordered_bits}
use gvector.Numeric.{
  F64Arith, Sorted, NumericFieldIndex, push_id, ids_at, position, swap_remove, range, count_up_to,
  flat_ids, rebuild_hist, f64_lt, remove_at, remove, enumerate_up_to, enumerate_all,
  insert as insert_value,
}
use gvector.Numeric.Weights.{
  sum_ids, weigh, weigh-push_id, weigh-replace_ids, sum_ids-swap_remove, position_at,
}
use gvector.Numeric.Ranges.{within, sum_ids-filterb}

leb-yes : (a b : ℕ) → a ≤ b → leb a b ≡ true
leb-yes a b l = ground arith

leb-no : (a b : ℕ) → b < a → leb a b ≡ false
leb-no a b l = ground arith

-- The bounded loop gives all that is left when it fits.
count_up_to-flat_ids :
    (limit : ℕ) (out : List VectorId) (s : Sorted)
    → length out ≤ limit
    → count_up_to limit out s
      ≡ (if leb (length (out ++ flat_ids s)) limit then some (out ++ flat_ids s) else none)
unfolding count_up_to flat_ids
count_up_to-flat_ids limit out [] h = rw (append-nil out, leb-yes (length out) limit h) refl
count_up_to-flat_ids limit out ((k, ids) ∷ s) h =
    elim (Bool-cases (ltb limit (length (out ++ ids)))) [
      | inl over ↦
          let longer = length-append (out ++ ids) (flat_ids s) in
          rw (over, sym (append_assoc out ids (flat_ids s)))
            (rw (leb-no (length ((out ++ ids) ++ flat_ids s)) limit (ground arith)) refl)
      | inr fits ↦
          rw (fits, sym (append_assoc out ids (flat_ids s)))
            (count_up_to-flat_ids limit (out ++ ids) s (ground arith))
    ]

-- What the bounded enumeration answers.
abbrev pub at_most : ℕ → List VectorId → Option (List VectorId)
at_most limit all = if leb (length all) limit then some all else none

-- The bounded enumeration gives all ids of a range when they are no more than the limit, and none
-- when they are more.
pub enumerate_up_to_complete :
    (idx : NumericFieldIndex) (from to : F64) (limit : ℕ)
    → enumerate_up_to idx from to limit ≡ Option.map (at_most limit) (enumerate_all idx from to)
unfolding enumerate_up_to enumerate_all
enumerate_up_to_complete idx from to limit =
    go (range (ordered_bits from) (ordered_bits to) idx.sorted)
  where
    go :
        (r : Option Sorted)
        → Option.map (count_up_to limit []) r ≡ Option.map (at_most limit) (Option.map flat_ids r)
    go none = refl
    go (some s) = ap some (count_up_to-flat_ids limit [] s (omega arith))

-- How often an id is in a list.
abbrev pub one_of : VectorId → VectorId → ℕ
one_of x y = if eqb y x then 1 else 0

unfoldable pub occurs : VectorId → Option (List VectorId) → ℕ
unfolding sum_ids
occurs x none = 0
occurs x (some ids) = sum_ids (one_of x) ids

-- One for the id, at a key of the range.
abbrev pub counts : F64 → F64 → VectorId → ℕ → VectorId → ℕ
counts from to x key y = if within from to key then one_of x y else 0

-- The enumeration of a range by what the map holds.
pub occurs-enumerate_all :
    (idx : NumericFieldIndex) (from to : F64) (x : VectorId)
    → ordered_bits from ≤ ordered_bits to
    → occurs x (enumerate_all idx from to) ≡ weigh (counts from to x) idx.sorted
unfolding enumerate_all range occurs
occurs-enumerate_all idx from to x h =
    rw (ltb-no (ordered_bits to) (ordered_bits from) h)
      (sum_ids-filterb (one_of x) from to idx.sorted)
  where
    ltb-no : (a b : ℕ) → b ≤ a → ltb a b ≡ false
    ltb-no a b l = ground arith

position-occurs :
    (id : VectorId) (ids : List VectorId) → position id ids ≡ none → sum_ids (one_of id) ids ≡ 0
unfolding position sum_ids
position-occurs id [] h = refl
position-occurs id (x ∷ xs) h = elim (Bool-cases (eqb x id)) [
  | inl same ↦ absurd (cc (rw same at h))
  | inr other ↦ elim (Option-cases (position id xs)) [
    | inl none_left ↦ let later = position-occurs id xs none_left in rw other (omega (arith, later))
    | inr (n, q) ↦ absurd (cc (rw (other, q) at h))
  ]
]

position-some :
    (id : VectorId) (ids : List VectorId) (pos : ℕ)
    → position id ids ≡ some pos
    → 0 < sum_ids (one_of id) ids
position-some id ids pos e =
    let gone = sum_ids-swap_remove (one_of id) ids pos id (position_at id ids pos e) in
    let one = eqb_refl id in ground (arith, gone, one)

module _ (ops : F64Arith) where
  insert-sorted :
      (idx : NumericFieldIndex) (v : F64) (id : VectorId)
      → (insert_value ops idx v id).sorted ≡ push_id (ordered_bits v) id idx.sorted
  unfolding insert_value rebuild_hist
  insert-sorted idx v id = elim (Bool-cases (f64_lt v idx.lo || f64_lt idx.hi v)) [
    | inl out ↦ rw out refl
    | inr inside ↦ rw inside refl
  ]

  -- After an insert every range whose ends are in order lists the id once more, if the value's key
  -- lies in it, and every other id as often as before.
  pub enumerate_all-insert :
      (idx : NumericFieldIndex) (v : F64) (id : VectorId) (from to : F64) (x : VectorId)
      → ordered_bits from ≤ ordered_bits to
      → occurs x (enumerate_all (insert_value ops idx v id) from to)
        ≡ counts from to x (ordered_bits v) id + occurs x (enumerate_all idx from to)
  enumerate_all-insert idx v id from to x h =
      occurs-enumerate_all (insert_value ops idx v id) from to x h
      ∙ ap (weigh (counts from to x)) (insert-sorted idx v id)
      ∙ weigh-push_id (counts from to x) (ordered_bits v) id idx.sorted
      ∙ ap (λ n. counts from to x (ordered_bits v) id + n)
          (sym (occurs-enumerate_all idx from to x h))

  -- After a removal every range whose ends are in order lists the id once less, if it stood under
  -- the value's key and the key lies in the range, and every other id as often as before.
  pub enumerate_all-remove :
      (idx : NumericFieldIndex) (v : F64) (id : VectorId) (from to : F64) (x : VectorId)
      → ordered_bits from ≤ ordered_bits to
      → occurs x (enumerate_all idx from to)
        ≡ (if ltb 0 (occurs id (ids_at (ordered_bits v) idx.sorted))
            then counts from to x (ordered_bits v) id
            else 0)
          + occurs x (enumerate_all (remove ops idx v id) from to)
  unfolding remove remove_at occurs
  enumerate_all-remove idx v id from to x h =
      let key = ordered_bits v in
      elim (Option-cases (ids_at key idx.sorted)) [
        | inl none_left ↦ rw (none_left, remove) (omega arith)
        | inr (ids, at) ↦ elim (Option-cases (position id ids)) [
          | inl absent ↦ rw (at, absent, remove, position-occurs id ids absent) (omega arith)
          | inr (pos, there) ↦
              let found : ltb 0 (sum_ids (one_of id) ids) ≡ true =
                lt→ltb 0 (sum_ids (one_of id) ids) (position-some id ids pos there) in
              let after = remove_at ops idx v ids pos in
              let gone =
                weigh-replace_ids (counts from to x) key id ids (swap_remove ids pos) idx.sorted at
                  (sum_ids-swap_remove (counts from to x key) ids pos id
                    (position_at id ids pos there)) in
              rw (at, there, remove, found)
                (occurs-enumerate_all idx from to x h
                  ∙ gone
                  ∙ ap (λ n. counts from to x key id + n)
                      (sym (occurs-enumerate_all after from to x h)))
        ]
      ]
