-- ===== src/Numeric.antt =====
-- src/index/numeric.rs: `NumericFieldIndex`, a sorted map of the values and a histogram of them.
pub mod Weights
pub mod Ranges
pub mod Counts
pub mod Keys
pub mod Histogram
pub mod Enumerate
pub mod Sums
pub mod Floats
pub mod Between
pub mod Sides
pub mod Estimate
pub mod Inside
pub mod Runs
use gvector.Prelude.{
  ℕ, zero, suc, ◌+◌, ◌-◌, ◌*◌, ◌^◌, min, refl, Bool, not, ◌&&◌, ◌||◌, Option, none, some, List, [],
  ◌∷◌, ◌++◌, map, ltb, leb, eqb, if◌then◌else◌, length, get_or, set, take, drop, replicate, filterb,
  nat_key, string_key,
}
use mathlib.Core.Option
use gvector.Types.{VectorId, F64, sign64}
use gvector.Meta.Number.{ordered_bits, bits_to_f64, is_nan, place, f64_le}

-- The arithmetic of `f64`, and its cast to `usize`.
pub record F64Arith : Type 0 where
  pub add : F64 → F64 → F64
  pub sub : F64 → F64 → F64
  pub mul : F64 → F64 → F64
  pub div : F64 → F64 → F64
  pub abs : F64 → F64
  pub max_of : F64 → F64 → F64
  pub min_of : F64 → F64 → F64
  pub as_usize : F64 → ℕ

abbrev pub buckets : ℕ
buckets = 64

abbrev pub infinity : F64
infinity = 2047 * 2 ^ 52

abbrev pub neg_infinity : F64
neg_infinity = sign64 + 2047 * 2 ^ 52

-- `BUCKETS as f64`, `1.0`, `0.125` and `0.01`
abbrev buckets_f64 : F64
buckets_f64 = 1029 * 2 ^ 52

abbrev one : F64
one = 1023 * 2 ^ 52

abbrev eighth : F64
eighth = 1020 * 2 ^ 52

abbrev hundredth : F64
hundredth = 4576918229304087675

-- `a < b` of two `f64`
unfoldable pub f64_lt : F64 → F64 → Bool
unfolding is_nan place
f64_lt a b = not (is_nan a) && (not (is_nan b) && ltb (place a) (place b))

-- The `BTreeMap`, by ascending keys.
abbrev pub Sorted : Type 0
Sorted = List (ℕ × List VectorId)

-- `entry(key).or_default().push(id)`
unfoldable pub push_id : ℕ → VectorId → Sorted → Sorted
push_id key id [] = (key, id ∷ []) ∷ []
push_id key id ((k, ids) ∷ rest) =
    let later = push_id key id rest in
    if eqb k key
    then (k, ids ++ (id ∷ [])) ∷ rest
    else if ltb key k
    then (key, id ∷ []) ∷ (k, ids) ∷ rest
    else (k, ids) ∷ later

-- `get_mut(key)`
unfoldable pub ids_at : ℕ → Sorted → Option (List VectorId)
ids_at key [] = none
ids_at key ((k, ids) ∷ rest) = let later = ids_at key rest in if eqb k key then some ids else later

-- What a key has after a removal: nothing is left at a key without ids.
unfoldable pub put_ids : List VectorId → ℕ → Sorted → Sorted
put_ids [] k rest = rest
put_ids (id ∷ ids) k rest = (k, id ∷ ids) ∷ rest

unfoldable pub replace_ids : ℕ → List VectorId → Sorted → Sorted
unfolding put_ids
replace_ids key new [] = []
replace_ids key new ((k, ids) ∷ rest) =
    let later = replace_ids key new rest in
    if eqb k key then put_ids new k rest else (k, ids) ∷ later

-- `iter().position(|&x| x == id)`
unfoldable pub position : VectorId → List VectorId → Option ℕ
position id [] = none
position id (x ∷ xs) =
    let later = position id xs in
    if eqb x id then some 0 else elim later [ none ↦ none | some n ↦ some (suc n) ]

unfoldable pub swap_remove : List VectorId → ℕ → List VectorId
swap_remove ids pos = take (length ids - 1) (set ids pos (get_or ids (length ids - 1) 0))

pub record NumericFieldIndex : Type 0 where
  pub sorted : Sorted
  pub total : ℕ
  pub lo : F64
  pub hi : F64
  pub hist : List ℕ

unfoldable pub new : NumericFieldIndex
new = record {
  sorted = [];
  total = 0;
  lo = infinity;
  hi = neg_infinity;
  hist = replicate buckets 0;
}

-- `hist.iter_mut().for_each(|c| *c = 0)`
abbrev pub cleared : List ℕ → List ℕ
cleared hist = map (λ c. 0) hist

-- `hist[b] += n`
abbrev pub add_to : List ℕ → ℕ → ℕ → List ℕ
add_to hist b n = set hist b (get_or hist b 0 + n)

-- The keys that `range(from..=to)` gives; it panics when `from` is above `to`.
unfoldable pub range : ℕ → ℕ → Sorted → Option Sorted
range from to s = if ltb to from then none else some (filterb (λ e. leb from e.0 && leb e.0 to) s)

unfoldable pub count_up_to : ℕ → List VectorId → Sorted → Option (List VectorId)
count_up_to limit out [] = some out
count_up_to limit out ((k, ids) ∷ rest) =
    let later = count_up_to limit (out ++ ids) rest in
    if ltb limit (length (out ++ ids)) then none else later

unfoldable pub flat_ids : Sorted → List VectorId
flat_ids [] = []
flat_ids ((k, ids) ∷ rest) = ids ++ flat_ids rest

unfoldable pub sum : List ℕ → ℕ
sum [] = 0
sum (x ∷ xs) = x + sum xs

module _ (ops : F64Arith) where
  -- `((v - self.lo) / (self.hi - self.lo) * BUCKETS as f64) as usize`
  abbrev pub scaled : F64 → F64 → F64 → ℕ
  scaled lo hi v = ops.as_usize (ops.mul (ops.div (ops.sub v lo) (ops.sub hi lo)) buckets_f64)

  unfoldable pub bucket : F64 → F64 → F64 → ℕ
  unfolding f64_le
  bucket lo hi v = if f64_le hi lo then 0 else min (scaled lo hi v) (buckets - 1)

  unfoldable pub count_all : F64 → F64 → Sorted → List ℕ → List ℕ
  unfolding bucket bits_to_f64
  count_all lo hi [] hist = hist
  count_all lo hi ((bits, ids) ∷ rest) hist =
      count_all lo hi rest (add_to hist (bucket lo hi (bits_to_f64 bits)) (length ids))

  unfoldable pub rebuild_hist : NumericFieldIndex → NumericFieldIndex
  unfolding count_all
  rebuild_hist idx = record idx { hist = count_all idx.lo idx.hi idx.sorted (cleared idx.hist) }

  -- `span * 0.125`, where the span is at least a hundredth of the value
  abbrev pub margin : F64 → F64 → F64
  margin width v =
      ops.mul (ops.max_of width (ops.mul (ops.max_of (ops.abs v) one) hundredth)) eighth

  unfoldable pub insert : NumericFieldIndex → F64 → VectorId → NumericFieldIndex
  unfolding push_id ordered_bits f64_lt rebuild_hist bucket
  insert idx v id =
      let held = record idx {
        sorted = push_id (ordered_bits v) id idx.sorted;
        total = idx.total + 1;
      } in
      let step = margin (ops.sub idx.hi idx.lo) v in
      if f64_lt v idx.lo || f64_lt idx.hi v
      then rebuild_hist (record held {
        lo = ops.min_of idx.lo (ops.sub v step);
        hi = ops.max_of idx.hi (ops.add v step);
      })
      else record held { hist = add_to idx.hist (bucket idx.lo idx.hi v) 1 }

  -- The removal of the id at a place among the ids of its key.
  unfoldable pub remove_at : NumericFieldIndex → F64 → List VectorId → ℕ → NumericFieldIndex
  unfolding replace_ids swap_remove ordered_bits bucket
  remove_at idx v ids pos =
      let b = bucket idx.lo idx.hi v in
      record idx {
        sorted = replace_ids (ordered_bits v) (swap_remove ids pos) idx.sorted;
        total = idx.total - 1;
        hist = set idx.hist b (get_or idx.hist b 0 - 1);
      }

  unfoldable pub remove : NumericFieldIndex → F64 → VectorId → NumericFieldIndex
  unfolding ids_at position remove_at ordered_bits
  remove idx v id = elim (ids_at (ordered_bits v) idx.sorted) [
    | none ↦ idx
    | some ids ↦ elim (position id ids) [ none ↦ idx | some pos ↦ remove_at idx v ids pos ]
  ]

  -- The sum of a slice; a start behind the end panics.
  unfoldable pub sum_slice : ℕ → ℕ → List ℕ → Option ℕ
  unfolding sum
  sum_slice from to hist =
      if ltb to from then none else some (sum (take (to - from) (drop from hist)))

  -- The least and the most that may lie in a range, or `none` for a panic.
  unfoldable pub estimate : NumericFieldIndex → F64 → F64 → Option (ℕ × ℕ)
  unfolding f64_lt bucket sum_slice
  estimate idx from to =
      let b_lo = bucket idx.lo idx.hi (ops.max_of from idx.lo) in
      let b_hi = bucket idx.lo idx.hi (ops.min_of to idx.hi) in
      if eqb idx.total 0 || (f64_lt to idx.lo || f64_lt idx.hi from)
      then some (0, 0)
      else if eqb b_lo b_hi
      then some (0, get_or idx.hist b_lo 0)
      else elim (sum_slice (b_lo + 1) b_hi idx.hist) [
        | none ↦ none
        | some lower ↦ some (lower, lower + get_or idx.hist b_lo 0 + get_or idx.hist b_hi 0)
      ]

unfoldable pub enumerate_up_to : NumericFieldIndex → F64 → F64 → ℕ → Option (Option (List VectorId))
unfolding range count_up_to ordered_bits
enumerate_up_to idx from to limit =
    Option.map (count_up_to limit []) (range (ordered_bits from) (ordered_bits to) idx.sorted)

unfoldable pub enumerate_all : NumericFieldIndex → F64 → F64 → Option (List VectorId)
unfolding range flat_ids ordered_bits
enumerate_all idx from to =
    Option.map flat_ids (range (ordered_bits from) (ordered_bits to) idx.sorted)
