-- ===== src/Types.antt =====
-- src/types.rs: vector ids, floats as their bit patterns, and search results with their order.
pub mod Order
use Prim.Native.Nat.{ℕ, ◌^◌, compare, Ordering}
use mathlib.Core.Bool.{Bool, true, false}
use mathlib.Core.List.{List}
use gvector.Prelude.{ltb, if◌then◌else◌}

-- `VectorId(pub u64)`
abbrev pub VectorId : Type 0
VectorId = ℕ

-- An `f32` and an `f64` by the bit pattern that `to_bits` gives.
abbrev pub F32 : Type 0
F32 = ℕ

abbrev pub F64 : Type 0
F64 = ℕ

abbrev pub Vector : Type 0
Vector = List F32

abbrev pub sign32 : ℕ
sign32 = 2 ^ 31

abbrev pub sign64 : ℕ
sign64 = 2 ^ 63

-- `total_cmp` of the standard library: patterns with the sign bit stand below the others, the
-- greater magnitude first. `sign` is the sign bit.
unfoldable pub total_cmp : ℕ → ℕ → ℕ → Ordering
total_cmp sign a b =
    if ltb a sign
    then (if ltb b sign then compare a b else Ordering.gt)
    else if ltb b sign
    then Ordering.lt
    else compare b a

abbrev pub then_with : Ordering → Ordering → Ordering
then_with o p = elim o [ Ordering.eq ↦ p | Ordering.lt ↦ Ordering.lt | Ordering.gt ↦ Ordering.gt ]

abbrev pub is_lt : Ordering → Bool
is_lt o = elim o [ Ordering.lt ↦ true | _ ↦ false ]

pub record SearchResult : Type 0 where
  pub id : VectorId
  pub distance : F32

-- `Ord::cmp` of SearchResult
unfoldable pub cmp : SearchResult → SearchResult → Ordering
unfolding total_cmp
cmp a b = then_with (total_cmp sign32 a.distance b.distance) (compare a.id b.id)

-- A candidate of a graph search, with its order (src/index/hnsw.rs).
pub record Cand : Type 0 where
  pub dist : F32
  pub slot : ℕ

unfoldable pub cmp_cand : Cand → Cand → Ordering
unfolding total_cmp
cmp_cand a b = then_with (total_cmp sign32 a.dist b.dist) (compare a.slot b.slot)
