-- ===== src/Storage/Repr.antt =====
-- The tagged disk form of metadata.
use Prim.Native.String.{String}
use gvector.Prelude.{Bool, List}
use gvector.Prelude.Int.{ℤ}
use gvector.Types.{F64}

pub data MetaValueRepr : Type 0 where
  bool : Bool → MetaValueRepr
  int : ℤ → MetaValueRepr
  float : F64 → MetaValueRepr
  str : String → MetaValueRepr

abbrev pub MetaRepr : Type 0
MetaRepr = List (String × MetaValueRepr)
