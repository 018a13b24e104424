-- ===== src/Meta.antt =====
-- src/meta.rs.
pub mod Store
pub mod Number
pub mod Filter
use Prim.Native.String.{String}
use gvector.Prelude.{Bool, List}
use gvector.Prelude.Int.{ℤ}
use gvector.Types.{F64}

-- A metadata value; an `f64` is its bit pattern.
pub data MetaValue : Type 0 where
  bool : Bool → MetaValue
  int : ℤ → MetaValue
  float : F64 → MetaValue
  str : String → MetaValue

-- `HashMap<String, MetaValue>`
abbrev pub Metadata : Type 0
Metadata = List (String × MetaValue)
