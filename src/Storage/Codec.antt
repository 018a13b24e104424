-- ===== src/Storage/Codec.antt =====
-- The crates `bincode` and `crc32fast`, which are not part of the repository.
use gvector.Prelude.{ℕ, ◌^◌, ◌<◌, ◌≡◌, Option, some, List, length, nat_key, string_key}

-- The bytes of a value, the value that bytes hold, and the checksum of bytes.
pub record Codec (T : Type 0) : Type 0 where
  pub serialize : T → Option (List ℕ)
  pub deserialize : List ℕ → Option T
  pub crc32 : List ℕ → ℕ

-- What is written reads back, is not empty, and a checksum is a `u32`.
pub record IsFaithful {T : Type 0} (c : Codec T) : Type 0 where
  pub reads_back : (t : T) (b : List ℕ) → c.serialize t ≡ some b → c.deserialize b ≡ some t
  pub not_empty : (t : T) (b : List ℕ) → c.serialize t ≡ some b → 0 < length b
  pub crc32-lt : (b : List ℕ) → c.crc32 b < 2 ^ 32
