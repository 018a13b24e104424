-- ===== src/Storage.antt =====
-- src/storage/mod.rs: the errors of the storage layer, and the results of its operations.
pub mod Frame
pub mod Repr
pub mod Codec
pub mod Manifest
use gvector.Prelude.{ℕ}
use gvector.Index.{IndexError}

-- What a `Corrupt` error says of the file.
pub data Corruption : Type 0 where
  too_short magic_mismatch crc_mismatch length_overflows length_exceeds : Corruption

-- `invalid_input` is the `Io` error that `Wal::append` makes for a record that is too long.
pub data StorageError : Type 0 where
  io : StorageError
  invalid_input : StorageError
  corrupt : Corruption → StorageError
  unsupported_version : ℕ → StorageError
  encode : StorageError
  index : IndexError → StorageError

pub data StorageResult (A : Type 0) : Type 0 where
  done : A → StorageResult A
  failed : StorageError → StorageResult A
