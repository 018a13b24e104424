-- ===== src/Wal.antt =====
-- src/storage/wal.rs: the write-ahead log. one round of the replay, the replay of a byte
-- string, and the bytes that `append` writes.
pub mod Replay
pub mod Log
pub mod Frames
pub mod Recovery
use gvector.Prelude.{
  ℕ, zero, suc, ◌+◌, ◌*◌, ◌%◌, ◌^◌, refl, not, ◌||◌, Option, none, some, List, [], ◌∷◌, ◌++◌, ltb,
  eqb, if◌then◌else◌, length, take, drop, nat_key, string_key,
}
use gvector.Bytes.{to_le_bytes, from_le_bytes}
use gvector.Storage.Repr.{MetaRepr}
use gvector.Storage.Codec.{Codec}
use gvector.Types.{VectorId, F32}

pub data WalRecord : Type 0 where
  insert_record : VectorId → List F32 → MetaRepr → WalRecord
  delete_record : VectorId → WalRecord

abbrev pub max_record_bytes : ℕ
max_record_bytes = 64 * 1024 * 1024

-- Why a replay stopped before the end of the file.
pub data Reason : Type 0 where
  truncated_header implausible_length truncated_body crc_mismatch undecodable : Reason

pub record ReplayReport : Type 0 where
  pub applied : ℕ
  pub bytes_ok : ℕ
  pub truncated_at : Option ℕ
  pub reason : Option Reason

-- One round of the loop: the record at the front and the bytes behind it, or why it stops.
pub data Read : Type 0 where
  stop : Reason → Read
  found : WalRecord → ℕ → List ℕ → Read

module _ (c : Codec WalRecord) where
  -- The bytes that `append` writes for a payload.
  unfoldable pub frame : List ℕ → List ℕ
  frame payload =
      to_le_bytes 4 (length payload % 2 ^ 32) ++ (to_le_bytes 4 (c.crc32 payload) ++ payload)

  decode : Option WalRecord → ℕ → List ℕ → Read
  decode none len rest = stop undecodable
  decode (some r) len rest = found r (8 + len) rest

  -- `rest` is `bytes[off..]`.
  unfoldable pub read_frame : List ℕ → Read
  unfolding decode
  read_frame rest =
      let len = from_le_bytes (take 4 rest) in
      let crc = from_le_bytes (take 4 (drop 4 rest)) in
      let payload = take len (drop 8 rest) in
      if ltb (length rest) 8
      then stop truncated_header
      else if eqb len 0 || ltb max_record_bytes len
      then stop implausible_length
      else if ltb (length rest) (8 + len)
      then stop truncated_body
      else if not (eqb (c.crc32 payload) crc)
      then stop crc_mismatch
      else decode (c.deserialize payload) len (drop (8 + len) rest)

  -- The loop over what is left from offset `off` on, with `out` found so far; `none` is no outcome
  -- of the code: the fuel ran out.
  pub replay_loop : ℕ → List ℕ → ℕ → List WalRecord → Option (List WalRecord × ReplayReport)
  replay_loop fuel [] off out =
      some
        (out, record { applied = length out; bytes_ok = off; truncated_at = none; reason = none })
  replay_loop zero (b ∷ bs) off out = none
  replay_loop (suc fuel) (b ∷ bs) off out = elim (read_frame (b ∷ bs)) [
    | stop why ↦ some (
      out,
      record { applied = length out; bytes_ok = off; truncated_at = some off; reason = some why },
    )
    | found r size rest ↦ replay_loop fuel rest (off + size) (out ++ (r ∷ []))
  ]

  -- `replay_bytes`
  unfoldable pub replay_bytes : List ℕ → Option (List WalRecord × ReplayReport)
  unfolding replay_loop
  replay_bytes bytes = replay_loop (length bytes) bytes 0 []
