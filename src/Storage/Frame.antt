-- ===== src/Storage/Frame.antt =====
-- src/storage/mod.rs: framed files, `encode_framed` and `decode_framed`.
pub mod RoundTrip
use gvector.Prelude.{
  ℕ, zero, suc, ◌+◌, ◌-◌, ◌%◌, ◌^◌, refl, Bool, true, false, not, ◌&&◌, Option, none, some, List,
  [], ◌∷◌, ◌++◌, ltb, leb, eqb, if◌then◌else◌, length, take, drop, nat_key, string_key,
}
use gvector.Bytes.{to_le_bytes, from_le_bytes}
use gvector.Storage.{
  StorageResult, done, failed, corrupt, unsupported_version, encode, too_short, magic_mismatch,
  crc_mismatch, length_overflows, length_exceeds,
}
use gvector.Storage.Codec.{Codec}

abbrev pub storage_version : ℕ
storage_version = 2

-- `GVMF`
abbrev pub manifest_magic : List ℕ
manifest_magic = 71 ∷ 86 ∷ 77 ∷ 70 ∷ []

-- `GVMD`
abbrev pub metadata_magic : List ℕ
metadata_magic = 71 ∷ 86 ∷ 77 ∷ 68 ∷ []

eq_bytes : List ℕ → List ℕ → Bool
eq_bytes [] [] = true
eq_bytes [] (b ∷ bs) = false
eq_bytes (a ∷ xs) [] = false
eq_bytes (a ∷ xs) (b ∷ bs) = eqb a b && eq_bytes xs bs

module _ {T : Type 0} (c : Codec T) where
  -- What stands before the checksum.
  abbrev pub framed_body : List ℕ → List ℕ → List ℕ
  framed_body magic payload =
      magic
      ++ (to_le_bytes 4 storage_version ++ (to_le_bytes 8 (length payload % 2 ^ 64) ++ payload))

  unfoldable pub encode_framed : List ℕ → T → StorageResult (List ℕ)
  encode_framed magic value = elim (c.serialize value) [
    | none ↦ failed encode
    | some payload ↦
        let buf = framed_body magic payload in done (buf ++ to_le_bytes 4 (c.crc32 buf))
  ]

  decoded : Option T → StorageResult T
  decoded none = failed encode
  decoded (some t) = done t

  unfoldable pub decode_framed : List ℕ → List ℕ → StorageResult T
  unfolding eq_bytes decoded
  decode_framed magic bytes =
      let version = from_le_bytes (take 4 (drop 4 bytes)) in
      let body = take (length bytes - 4) bytes in
      let stored = from_le_bytes (drop (length bytes - 4) bytes) in
      let len = from_le_bytes (take 8 (drop 8 bytes)) in
      let end = 16 + len in
      if ltb (length bytes) 20
      then failed (corrupt too_short)
      else if not (eq_bytes (take 4 bytes) magic)
      then failed (corrupt magic_mismatch)
      else if not (eqb version storage_version)
      then failed (unsupported_version version)
      else if not (eqb (c.crc32 body) stored)
      then failed (corrupt crc_mismatch)
      else if leb (2 ^ 64) end
      then failed (corrupt length_overflows)
      else if ltb (length body) end
      then failed (corrupt length_exceeds)
      else decoded (c.deserialize (take len (drop 16 bytes)))
