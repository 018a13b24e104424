-- ===== src/Hnsw/Persist/RoundTrip.antt =====
-- What `to_bytes` writes, `load_from_bytes` reads.
use gvector.Prelude.{
  ℕ, ◌+◌, ◌*◌, ◌/◌, ◌^◌, ◌≤◌, ◌<◌, ◌≡◌, refl, sym, ap, ◌∙◌, inl, inr, some, List, ◌++◌, arith,
  Option-cases, length, take, drop, All, nat_key, string_key, lookup,
}
use gvector.Types.{VectorId, F32}
use gvector.Bytes.{to_le_bytes, length-to_le_bytes, from-to_le_bytes_4, from-to_le_bytes_8}
use gvector.Storage.Codec.{Codec, IsFaithful}
use gvector.Hnsw.{HnswIndex, Randomness}
use gvector.Hnsw.Persist.{
  Meta, done, magic, format_version, cast_slice, padding, meta_of, head_bytes, body_bytes, to_bytes,
  parse, loaded, load_from_bytes,
}
use gvector.Hnsw.Persist.Accepts.{rebuild-meta_of}
use gvector.Hnsw.Update.Valid.{IsValid}
use gvector.Hnsw.Persist.Parts.{
  length-cast_slice, read_floats-cast_slice, padded, head-length, body-length, file-length,
  part_floats, parse-parts,
}

module _ {R : Type 0} (c : Codec Meta) (random : Randomness R) where
  parse-to_bytes :
      IsFaithful c
      → (meta : Meta) (storage : List F32) (p bytes : List ℕ) → c.serialize meta ≡ some p
      → length storage ≡ meta.n * meta.dim
      → (let buf = body_bytes c random p storage in buf ++ to_le_bytes 4 (c.crc32 buf)) ≡ bytes
      → length bytes < 2 ^ 64
      → (off : ℕ) × (parse c random bytes ≡ done (meta, off, length (cast_slice storage)))
        × (take (length (cast_slice storage)) (drop off bytes) ≡ cast_slice storage)
  parse-to_bytes law meta storage p bytes s size same small =
      let l = to_le_bytes 8 (length p) in
      let v = to_le_bytes 4 format_version in
      let q = padding (length (head_bytes c random p)) in
      let fs = cast_slice storage in
      let k = to_le_bytes 4 (c.crc32 (body_bytes c random p storage)) in
      let lv = length-to_le_bytes 4 format_version in
      let ll = length-to_le_bytes 8 (length p) in
      let lk = length-to_le_bytes 4 (c.crc32 (body_bytes c random p storage)) in
      let long = file-length magic v l p q fs k refl lv ll lk in
      let body_long = body-length magic v l p q fs k refl lv ll lk in
      let head_long = head-length magic v l p q fs k refl lv ll lk in
      let floats = length-cast_slice storage in
      let room : length p < 2 ^ 64 = omega (arith, long, body_long, ap length same) in
      (
        16 + length p + length q,
        ap (parse c random) (sym same)
            ∙ parse-parts magic v l p q fs k refl lv ll lk c random meta refl
                (from-to_le_bytes_4 format_version (omega arith))
                (from-to_le_bytes_8 (length p) room)
                (from-to_le_bytes_4 (c.crc32 (body_bytes c random p storage))
                  (law.crc32-lt (body_bytes c random p storage)))
                (law.reads_back meta p s)
                (padded (16 + length p)
                  ∙ ap (λ n. 16 + length p + length (padding n)) (sym head_long))
                (omega (arith, floats, ap (λ n. 4 * n) size)) (omega (arith, ap length same)),
        ap (λ b. take (length fs) (drop (16 + length p + length q) b)) (sym same)
            ∙ part_floats magic v l p q fs k refl lv ll lk,
      )

  -- When the codec reads back what it writes, the file of a valid index with a plausible dimension,
  -- words of 32 bits and a length that fits a `usize` loads, as a valid index with the same
  -- parameters, vectors, ids, edges, entry point and tombstones, whose id map answers as the old one.
  pub load-to_bytes :
      IsFaithful c
      → (idx : HnswIndex R) (bytes : List ℕ) → IsValid idx
      → 0 < idx.dim
      → idx.dim ≤ 2 ^ 20
      → All (λ x. x < 2 ^ 32) idx.storage
      → to_bytes c random idx ≡ done bytes
      → length bytes < 2 ^ 64
      → (m : List (VectorId × ℕ)) × (load_from_bytes c random bytes
          ≡ done (loaded c random (meta_of c random idx) idx.storage m))
        × ((id : VectorId) → lookup id m ≡ lookup id idx.slot_of)
        × IsValid (loaded c random (meta_of c random idx) idx.storage m)
  unfolding to_bytes load_from_bytes
  load-to_bytes law idx bytes valid pos low words e small =
      elim (Option-cases (c.serialize (meta_of c random idx))) [
        | inl n ↦ absurd (cc (rw (n, to_bytes) at e))
        | inr (p, s) ↦
            let (off, parsed, floats) =
              parse-to_bytes law (meta_of c random idx) idx.storage p bytes s valid.tracked.block
                (cc (rw (s, to_bytes) at e)) small in
            let (m, made, same, ok) = rebuild-meta_of c random idx valid pos low in
            let quarter : length (cast_slice idx.storage) / 4 ≡ length idx.storage =
              omega (arith, length-cast_slice idx.storage) in
            (
              m,
              rw (parsed, floats, quarter, read_floats-cast_slice idx.storage words) made,
              same,
              ok,
            )
      ]
