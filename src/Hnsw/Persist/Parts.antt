-- ===== src/Hnsw/Persist/Parts.antt =====
-- The parts of the file of a graph index, and what `parse` makes of them.
use gvector.Prelude.{
  ℕ, zero, suc, ◌+◌, ◌-◌, ◌*◌, ◌%◌, ◌^◌, ◌≤◌, ◌<◌, ◌≡◌, refl, sym, ap, ◌∙◌, true, some, List, [],
  ◌∷◌, ◌++◌, append_assoc, arith, length, take, drop, replicate, All, length-append, take-append,
  drop-append, nat_key, string_key,
}
use gvector.Prelude.Slices.{drop-drop}
use gvector.Types.{F32}
use gvector.Bytes.{to_le_bytes, from_le_bytes, length-to_le_bytes, from-to_le_bytes_4}
use gvector.Storage.Codec.{Codec}
use gvector.Hnsw.{Randomness}
use gvector.Hnsw.Persist.{
  Meta, done, magic, format_version, eq_bytes, cast_slice, read_floats, padding, data_off, decoded,
  parse,
}

length-replicate : (n : ℕ) → length (replicate {A = ℕ} n 0) ≡ n
length-replicate zero = refl
length-replicate (suc n) = ap suc (length-replicate n)

pub length-cast_slice : (xs : List F32) → length (cast_slice xs) ≡ 4 * length xs
unfolding cast_slice
length-cast_slice [] = refl
length-cast_slice (x ∷ xs) = omega (
  arith,
  length-append (to_le_bytes 4 x) (cast_slice xs),
  length-to_le_bytes 4 x,
  length-cast_slice xs,
)

-- The floats that were written are read.
pub read_floats-cast_slice :
    (xs : List F32) → All (λ x. x < 2 ^ 32) xs → read_floats (length xs) (cast_slice xs) ≡ xs
unfolding cast_slice read_floats
read_floats-cast_slice [] h = refl
read_floats-cast_slice (x ∷ xs) (h, hs) =
    let four = length-to_le_bytes 4 x in
    rw
      (
        take-append 4 (to_le_bytes 4 x) (cast_slice xs) four,
        drop-append 4 (to_le_bytes 4 x) (cast_slice xs) four,
        from-to_le_bytes_4 x h,
      )
      (ap (◌∷◌ x) (read_floats-cast_slice xs hs))

pub padded : (n : ℕ) → data_off n ≡ n + length (padding n)
padded n = omega (arith, length-replicate ((4 - n % 4) % 4))

magic_self : eq_bytes magic magic ≡ true
unfolding eq_bytes
magic_self = refl

-- A file that passes the checks of `parse`.
parse_ok :
    {R : Type 0} (c : Codec Meta) (random : Randomness R) (bytes : List ℕ) (meta : Meta)
    (len body off size : ℕ)
    → 20 ≤ length bytes
    → eq_bytes (take 4 bytes) magic ≡ true
    → from_le_bytes (take 4 (drop 4 bytes)) ≡ format_version
    → c.crc32 (take (length bytes - 4) bytes) ≡ from_le_bytes (drop (length bytes - 4) bytes)
    → from_le_bytes (take 8 (drop 8 bytes)) ≡ len
    → length (take (length bytes - 4) bytes) ≡ body
    → body < 2 ^ 64
    → c.deserialize (take len (drop 16 bytes)) ≡ some meta
    → data_off (16 + len) ≡ off
    → meta.n * meta.dim * 4 ≡ size
    → off + size ≡ body
    → 16 + len ≤ off
    → parse c random bytes ≡ done (meta, off, size)
unfolding parse decoded
parse_ok c random bytes meta len body off size long same version check el eb small d eo es fit
      room =
    rw (el, eb, d, eo, es) (ground (arith, check))

-- The parts of a file.
module _ (m v l p q fs k : List ℕ) (lm : length m ≡ 4) (lv : length v ≡ 4) (ll : length l ≡ 8)
    (lk : length k ≡ 4) where
  abbrev body : List ℕ
  body = (m ++ (v ++ (l ++ p))) ++ (q ++ fs)

  abbrev file : List ℕ
  file = body ++ k

  pub head-length : length (m ++ (v ++ (l ++ p))) ≡ 16 + length p
  head-length =
      omega (arith, length-append m (v ++ (l ++ p)), length-append v (l ++ p), length-append l p)

  pub body-length : length body ≡ 16 + length p + length q + length fs
  body-length =
      omega (arith, head-length, length-append (m ++ (v ++ (l ++ p))) (q ++ fs), length-append q fs)

  pub file-length : length file ≡ length body + 4
  file-length = omega (arith, length-append body k)

  flat : file ≡ m ++ (v ++ (l ++ (p ++ (q ++ (fs ++ k)))))
  flat = simp append_assoc

  part_magic : take 4 file ≡ m
  part_magic = ap (take 4) flat ∙ take-append 4 m _ lm

  after_magic : drop 4 file ≡ v ++ (l ++ (p ++ (q ++ (fs ++ k))))
  after_magic = ap (drop 4) flat ∙ drop-append 4 m _ lm

  part_version : take 4 (drop 4 file) ≡ v
  part_version = ap (take 4) after_magic ∙ take-append 4 v _ lv

  after_version : drop 8 file ≡ l ++ (p ++ (q ++ (fs ++ k)))
  after_version = sym (drop-drop 4 4 8 file refl) ∙ ap (drop 4) after_magic ∙ drop-append 4 v _ lv

  part_length : take 8 (drop 8 file) ≡ l
  part_length = ap (take 8) after_version ∙ take-append 8 l _ ll

  after_length : drop 16 file ≡ p ++ (q ++ (fs ++ k))
  after_length = sym (drop-drop 8 8 16 file refl) ∙ ap (drop 8) after_version ∙ drop-append 8 l _ ll

  part_payload : take (length p) (drop 16 file) ≡ p
  part_payload = ap (take (length p)) after_length ∙ take-append (length p) p _ refl

  after_payload : drop (16 + length p) file ≡ q ++ (fs ++ k)
  after_payload =
      sym (drop-drop 16 (length p) (16 + length p) file refl)
      ∙ ap (drop (length p)) after_length
      ∙ drop-append (length p) p _ refl

  pub part_floats : take (length fs) (drop (16 + length p + length q) file) ≡ fs
  part_floats =
      ap (take (length fs)) (
        sym (drop-drop (16 + length p) (length q) (16 + length p + length q) file refl)
        ∙ ap (drop (length q)) after_payload
        ∙ drop-append (length q) q _ refl)
      ∙ take-append (length fs) fs k refl

  part_body : take (length file - 4) file ≡ body
  part_body = take-append (length file - 4) body k (omega (arith, file-length))

  part_checksum : drop (length file - 4) file ≡ k
  part_checksum = drop-append (length file - 4) body k (omega (arith, file-length))

  -- A file whose parts agree is accepted.
  pub parse-parts :
      {R : Type 0} (c : Codec Meta) (random : Randomness R) (meta : Meta)
      → m ≡ magic
      → from_le_bytes v ≡ format_version
      → from_le_bytes l ≡ length p
      → from_le_bytes k ≡ c.crc32 body
      → c.deserialize p ≡ some meta
      → data_off (16 + length p) ≡ 16 + length p + length q
      → length fs ≡ meta.n * meta.dim * 4
      → length file < 2 ^ 64
      → parse c random file ≡ done (meta, 16 + length p + length q, length fs)
  unfolding parse decoded
  parse-parts c random meta em ev el ek d off size small =
      let len_eq : from_le_bytes (take 8 (drop 8 file)) ≡ length p =
        ap from_le_bytes part_length ∙ el in
      let magic_ok : eq_bytes (take 4 file) magic ≡ true =
        ap (λ b. eq_bytes b magic) (part_magic ∙ em) ∙ magic_self in
      let version_eq : from_le_bytes (take 4 (drop 4 file)) ≡ format_version =
        ap from_le_bytes part_version ∙ ev in
      let checksum : c.crc32 (take (length file - 4) file)
          ≡ from_le_bytes (drop (length file - 4) file) =
        ap c.crc32 part_body ∙ sym ek ∙ sym (ap from_le_bytes part_checksum) in
      let decodes : c.deserialize (take (from_le_bytes (take 8 (drop 8 file))) (drop 16 file))
          ≡ some meta =
        ap (λ n. c.deserialize (take n (drop 16 file))) len_eq
        ∙ ap c.deserialize part_payload
        ∙ d in
      parse_ok c random file meta (length p) (length body) (16 + length p + length q) (length fs)
        (omega (arith, file-length, body-length)) magic_ok version_eq checksum len_eq
        (ap length part_body) (omega (arith, file-length))
        (ap (λ n. c.deserialize (take n (drop 16 file))) (sym len_eq) ∙ decodes) off (sym size)
        (omega (arith, body-length)) (omega arith)
