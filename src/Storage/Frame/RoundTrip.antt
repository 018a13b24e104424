-- ===== src/Storage/Frame/RoundTrip.antt =====
-- A framed file reads back, and what a reader that accepts a file has checked.
use gvector.Prelude.{
  ℕ, ◌+◌, ◌-◌, ◌%◌, ◌^◌, ◌≤◌, ◌<◌, ◌≡◌, refl, sym, ap, ◌∙◌, ◌↔◌, inl, inr, true, Option, none, some,
  List, [], ◌∷◌, ◌++◌, append_assoc, arith, eqb_refl, Option-cases, length, take, drop,
  length-append, length-take, take-append, drop-append, nat_key, string_key,
}
use mathlib.Core.Path.{ap₂}
use gvector.Prelude.Slices.{drop-drop}
use gvector.Bytes.{
  to_le_bytes, from_le_bytes, length-to_le_bytes, from-to_le_bytes_4, from-to_le_bytes_8,
}
use gvector.Storage.{done}
use gvector.Storage.Codec.{Codec, IsFaithful}
use gvector.Storage.Frame.{
  storage_version, eq_bytes, framed_body, encode_framed, decoded, decode_framed,
}

eq_bytes_refl : (bs : List ℕ) → eq_bytes bs bs ≡ true
unfolding eq_bytes
eq_bytes_refl [] = refl
eq_bytes_refl (b ∷ bs) = rw (eqb_refl b) (eq_bytes_refl bs)

eq_bytes-eq : (xs ys : List ℕ) → eq_bytes xs ys ≡ true → xs ≡ ys
unfolding eq_bytes
eq_bytes-eq [] [] h = refl
eq_bytes-eq [] (y ∷ ys) h = absurd (cc h)
eq_bytes-eq (x ∷ xs) [] h = absurd (cc h)
eq_bytes-eq (x ∷ xs) (y ∷ ys) h =
    let rest = eq_bytes-eq xs ys (ground (arith, h)) in ap₂ ◌∷◌ (ground (arith, h)) rest

module _ {T : Type 0} (c : Codec T) where
  -- What a reader that accepts a file has checked.
  pub record IsFramed (magic bytes : List ℕ) (t : T) : Type 0 where
    pub long : 20 ≤ length bytes
    pub magic_eq : take 4 bytes ≡ magic
    pub version_eq : from_le_bytes (take 4 (drop 4 bytes)) ≡ storage_version
    pub checksum :
        c.crc32 (take (length bytes - 4) bytes) ≡ from_le_bytes (drop (length bytes - 4) bytes)
    pub small : 16 + from_le_bytes (take 8 (drop 8 bytes)) < 2 ^ 64
    pub fits : 20 + from_le_bytes (take 8 (drop 8 bytes)) ≤ length bytes
    pub decodes :
        c.deserialize (take (from_le_bytes (take 8 (drop 8 bytes))) (drop 16 bytes)) ≡ some t

  IsFramed-decode :
      (magic bytes : List ℕ) (t : T) → IsFramed magic bytes t → decode_framed c magic bytes ≡ done t
  unfolding decode_framed decoded
  IsFramed-decode magic bytes t f =
      let same : eq_bytes (take 4 bytes) magic ≡ true = rw f.magic_eq (eq_bytes_refl magic) in
      let size = length-take (length bytes - 4) bytes in ground (arith, f.decodes, same, size)

  decoded-done : (o : Option T) (t : T) → decoded c o ≡ done t → o ≡ some t
  unfolding decoded
  decoded-done none t e = absurd (cc e)
  decoded-done (some x) t e = cc e

  decode-IsFramed :
      (magic bytes : List ℕ) (t : T) → decode_framed c magic bytes ≡ done t → IsFramed magic bytes t
  unfolding decode_framed
  decode-IsFramed magic bytes t e =
      let size = length-take (length bytes - 4) bytes in
      let last =
        decoded-done (c.deserialize (take (from_le_bytes (take 8 (drop 8 bytes))) (drop 16 bytes)))
          t in
      record {
        long = ground arith;
        magic_eq = eq_bytes-eq (take 4 bytes) magic (ground arith);
        version_eq = ground arith;
        checksum = ground arith;
        small = ground arith;
        fits = ground (arith, size);
        decodes = ground (arith, last);
      }

  -- The parts of a file.
  module _ (m v l p k : List ℕ) (lm : length m ≡ 4) (lv : length v ≡ 4) (ll : length l ≡ 8)
      (lk : length k ≡ 4) where
    abbrev body : List ℕ
    body = m ++ (v ++ (l ++ p))

    abbrev file : List ℕ
    file = body ++ k

    file-length : length file ≡ 20 + length p
    file-length = omega (
      arith,
      length-append body k,
      length-append m (v ++ (l ++ p)),
      length-append v (l ++ p),
      length-append l p,
    )

    flat : file ≡ m ++ (v ++ (l ++ (p ++ k)))
    flat =
        append_assoc m (v ++ (l ++ p)) k
        ∙ ap (◌++◌ m) (append_assoc v (l ++ p) k ∙ ap (◌++◌ v) (append_assoc l p k))

    part_magic : take 4 file ≡ m
    part_magic = ap (take 4) flat ∙ take-append 4 m (v ++ (l ++ (p ++ k))) lm

    after_magic : drop 4 file ≡ v ++ (l ++ (p ++ k))
    after_magic = ap (drop 4) flat ∙ drop-append 4 m (v ++ (l ++ (p ++ k))) lm

    part_version : take 4 (drop 4 file) ≡ v
    part_version = ap (take 4) after_magic ∙ take-append 4 v (l ++ (p ++ k)) lv

    after_version : drop 8 file ≡ l ++ (p ++ k)
    after_version =
        sym (drop-drop 4 4 8 file refl)
        ∙ ap (drop 4) after_magic
        ∙ drop-append 4 v (l ++ (p ++ k)) lv

    part_length : take 8 (drop 8 file) ≡ l
    part_length = ap (take 8) after_version ∙ take-append 8 l (p ++ k) ll

    part_payload : take (length p) (drop 16 file) ≡ p
    part_payload =
        ap (take (length p)) (
          sym (drop-drop 8 8 16 file refl)
          ∙ ap (drop 8) after_version
          ∙ drop-append 8 l (p ++ k) ll)
        ∙ take-append (length p) p k refl

    body_end : length body ≡ length file - 4
    body_end = omega (arith, length-append body k)

    part_body : take (length file - 4) file ≡ body
    part_body = take-append (length file - 4) body k body_end

    part_checksum : drop (length file - 4) file ≡ k
    part_checksum = drop-append (length file - 4) body k body_end

    -- A file whose parts agree is decoded.
    decode-parts :
        (t : T)
        → from_le_bytes v ≡ storage_version
        → from_le_bytes l ≡ length p
        → from_le_bytes k ≡ c.crc32 body
        → 16 + length p < 2 ^ 64
        → c.deserialize p ≡ some t
        → decode_framed c m file ≡ done t
    decode-parts t ev el ek small d =
        let len_eq : from_le_bytes (take 8 (drop 8 file)) ≡ length p =
          ap from_le_bytes part_length ∙ el in
        IsFramed-decode m file t (record {
          long = omega (arith, file-length);
          magic_eq = part_magic;
          version_eq = ap from_le_bytes part_version ∙ ev;
          checksum = ap c.crc32 part_body ∙ sym ek ∙ sym (ap from_le_bytes part_checksum);
          small = omega (arith, len_eq);
          fits = omega (arith, len_eq, file-length);
          decodes =
              ap (λ n. c.deserialize (take n (drop 16 file))) len_eq
              ∙ ap c.deserialize part_payload
              ∙ d;
        })

  -- A file that `encode_framed` makes, under a magic of four bytes and with a payload whose length
  -- fits a `usize`, is decoded to the value it was made of.
  pub decode-encode_framed :
      IsFaithful c
      → (magic bytes : List ℕ) (value : T) → length magic ≡ 4
      → encode_framed c magic value ≡ done bytes
      → length bytes < 2 ^ 64
      → decode_framed c magic bytes ≡ done value
  unfolding encode_framed
  decode-encode_framed law magic bytes value lm e h = elim (Option-cases (c.serialize value)) [
    | inl n ↦ absurd (cc (rw (n, encode_framed) at e))
    | inr (payload, s) ↦
        let v = to_le_bytes 4 storage_version in
        let l = to_le_bytes 8 (length payload % 2 ^ 64) in
        let k = to_le_bytes 4 (c.crc32 (framed_body c magic payload)) in
        let same : framed_body c magic payload ++ k ≡ bytes = cc (rw (s, encode_framed) at e) in
        let lv = length-to_le_bytes 4 storage_version in
        let ll = length-to_le_bytes 8 (length payload % 2 ^ 64) in
        let lk = length-to_le_bytes 4 (c.crc32 (framed_body c magic payload)) in
        let size = file-length magic v l payload k lm lv ll lk in
        let room : 16 + length payload < 2 ^ 64 = omega (arith, size, ap length same) in
        ap (decode_framed c magic) (sym same)
        ∙ decode-parts magic v l payload k lm lv ll lk value
            (from-to_le_bytes_4 storage_version (omega arith))
            (from-to_le_bytes_8 (length payload % 2 ^ 64) (omega arith) ∙ omega arith)
            (from-to_le_bytes_4 (c.crc32 (framed_body c magic payload))
              (law.crc32-lt (framed_body c magic payload)))
            room (law.reads_back value payload s)
  ]

  -- A file is decoded to a value exactly when it is long enough, has the magic and the version,
  -- its last four bytes are the checksum of all before them, and its payload, of the length given,
  -- ends before them and is read as that value.
  pub decode_framed-IsFramed :
      (magic bytes : List ℕ) (t : T)
      → (decode_framed c magic bytes ≡ done t) ↔ IsFramed magic bytes t
  decode_framed-IsFramed magic bytes t =
      (decode-IsFramed magic bytes t, IsFramed-decode magic bytes t)
