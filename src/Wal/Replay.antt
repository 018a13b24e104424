-- ===== src/Wal/Replay.antt =====
-- What one round of the replay loop reads, and that it depends on no byte behind the record.
use gvector.Prelude.{
  ℕ, ◌+◌, ◌-◌, ◌%◌, ◌^◌, ◌≤◌, ◌<◌, ◌≡◌, refl, sym, ap, ◌∙◌, subst, Option, none, some, List, ◌++◌,
  append_assoc, arith, length, take, drop, length-append, length-take, length-drop, take-append,
  drop-append, take-append-drop, nat_key, string_key,
}
use mathlib.Core.Path.{ap₂}
use gvector.Prelude.Slices.{drop-append_left, take-append_left, take-take, drop-take, drop-drop}
use gvector.Bytes.{to_le_bytes, from_le_bytes, length-to_le_bytes, from-to_le_bytes_4}
use gvector.Storage.Codec.{Codec, IsFaithful}
use gvector.Wal.{WalRecord, max_record_bytes, found, frame, decode, read_frame}

module _ (c : Codec WalRecord) where
  abbrev len_of : List ℕ → ℕ
  len_of bs = from_le_bytes (take 4 bs)

  -- What a successful round has checked.
  pub record IsFrame (bs : List ℕ) (r : WalRecord) (size : ℕ) (rest : List ℕ) : Type 0 where
    pub size_eq : size ≡ 8 + len_of bs
    pub rest_eq : rest ≡ drop (8 + len_of bs) bs
    pub positive : 0 < len_of bs
    pub plausible : len_of bs ≤ max_record_bytes
    pub fits : 8 + len_of bs ≤ length bs
    pub checksum : c.crc32 (take (len_of bs) (drop 8 bs)) ≡ from_le_bytes (take 4 (drop 4 bs))
    pub decoded : c.deserialize (take (len_of bs) (drop 8 bs)) ≡ some r

  decode-found :
      (o : Option WalRecord) (len : ℕ) (tail : List ℕ) (r : WalRecord) (size : ℕ) (rest : List ℕ)
      → decode c o len tail ≡ found r size rest
      → (o ≡ some r) × (size ≡ 8 + len) × (rest ≡ tail)
  unfolding decode
  decode-found none len tail r size rest e = cc
  decode-found (some x) len tail r size rest e = ground arith

  pub read_frame-IsFrame :
      (bs : List ℕ) (r : WalRecord) (size : ℕ) (rest : List ℕ)
      → read_frame c bs ≡ found r size rest
      → IsFrame bs r size rest
  unfolding read_frame
  read_frame-IsFrame bs r size rest e =
      let d =
        decode-found (c.deserialize (take (len_of bs) (drop 8 bs))) (len_of bs)
          (drop (8 + len_of bs) bs) r size rest in
      record {
        size_eq = ground (arith, d);
        rest_eq = ground (arith, d);
        positive = ground (arith, d);
        plausible = ground (arith, d);
        fits = ground (arith, d);
        checksum = ground (arith, d);
        decoded = ground (arith, d);
      }

  pub IsFrame-read_frame :
      (bs : List ℕ) (r : WalRecord) (size : ℕ) (rest : List ℕ)
      → IsFrame bs r size rest
      → read_frame c bs ≡ found r size rest
  unfolding read_frame decode
  IsFrame-read_frame bs r size rest f = ground (arith, f.decoded)

  -- Rereading a prefix of `n` bytes that holds the slice at hand.
  slice_prefix :
      (a b n : ℕ) (bs ys : List ℕ)
      → a + b ≤ n
      → n ≤ length bs
      → take b (drop a (take n bs ++ ys)) ≡ take b (drop a bs)
  slice_prefix a b n bs ys h l =
      let whole = length-take n bs in
      ap (take b) (
        drop-append_left a (take n bs) ys (omega arith)
        ∙ ap (λ x. x ++ ys) (drop-take a n (n - a) bs (omega arith)))
      ∙ take-append_left b (take (n - a) (drop a bs)) ys
          (omega (arith, length-take (n - a) (drop a bs), length-drop a bs))
      ∙ take-take b (n - a) (drop a bs) (omega arith)

  -- A record is read in the same way whatever follows it.
  pub IsFrame-prefix :
      (bs ys : List ℕ) (r : WalRecord) (size : ℕ) (rest : List ℕ)
      → IsFrame bs r size rest
      → IsFrame (take size bs ++ ys) r size ys
  IsFrame-prefix bs ys r size rest f =
      let len = len_of bs in
      let all : size ≤ length bs = omega arith in
      let same_len : len_of (take size bs ++ ys) ≡ len =
        ap from_le_bytes (slice_prefix 0 4 size bs ys (omega arith) all) in
      let same_payload : take len (drop 8 (take size bs ++ ys)) ≡ take len (drop 8 bs) =
        slice_prefix 8 len size bs ys (omega arith) all in
      let size_kept : length (take size bs) ≡ size = omega (arith, length-take size bs) in
      record {
        size_eq = f.size_eq ∙ ap (◌+◌ 8) (sym same_len);
        rest_eq = sym (
            ap (λ n. drop (8 + n) (take size bs ++ ys)) same_len
            ∙ drop-append (8 + len) (take size bs) ys (size_kept ∙ f.size_eq));
        positive = rw same_len f.positive;
        plausible = rw same_len f.plausible;
        fits = rw same_len (omega (arith, length-append (take size bs) ys));
        checksum =
            rw (same_len, same_payload)
              (f.checksum ∙ sym (ap from_le_bytes (slice_prefix 4 4 size bs ys (omega arith) all)));
        decoded = rw (same_len, same_payload) f.decoded;
      }

  pub IsFrame-split :
      (bs : List ℕ) (r : WalRecord) (size : ℕ) (rest : List ℕ)
      → IsFrame bs r size rest
      → (bs ≡ take size bs ++ rest) × (length (take size bs) ≡ size) × (8 < size)
  IsFrame-split bs r size rest f = (
    sym (take-append-drop size bs)
        ∙ ap (◌++◌ (take size bs)) (ap (λ n. drop n bs) f.size_eq ∙ sym f.rest_eq),
    omega (arith, length-take size bs),
    omega arith,
  )

  module _ (r : WalRecord) (h k p ys : List ℕ) (lh : length h ≡ 4) (lk : length k ≡ 4)
      (len : from_le_bytes h ≡ length p) (sum : from_le_bytes k ≡ c.crc32 p) where
    abbrev laid : List ℕ
    laid = h ++ (k ++ (p ++ ys))

    laid_len : len_of laid ≡ length p
    laid_len = ap from_le_bytes (take-append 4 h (k ++ (p ++ ys)) lh) ∙ len

    laid_rest : drop 8 laid ≡ p ++ ys
    laid_rest =
        sym (drop-drop 4 4 8 laid refl)
        ∙ ap (drop 4) (drop-append 4 h (k ++ (p ++ ys)) lh)
        ∙ drop-append 4 k (p ++ ys) lk

    laid_payload : take (len_of laid) (drop 8 laid) ≡ p
    laid_payload = ap₂ take laid_len laid_rest ∙ take-append (length p) p ys refl

    laid-IsFrame :
        0 < length p
        → length p ≤ max_record_bytes
        → c.deserialize p ≡ some r
        → IsFrame laid r (8 + length p) ys
    laid-IsFrame pos small d = record {
      size_eq = ap (◌+◌ 8) (sym laid_len);
      rest_eq = sym (
          ap (λ n. drop (8 + n) laid) laid_len
          ∙ sym (drop-drop 8 (length p) (8 + length p) laid refl)
          ∙ ap (drop (length p)) laid_rest
          ∙ drop-append (length p) p ys refl);
      positive = rw laid_len pos;
      plausible = rw laid_len small;
      fits = rw laid_len (
          omega (
            arith,
            length-append h (k ++ (p ++ ys)),
            length-append k (p ++ ys),
            length-append p ys,
          ));
      checksum =
          ap c.crc32 laid_payload
          ∙ sym sum
          ∙ sym (
              ap from_le_bytes
                (ap (take 4) (drop-append 4 h (k ++ (p ++ ys)) lh) ∙ take-append 4 k (p ++ ys) lk));
      decoded = ap c.deserialize laid_payload ∙ d;
    }

  -- What `append` has written for a record is read back as that record.
  pub frame-IsFrame :
      IsFaithful c
      → (r : WalRecord) (payload ys : List ℕ) → c.serialize r ≡ some payload
      → length payload ≤ max_record_bytes
      → IsFrame (frame c payload ++ ys) r (8 + length payload) ys
  unfolding frame
  frame-IsFrame law r payload ys e h =
      let head = to_le_bytes 4 (length payload % 2 ^ 32) in
      let tail = to_le_bytes 4 (c.crc32 payload) in
      subst (λ b. IsFrame b r (8 + length payload) ys)
        (sym
          (append_assoc head (tail ++ payload) ys ∙ ap (◌++◌ head) (append_assoc tail payload ys)))
        (laid-IsFrame r head tail payload ys (length-to_le_bytes 4 _) (length-to_le_bytes 4 _)
          (from-to_le_bytes_4 _ (omega arith) ∙ omega arith)
          (from-to_le_bytes_4 _ (law.crc32-lt payload)) (law.not_empty r payload e) h
          (law.reads_back r payload e))
