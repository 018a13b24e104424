-- ===== src/Wal/Recovery.antt =====
-- The recovery contract: what a replay returns, and the log that it leaves behind.
use gvector.Prelude.{
  ℕ, ◌≤◌, ◌<◌, ◌≡◌, refl, sym, ap, ◌∙◌, subst, some, List, [], ◌∷◌, ◌++◌, append_assoc, arith,
  length, take, drop, length-append, take-append-drop, nat_key, string_key,
}
use gvector.Storage.Codec.{Codec, IsFaithful}
use gvector.Wal.{WalRecord, max_record_bytes, frame, replay_bytes, ReplayReport, found, read_frame}
use gvector.Wal.Frames.{
  Frames, none_left, more, clean, loop-total, Frames-append, one_frame, replay-Frames,
  report-Frames,
}

module _ (c : Codec WalRecord) where
  -- A replay ends, whatever the bytes.
  pub replay_total :
      (bytes : List ℕ) → (res : List WalRecord × ReplayReport) × (replay_bytes c bytes ≡ some res)
  unfolding replay_bytes
  replay_total bytes = loop-total c (length bytes) bytes 0 [] (omega arith)

  -- The file cut at the intact prefix replays to the same records, with nothing left to cut; and
  -- a record appended behind the cut is found there.
  pub replay_cut :
      IsFaithful c
      → (bytes : List ℕ) (rs : List WalRecord) (rep : ReplayReport) (r : WalRecord)
        (payload : List ℕ)
      → replay_bytes c bytes ≡ some (rs, rep)
      → c.serialize r ≡ some payload
      → length payload ≤ max_record_bytes
      → let kept = take rep.bytes_ok bytes in
        let longer = kept ++ frame c payload in
        (replay_bytes c kept ≡ some (rs, clean rs (length kept)))
        × (replay_bytes c longer ≡ some (rs ++ (r ∷ []), clean (rs ++ (r ∷ [])) (length longer)))
  replay_cut law bytes rs rep r payload e s h =
      let kept = take rep.bytes_ok bytes in
      let frames = report-Frames c bytes rs rep e in
      (
        replay-Frames c kept rs frames,
        replay-Frames c (kept ++ frame c payload) (rs ++ (r ∷ []))
            (Frames-append c frames (one_frame c law r payload s h)),
      )

  -- The first frame of a run is the one that a round of the loop reads.
  Frames-first :
      {p : List ℕ} {rs : List WalRecord}
      → Frames c p rs
      → (a y : List ℕ) (r : WalRecord) → p ≡ a ++ y
      → 0 < length a
      → read_frame c (a ++ y) ≡ found r (length a) y
      → (ts : List WalRecord) × (rs ≡ r ∷ ts) × Frames c y ts
  Frames-first (none_left e) a y r h pos reads =
      absurd (omega (arith, ap length e, ap length h, length-append a y))
  Frames-first (more d q t {rs = ts} split pos' reads' frames) a y r h pos reads =
      let both : found t (length d) q ≡ found r (length a) y =
        sym (reads' q) ∙ ap (read_frame c) (sym split ∙ h) ∙ reads in
      let same : t ≡ r = cc both in
      let rest : q ≡ y = cc both in
      (ts, ap (λ z. z ∷ ts) same, subst (λ z. Frames c z ts) rest frames)

  -- Frames of a byte string and of a prefix of it hold the same records, as far as they go.
  pub Frames-prefix :
      {q : List ℕ} {ss : List WalRecord}
      → Frames c q ss
      → (p x : List ℕ) (rs : List WalRecord) → Frames c p rs
      → p ≡ q ++ x
      → (lost : List WalRecord) × (rs ≡ ss ++ lost)
  Frames-prefix (none_left e) p x rs f h = (rs, refl)
  Frames-prefix (more a b r {rs = ss} split pos reads frames) p x rs f h =
      let whole : p ≡ a ++ (b ++ x) = h ∙ ap (λ z. z ++ x) split ∙ append_assoc a b x in
      let (ts, cons, rest) = Frames-first f a (b ++ x) r whole pos (reads (b ++ x)) in
      let (lost, e) = Frames-prefix frames (b ++ x) x ts rest refl in (lost, cons ∙ ap (◌∷◌ r) e)

  -- A file of intact frames, cut anywhere: the replay returns an initial run of its records.
  pub replay-prefix :
      (p q x : List ℕ) (rs out : List WalRecord) (rep : ReplayReport)
      → Frames c p rs
      → p ≡ q ++ x
      → replay_bytes c q ≡ some (out, rep)
      → (lost : List WalRecord) × (rs ≡ out ++ lost)
  replay-prefix p q x rs out rep f h e =
      let kept = report-Frames c q out rep e in
      Frames-prefix kept p (drop rep.bytes_ok q ++ x) rs f (
        h
        ∙ ap (λ z. z ++ x) (sym (take-append-drop rep.bytes_ok q))
        ∙ append_assoc (take rep.bytes_ok q) (drop rep.bytes_ok q) x)
