-- ===== src/Wal/Frames.antt =====
-- Runs of intact frames, and what the replay loop makes of them.
use gvector.Prelude.{
  ℕ, zero, suc, ◌+◌, ◌%◌, ◌^◌, ◌≤◌, ◌<◌, ◌≡◌, refl, sym, ap, ◌∙◌, subst, ◌⊎◌, inl, inr, none, some,
  List, [], ◌∷◌, ◌++◌, append-nil, append_assoc, arith, some_inj, length, take, length-append,
  take-append, nat_key, string_key,
}
use mathlib.Core.Path.{ap₂}
use gvector.Storage.Codec.{Codec, IsFaithful}
use gvector.Wal.{
  WalRecord, max_record_bytes, Reason, Read, stop, found, ReplayReport, frame, read_frame,
  replay_loop, replay_bytes,
}
use gvector.Bytes.{to_le_bytes, length-to_le_bytes}
use gvector.Wal.Replay.{
  IsFrame, read_frame-IsFrame, IsFrame-read_frame, IsFrame-prefix, IsFrame-split, frame-IsFrame,
}

Read-cases :
    (x : Read)
    → ((why : Reason) × (x ≡ stop why))
      ⊎ ((r : WalRecord) × (size : ℕ) × (rest : List ℕ) × (x ≡ found r size rest))
Read-cases (stop why) = inl (why, refl)
Read-cases (found r size rest) = inr (r, size, rest, refl)

abbrev pub clean : List WalRecord → ℕ → ReplayReport
clean out off = record { applied = length out; bytes_ok = off; truncated_at = none; reason = none }

abbrev pub cut : List WalRecord → ℕ → Reason → ReplayReport
cut out off why = record {
  applied = length out;
  bytes_ok = off;
  truncated_at = some off;
  reason = some why;
}

module _ (c : Codec WalRecord) where
  -- The records that a run of intact frames holds, whatever follows.
  pub data Frames : List ℕ → List WalRecord → Type 0 where
    none_left : {bs : List ℕ} → bs ≡ [] → Frames bs []
    more :
        {bs : List ℕ} (p q : List ℕ) (r : WalRecord) {rs : List WalRecord}
        → bs ≡ p ++ q
        → 0 < length p
        → ((ys : List ℕ) → read_frame c (p ++ ys) ≡ found r (length p) ys)
        → Frames q rs
        → Frames bs (r ∷ rs)

  -- The fuel never runs out.
  pub loop-total :
      (fuel : ℕ) (bs : List ℕ) (off : ℕ) (out : List WalRecord)
      → length bs ≤ fuel
      → (res : List WalRecord × ReplayReport) × (replay_loop c fuel bs off out ≡ some res)
  unfolding replay_loop
  loop-total fuel [] off out h = ((out, clean out off), refl)
  loop-total zero (b ∷ bs) off out h = absurd (omega arith)
  loop-total (suc fuel) (b ∷ bs) off out h = elim (Read-cases (read_frame c (b ∷ bs))) [
    | inl (why, e) ↦ ((out, cut out off why), rw (e, replay_loop))
    | inr (r, size, rest, e) ↦
        let (split, l, big) =
          IsFrame-split c (b ∷ bs) r size rest (read_frame-IsFrame c (b ∷ bs) r size rest e) in
        rw (e, replay_loop)
          (loop-total fuel rest (off + size) (out ++ (r ∷ []))
            (omega (arith, ap length split, length-append (take size (b ∷ bs)) rest)))
  ]

  -- What a run of the loop has found: intact frames, then the end or a frame that stops it.
  pub record Outcome (bs : List ℕ) (off : ℕ) (out : List WalRecord)
      (res : List WalRecord × ReplayReport) : Type 0 where
    pub prefix : List ℕ
    pub tail : List ℕ
    pub records : List WalRecord
    pub split : bs ≡ prefix ++ tail
    pub frames : Frames prefix records
    pub result : res.0 ≡ out ++ records
    pub ending :
        ((tail ≡ []) × (res.1 ≡ clean res.0 (off + length prefix)))
        ⊎ ((why : Reason) × (read_frame c tail ≡ stop why)
            × (res.1 ≡ cut res.0 (off + length prefix) why))

  pub loop-Outcome :
      (fuel : ℕ) (bs : List ℕ) (off : ℕ) (out : List WalRecord)
      (res : List WalRecord × ReplayReport)
      → replay_loop c fuel bs off out ≡ some res
      → Outcome bs off out res
  unfolding replay_loop
  loop-Outcome fuel [] off out res e =
      let same : (out, clean out off) ≡ res = some_inj e in
      record {
        prefix = [];
        tail = [];
        records = [];
        split = refl;
        frames = none_left refl;
        result = sym (ap (λ x. x.0) same) ∙ sym (append-nil out);
        ending =
            inl (refl, sym (ap (λ x. x.1) same) ∙ ap₂ clean (ap (λ x. x.0) same) (omega arith));
      }
  loop-Outcome zero (b ∷ bs) off out res e = absurd (ground arith)
  loop-Outcome (suc fuel) (b ∷ bs) off out res e = elim (Read-cases (read_frame c (b ∷ bs))) [
    | inl (why, f) ↦
        let same : (out, cut out off why) ≡ res = some_inj (rw (f, replay_loop) at e) in
        record {
          prefix = [];
          tail = b ∷ bs;
          records = [];
          split = refl;
          frames = none_left refl;
          result = sym (ap (λ x. x.0) same) ∙ sym (append-nil out);
          ending = inr (
            why,
            f,
            sym (ap (λ x. x.1) same) ∙ ap₂ (λ o n. cut o n why) (ap (λ x. x.0) same) (omega arith),
          );
        }
    | inr (r, size, rest, f) ↦
        let frame = read_frame-IsFrame c (b ∷ bs) r size rest f in
        let (cutting, l, big) = IsFrame-split c (b ∷ bs) r size rest frame in
        let o =
          loop-Outcome fuel rest (off + size) (out ++ (r ∷ [])) res (rw (f, replay_loop) at e) in
        let first = take size (b ∷ bs) in
        let shift : off + size + length o.prefix ≡ off + length (first ++ o.prefix) =
          omega (arith, length-append first o.prefix) in
        record {
          prefix = first ++ o.prefix;
          tail = o.tail;
          records = r ∷ o.records;
          split = cutting ∙ ap (◌++◌ first) o.split ∙ sym (append_assoc first o.prefix o.tail);
          frames =
              more first o.prefix r refl (omega arith)
                (λ ys. IsFrame-read_frame c (first ++ ys) r (length first) ys (
                  subst (λ n. IsFrame c (first ++ ys) r n ys) (sym l)
                    (IsFrame-prefix c (b ∷ bs) ys r size rest frame)))
                o.frames;
          result = o.result ∙ append_assoc out (r ∷ []) o.records;
          ending = elim o.ending [
            | inl (t, z) ↦ inl (t, z ∙ ap (clean res.0) shift)
            | inr (why, t, z) ↦ inr (why, t, z ∙ ap (λ n. cut res.0 n why) shift)
          ];
        }
  ]

  loop_eq :
      (fuel : ℕ) {bs bs' : List ℕ} {off off' : ℕ} {out out' : List WalRecord}
      → bs ≡ bs'
      → off ≡ off'
      → out ≡ out'
      → replay_loop c fuel bs off out ≡ replay_loop c fuel bs' off' out'
  loop_eq fuel e f g = λ i. replay_loop c fuel (e i) (f i) (g i)

  loop-step :
      (fuel : ℕ) (bs rest : List ℕ) (off size : ℕ) (out : List WalRecord) (r : WalRecord)
      → read_frame c bs ≡ found r size rest
      → 0 < length bs
      → replay_loop c (suc fuel) bs off out ≡ replay_loop c fuel rest (off + size) (out ++ (r ∷ []))
  unfolding replay_loop
  loop-step fuel [] rest off size out r e h = absurd (omega arith)
  loop-step fuel (b ∷ bs) rest off size out r e h = rw (e, replay_loop)

  -- Intact frames are read through, and the loop goes on behind them.
  pub loop-Frames :
      {p : List ℕ} {rs : List WalRecord}
      → Frames p rs
      → (fuel : ℕ) (ys : List ℕ) (off : ℕ) (out : List WalRecord) → length (p ++ ys) ≤ fuel
      → (fuel' : ℕ) × (length ys ≤ fuel')
        × (replay_loop c fuel (p ++ ys) off out
            ≡ replay_loop c fuel' ys (off + length p) (out ++ rs))
  loop-Frames {p = p} (none_left e) fuel ys off out h = (
    fuel,
    omega (arith, length-append p ys),
    loop_eq fuel (ap (λ x. x ++ ys) e) (omega (arith, ap length e)) (sym (append-nil out)),
  )
  loop-Frames {p = bs} (more p q r e pos reads frames) zero ys off out h =
      absurd (omega (arith, ap length e, length-append p q, length-append bs ys))
  loop-Frames {p = bs} (more p q r {rs = rs} e pos reads frames) (suc fuel) ys off out h =
      let here = ap (λ x. x ++ ys) e ∙ append_assoc p q ys in
      let size = ap length here in
      let (fuel', room, run) =
        loop-Frames frames fuel ys (off + length p) (out ++ (r ∷ []))
          (omega (arith, size, length-append p (q ++ ys))) in
      (
        fuel',
        room,
        loop_eq (suc fuel) here refl refl
            ∙ loop-step fuel (p ++ (q ++ ys)) (q ++ ys) off (length p) out r (reads (q ++ ys))
                (omega (arith, length-append p (q ++ ys)))
            ∙ run
            ∙ loop_eq fuel' refl (omega (arith, ap length e, length-append p q))
                (append_assoc out (r ∷ []) rs),
      )

  pub replay-Frames :
      (p : List ℕ) (rs : List WalRecord)
      → Frames p rs
      → replay_bytes c p ≡ some (rs, clean rs (length p))
  unfolding replay_bytes replay_loop
  replay-Frames p rs f =
      let (fuel', room, run) =
        loop-Frames f (length p) [] 0 [] (omega (arith, length-append p [])) in
      loop_eq (length p) (sym (append-nil p)) refl refl
      ∙ run
      ∙ ap (λ n. some (rs, clean rs n)) (omega arith)

  pub Frames-append :
      {p q : List ℕ} {rs ss : List WalRecord}
      → Frames p rs
      → Frames q ss
      → Frames (p ++ q) (rs ++ ss)
  Frames-append {q = q} {ss = ss} (none_left e) g =
      subst (λ x. Frames x ss) (sym (ap (λ x. x ++ q) e)) g
  Frames-append {q = q} (more a b r e pos reads f) g =
      more a (b ++ q) r (ap (λ x. x ++ q) e ∙ append_assoc a b q) pos reads (Frames-append f g)

  pub length-frame : (payload : List ℕ) → length (frame c payload) ≡ 8 + length payload
  unfolding frame
  length-frame payload = omega (
    arith,
    length-append (to_le_bytes 4 (length payload % 2 ^ 32))
        (to_le_bytes 4 (c.crc32 payload) ++ payload),
    length-append (to_le_bytes 4 (c.crc32 payload)) payload,
    length-to_le_bytes 4 (length payload % 2 ^ 32),
    length-to_le_bytes 4 (c.crc32 payload),
  )

  pub one_frame :
      IsFaithful c
      → (r : WalRecord) (payload : List ℕ) → c.serialize r ≡ some payload
      → length payload ≤ max_record_bytes
      → Frames (frame c payload) (r ∷ [])
  one_frame law r payload e h =
      let size = length-frame payload in
      more (frame c payload) [] r (sym (append-nil (frame c payload))) (omega (arith, size))
        (λ ys. IsFrame-read_frame c (frame c payload ++ ys) r (length (frame c payload)) ys (
          subst (λ n. IsFrame c (frame c payload ++ ys) r n ys) (sym size)
            (frame-IsFrame c law r payload ys e h)))
        (none_left refl)

  -- The prefix of `bytes_ok` bytes holds intact frames with the records returned.
  pub report-Frames :
      (bytes : List ℕ) (rs : List WalRecord) (rep : ReplayReport)
      → replay_bytes c bytes ≡ some (rs, rep)
      → Frames (take rep.bytes_ok bytes) rs
  unfolding replay_bytes
  report-Frames bytes rs rep e =
      let o = loop-Outcome (length bytes) bytes 0 [] (rs, rep) e in
      let size : rep.bytes_ok ≡ length o.prefix = elim o.ending [
        | inl (t, z) ↦ omega (arith, ap (λ x. x.bytes_ok) z)
        | inr (why, t, z) ↦ omega (arith, ap (λ x. x.bytes_ok) z)
      ] in
      let cutting : take rep.bytes_ok bytes ≡ o.prefix =
        ap₂ take size o.split ∙ take-append (length o.prefix) o.prefix o.tail refl in
      let same : rs ≡ o.records = o.result in
      subst (λ x. Frames x rs) (sym cutting) (subst (λ x. Frames o.prefix x) (sym same) o.frames)
