-- ===== src/Wal/Log/Durability.antt =====
-- What a replay after a crash finds in the file.
use gvector.Prelude.{
  ℕ, ◌≤◌, ◌≡◌, refl, sym, ap, ◌∙◌, subst, ◌≢◌, Bool, some, List, [], ◌∷◌, ◌++◌, append-nil,
  append_assoc, arith, length, take, drop, length-append, take-all, take-append-drop, nat_key,
  string_key,
}
use Prim.{Unit}
use gvector.Storage.{done}
use gvector.Storage.Codec.{Codec, IsFaithful}
use gvector.Wal.{WalRecord, ReplayReport, replay_bytes}
use gvector.Wal.Log.{
  Wal, SyncPolicy, none_sync, System, content, open_append, append, sync_if_due, commit,
}
use gvector.Wal.Frames.{Frames, Frames-append, one_frame, replay-Frames, report-Frames, clean}
use gvector.Wal.Recovery.{replay-prefix}
use gvector.Wal.Log.Syncs.{IsSound, Adds, IsDurable}
use gvector.Wal.Log.Results.{append-Adds, commit-Adds, sync_if_due-Adds}

module _ (c : Codec WalRecord) where
  -- The operations that a log has gone through, all of them with success, and the records that
  -- they appended.
  pub data Steps : Wal → List WalRecord → Wal → Type 0 where
    no_step : {w : Wal} → Steps w [] w
    append_step :
        {w w' w'' : Wal} {rs : List WalRecord} (sys : System) (r : WalRecord) (u : Unit)
        → append c sys r w ≡ (w', done u)
        → Steps w' rs w''
        → Steps w (r ∷ rs) w''
    due_step :
        {w w' w'' : Wal} {rs : List WalRecord} (sys : System) (b : Bool)
        → sync_if_due sys w ≡ (w', done b)
        → Steps w' rs w''
        → Steps w rs w''
    commit_step :
        {w w' w'' : Wal} {rs : List WalRecord} (sys : System) (u : Unit)
        → commit sys w ≡ (w', done u)
        → Steps w' rs w''
        → Steps w rs w''

  -- A log of intact frames.
  pub record Holds (w : Wal) (rs : List WalRecord) : Type 0 where
    pub sound : IsSound w
    pub frames : Frames c (content w) rs

  adds-Holds :
      {w w' : Wal} {rs : List WalRecord} (n : ℕ) → Adds w [] n w' → Holds w rs → Holds w' rs
  adds-Holds {w = w} {w' = w'} {rs = rs} n a h = record {
    sound = a.sound;
    frames = subst (λ z. Frames c z rs) (sym (a.content_eq ∙ append-nil (content w))) h.frames;
  }

  Steps-Holds :
      IsFaithful c
      → {w w' : Wal} {rs old : List WalRecord} → Steps w rs w'
      → Holds w old
      → Holds w' (old ++ rs) × (w'.policy ≡ w.policy)
  Steps-Holds law {w = w} {old = old} no_step h = (subst (Holds w) (sym (append-nil old)) h, refl)
  Steps-Holds law {w = w} {w' = w''} {old = old} (append_step {w' = w'} {rs = rs} sys r u e s) h =
      let (payload, p, small, a, d) = append-Adds c sys r w w' u h.sound e in
      let next : Holds w' (old ++ (r ∷ [])) = record {
        sound = a.sound;
        frames =
            subst (λ z. Frames c z (old ++ (r ∷ []))) (sym a.content_eq)
              (Frames-append c h.frames (one_frame c law r payload p small));
      } in
      let (done_, same) = Steps-Holds law s next in
      (subst (Holds w'') (append_assoc old (r ∷ []) rs) done_, same ∙ a.policy_eq)
  Steps-Holds law {w = w} (due_step {w' = w'} sys b e s) h =
      let a = sync_if_due-Adds sys w w' b h.sound e in
      let (done_, same) = Steps-Holds law s (adds-Holds 0 a h) in (done_, same ∙ a.policy_eq)
  Steps-Holds law {w = w} (commit_step {w' = w'} sys u e s) h =
      let (a, b, d) = commit-Adds sys w w' u h.sound e in
      let (done_, same) = Steps-Holds law s (adds-Holds 0 a h) in (done_, same ∙ a.policy_eq)

  -- A log opened on an intact file whose bytes are durable.
  open-Holds :
      (sys : System) (file : List ℕ) (policy : SyncPolicy) (old : List WalRecord)
      (rep : ReplayReport)
      → replay_bytes c file ≡ some (old, rep)
      → rep.bytes_ok ≡ length file
      → Holds (open_append sys file (length file) policy) old
  unfolding open_append
  open-Holds sys file policy old rep e whole = record {
    sound = record {
      bytes_eq = omega (arith, length-append file []);
      synced_le = omega arith;
      durable = λ d. (refl, refl);
    };
    frames =
        subst (λ z. Frames c z old)
          (take-all rep.bytes_ok file (omega arith) ∙ sym (append-nil file))
          (report-Frames c file old rep e);
  }

  flushed_whole :
      (w : Wal) (rs : List WalRecord)
      → Holds w rs
      → w.buffer ≡ []
      → replay_bytes c w.file ≡ some (rs, clean rs (length w.file))
  flushed_whole w rs h e =
      replay-Frames c w.file rs
        (subst (λ z. Frames c z rs) (ap (◌++◌ w.file) e ∙ append-nil w.file) h.frames)

  -- A durable log that is cut no earlier than its durable bytes is whole.
  durable_whole :
      (w : Wal) (rs : List WalRecord) (n : ℕ)
      → Holds w rs
      → IsDurable w
      → w.synced ≤ n
      → replay_bytes c (take n w.file) ≡ some (rs, clean rs (length w.file))
  durable_whole w rs n h d l =
      ap (replay_bytes c) (take-all n w.file (omega (arith, d.synced_eq)))
      ∙ flushed_whole w rs h d.buffer_eq

  module _ (law : IsFaithful c) (start : System) (file : List ℕ) (policy : SyncPolicy)
      (old : List WalRecord) (rep : ReplayReport) (intact : replay_bytes c file ≡ some (old, rep))
      (whole : rep.bytes_ok ≡ length file) (w : Wal) (rs : List WalRecord)
      (steps : Steps (open_append start file (length file) policy) rs w) where
    -- A log is opened on an intact, durable file and goes through appends, commits and syncs that
    -- all succeed, then through a commit that succeeds. Under every policy the file then replays to
    -- the old records and all that were appended, with nothing to cut.
    pub commit_replays :
        (sys : System) (w' : Wal) (u : Unit)
        → commit sys w ≡ (w', done u)
        → replay_bytes c w'.file ≡ some (old ++ rs, clean (old ++ rs) (length w'.file))
    commit_replays sys w' u e =
        let (h, same) = Steps-Holds law steps (open-Holds start file policy old rep intact whole) in
        let (a, flushed_, durable) = commit-Adds sys w w' u h.sound e in
        flushed_whole w' (old ++ rs) (adds-Holds 0 a h) flushed_

    -- In the same situation, under a policy that syncs: every cut of the file that keeps the
    -- durable bytes, as a crash of the machine leaves it, replays to the old records and all that
    -- were appended.
    pub commit_durable :
        (sys : System) (w' : Wal) (u : Unit) (n : ℕ)
        → policy ≢ none_sync
        → commit sys w ≡ (w', done u)
        → w'.synced ≤ n
        → replay_bytes c (take n w'.file) ≡ some (old ++ rs, clean (old ++ rs) (length w'.file))
    unfolding open_append
    commit_durable sys w' u n p e l =
        let (h, same) = Steps-Holds law steps (open-Holds start file policy old rep intact whole) in
        let (a, flushed_, durable) = commit-Adds sys w w' u h.sound e in
        durable_whole w' (old ++ rs) n (adds-Holds 0 a h) (durable (λ q. p (sym same ∙ q))) l

    -- Wherever a crash cuts the file of such a log, before or after its durable bytes, the replay
    -- returns the first of the old and appended records: none is made up, none is out of order.
    pub crash_prefix :
        (n : ℕ) (out : List WalRecord) (found_ : ReplayReport)
        → replay_bytes c (take n w.file) ≡ some (out, found_)
        → (lost : List WalRecord) × (old ++ rs ≡ out ++ lost)
    crash_prefix n out found_ e =
        let (h, same) = Steps-Holds law steps (open-Holds start file policy old rep intact whole) in
        replay-prefix c (content w) (take n w.file) (drop n w.file ++ w.buffer) (old ++ rs) out
          found_ h.frames
          (ap (λ z. z ++ w.buffer) (sym (take-append-drop n w.file))
            ∙ append_assoc (take n w.file) (drop n w.file) w.buffer)
          e
