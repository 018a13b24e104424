-- ===== src/Wal/Log/Results.antt =====
-- What the operations of the log leave in the file, and what a replay after a crash finds there.
use gvector.Prelude.{
  ℕ, ◌≤◌, ◌≡◌, refl, sym, ap, subst, ◌≢◌, inl, inr, Bool, true, false, ◌&&◌, some, List, [],
  append-nil, arith, Bool-cases, length, nat_key, string_key,
}
use Prim.{Unit, tt}
use gvector.Storage.{StorageResult, done, failed}
use gvector.Storage.Codec.{Codec}
use gvector.Wal.{WalRecord, max_record_bytes, frame}
use gvector.Wal.Log.{
  Wal, none_sync, per_op, System, content, is_due, sync, append, answer, sync_if_due, commit,
}
use gvector.Wal.Frames.{length-frame}
use gvector.Wal.Log.Syncs.{IsSound, Adds, IsDurable, flush-done, flushed-Adds, sync-Adds}
use gvector.Wal.Log.Adds.{append-done, append_written-Adds, policy-cases}

-- An append that succeeds adds one frame.
pub append-Adds :
    (c : Codec WalRecord) (sys : System) (r : WalRecord) (w w' : Wal) (u : Unit)
    → IsSound w
    → append c sys r w ≡ (w', done u)
    → (payload : List ℕ) × (c.serialize r ≡ some payload)
      × (length payload ≤ max_record_bytes)
      × Adds w (frame c payload) 1 w'
      × (w.policy ≡ per_op → IsDurable w')
append-Adds c sys r w w' u s e =
    let (payload, p, small, e') = append-done c sys r w w' u e in
    let (adds, durable) =
      append_written-Adds sys (frame c payload) payload w w' u (length-frame c payload) s e' in
    (payload, p, small, adds, durable)

-- A commit that succeeds hands everything to the system, and makes it durable under a policy that
-- syncs.
pub commit-Adds :
    (sys : System) (w w' : Wal) (u : Unit)
    → IsSound w
    → commit sys w ≡ (w', done u)
    → Adds w [] 0 w' × (w'.buffer ≡ []) × (w.policy ≢ none_sync → IsDurable w')
unfolding commit
commit-Adds sys w w' u s e =
    let synced : sync sys w ≡ (w', done u)
        → Adds w [] 0 w' × (w'.buffer ≡ []) × (w.policy ≢ none_sync → IsDurable w') =
      λ q. let (a, d) = sync-Adds sys w w' u s q in (a, d.buffer_eq, λ n. d) in
    elim (policy-cases w.policy) [
      | inl p ↦
          let z = flush-done sys w w' u (rw (p, commit) at e) in
          (subst (Adds w [] 0) (sym z) (flushed-Adds w s), ap (λ x. x.buffer) z, λ q. absurd (q p))
      | inr (inl p) ↦ synced (rw (p, commit) at e)
      | inr (inr (n, p)) ↦ synced (rw (p, commit) at e)
    ]

kept : (w : Wal) → IsSound w → Adds w [] 0 w
kept w s = record {
  content_eq = sym (append-nil (content w));
  records_eq = omega arith;
  policy_eq = refl;
  sound = s;
}

answer-done :
    (x : Wal × StorageResult Unit) (w' : Wal) (b : Bool)
    → answer true x ≡ (w', done b)
    → x ≡ (w', done tt)
unfolding answer
answer-done (w, done u) w' b e = ap (λ z. (z, done tt)) (ap (λ x. x.0) e)
answer-done (w, failed x) w' b e = absurd (cc e)

answer-Adds :
    (sys : System) (w w' : Wal) (b : Bool)
    → IsSound w
    → answer true (sync sys w) ≡ (w', done b)
    → Adds w [] 0 w'
answer-Adds sys w w' b s e = (sync-Adds sys w w' tt s (answer-done (sync sys w) w' b e)).0

pub sync_if_due-Adds :
    (sys : System) (w w' : Wal) (b : Bool)
    → IsSound w
    → sync_if_due sys w ≡ (w', done b)
    → Adds w [] 0 w'
unfolding sync_if_due
sync_if_due-Adds sys w w' b s e =
    let same : (w, done false) ≡ (w', done b) → Adds w [] 0 w' =
      λ q. subst (Adds w [] 0) (ap (λ x. x.0) q) (kept w s) in
    elim (policy-cases w.policy) [
      | inl p ↦ same (rw (p, sync_if_due) at e)
      | inr (inl p) ↦ same (rw (p, sync_if_due) at e)
      | inr (inr (n, p)) ↦ elim (Bool-cases (w.dirty && is_due sys w n)) [
        | inl d ↦ answer-Adds sys w w' b s (rw (d, sync_if_due) at (rw (p, sync_if_due) at e))
        | inr d ↦ same (rw (d, sync_if_due) at (rw (p, sync_if_due) at e))
      ]
    ]
