-- ===== src/Wal/Log/Adds.antt =====
-- What an append leaves of the log.
use gvector.Prelude.{
  ℕ, ◌+◌, ◌≤◌, ◌≡◌, refl, sym, ap, ◌∙◌, subst, ◌⊎◌, inl, inr, true, false, some, List, [], ◌++◌,
  append-nil, append_assoc, arith, ltb, ltb-false→le, Bool-cases, Option-cases, length, take,
  length-append, nat_key, string_key,
}
use Prim.{Unit, tt}
use gvector.Storage.{done}
use gvector.Storage.Codec.{Codec}
use gvector.Wal.{WalRecord, max_record_bytes, frame}
use gvector.Wal.Log.{
  Wal, SyncPolicy, none_sync, per_op, group, System, content, spill, write_all, is_due, sync,
  append_written, append,
}
use gvector.Wal.Log.Syncs.{
  IsSound, Adds, IsDurable, spill-content, flush-done, flushed, flushed-Adds, sync-Adds,
}

pub Adds-trans :
    (w w' w'' : Wal) (xs ys : List ℕ) (m n : ℕ)
    → Adds w xs m w'
    → Adds w' ys n w''
    → Adds w (xs ++ ys) (m + n) w''
Adds-trans w w' w'' xs ys m n a b = record {
  content_eq = b.content_eq ∙ ap (λ z. z ++ ys) a.content_eq ∙ append_assoc (content w) xs ys;
  records_eq = omega (arith, a.records_eq, b.records_eq);
  policy_eq = b.policy_eq ∙ a.policy_eq;
  sound = b.sound;
}

-- A log with a record in its buffer.
abbrev holding : System → List ℕ → List ℕ → Wal → Wal
holding sys data_added payload w =
    let w' = spill sys.spilled (record w { buffer = w.buffer ++ data_added }) in
    record w' { bytes = w'.bytes + (8 + length payload); records = w'.records + 1; dirty = true }

holding-Adds :
    (sys : System) (data_added payload : List ℕ) (w : Wal)
    → length data_added ≡ 8 + length payload
    → IsSound w
    → Adds w data_added 1 (holding sys data_added payload w)
unfolding spill
holding-Adds sys data_added payload w l s =
    let given = w.buffer ++ data_added in
    let kept : content (holding sys data_added payload w) ≡ content w ++ data_added =
      spill-content sys.spilled (record w { buffer = given })
      ∙ sym (append_assoc w.file w.buffer data_added) in
    record {
      content_eq = kept;
      records_eq = refl;
      policy_eq = refl;
      sound = record {
        bytes_eq = omega (arith, s.bytes_eq, ap length kept, length-append (content w) data_added);
        synced_le = omega (arith, s.synced_le, length-append w.file (take sys.spilled given));
        durable = λ d. absurd (cc d);
      };
    }

write_all-done :
    (sys : System) (payload written : List ℕ) (w w' : Wal) (u : Unit)
    → append_written sys payload (write_all sys written w) ≡ (w', done u)
    → append_written sys payload
        (spill sys.spilled (record w { buffer = w.buffer ++ written }), done tt)
      ≡ (w', done u)
unfolding write_all append_written
write_all-done sys payload written w w' u e = elim (Option-cases sys.write_fails) [
  | inl n ↦ rw (n, write_all) at e
  | inr (n, s) ↦ absurd (cc (rw (s, write_all, append_written) at e))
]

-- What an append that succeeds came through.
pub append-done :
    (c : Codec WalRecord) (sys : System) (r : WalRecord) (w w' : Wal) (u : Unit)
    → append c sys r w ≡ (w', done u)
    → (payload : List ℕ) × (c.serialize r ≡ some payload)
      × (length payload ≤ max_record_bytes)
      × (append_written sys payload
            (spill sys.spilled (record w { buffer = w.buffer ++ frame c payload }), done tt)
          ≡ (w', done u))
unfolding append
append-done c sys r w w' u e = elim (Option-cases (c.serialize r)) [
  | inl n ↦ absurd (ground (arith, n))
  | inr (payload, s) ↦
      let small : ltb max_record_bytes (length payload) ≡ false = ground (arith, s) in
      (
        payload,
        s,
        ltb-false→le max_record_bytes (length payload) small,
        write_all-done sys payload (frame c payload) w w' u
            (rw (small, append) at (rw (s, append) at e)),
      )
]

pub policy-cases : (p : SyncPolicy) → (p ≡ none_sync) ⊎ (p ≡ per_op) ⊎ ((n : ℕ) × (p ≡ group n))
policy-cases none_sync = inl refl
policy-cases per_op = inr (inl refl)
policy-cases (group n) = inr (inr (n, refl))

-- The policy's part of an append.
pub append_written-Adds :
    (sys : System) (data_added payload : List ℕ) (w w' : Wal) (u : Unit)
    → length data_added ≡ 8 + length payload
    → IsSound w
    → append_written sys payload
        (spill sys.spilled (record w { buffer = w.buffer ++ data_added }), done tt)
      ≡ (w', done u)
    → Adds w data_added 1 w' × (w.policy ≡ per_op → IsDurable w')
unfolding append_written spill
append_written-Adds sys data_added payload w w' u l s e =
    let held = holding sys data_added payload w in
    let a = holding-Adds sys data_added payload w l s in
    let extend : (x : Wal) → Adds held [] 0 x → Adds w data_added 1 x = λ x b.
      subst (λ z. Adds w z 1 x) (append-nil data_added)
        (Adds-trans w held x data_added [] 1 0 a b) in
    let synced : sync sys held ≡ (w', done u)
        → Adds w data_added 1 w' × (w.policy ≡ per_op → IsDurable w') =
      λ q. (
        extend w' (sync-Adds sys held w' u a.sound q).0,
        λ p. (sync-Adds sys held w' u a.sound q).1,
      ) in
    elim (policy-cases w.policy) [
      | inl p ↦ (
        subst (Adds w data_added 1) (sym (flush-done sys held w' u (rw (p, append_written) at e)))
            (extend (flushed held) (flushed-Adds held a.sound)),
        λ q. absurd (cc (p, q)),
      )
      | inr (inl p) ↦ synced (rw (p, append_written) at e)
      | inr (inr (n, p)) ↦ elim (Bool-cases (is_due sys held n)) [
        | inl d ↦ synced (rw (d, append_written) at (rw (p, append_written) at e))
        | inr d ↦ (
          subst (Adds w data_added 1)
              (ap (λ x. x.0) (rw (d, append_written) at (rw (p, append_written) at e))) a,
          λ q. absurd (cc (p, q)),
        )
      ]
    ]
