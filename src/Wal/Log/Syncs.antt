-- ===== src/Wal/Log/Syncs.antt =====
-- What a flush and an fsync leave of the log.
use gvector.Prelude.{
  ℕ, ◌+◌, ◌≤◌, ◌≡◌, refl, sym, ap, ◌∙◌, subst, ◌⊎◌, inl, inr, true, false, List, [], ◌++◌,
  append-nil, append_assoc, arith, Bool-cases, Option-cases, length, take, drop, length-append,
  take-append-drop, nat_key, string_key,
}
use Prim.{Unit}
use gvector.Storage.{done}
use gvector.Wal.Log.{Wal, System, content, spill, flush, sync_flushed, sync}

-- What the log knows of itself: its size, and that a log that is not dirty is durable.
pub record IsSound (w : Wal) : Type 0 where
  pub bytes_eq : w.bytes ≡ length (content w)
  pub synced_le : w.synced ≤ length w.file
  pub durable : w.dirty ≡ false → (w.buffer ≡ []) × (w.synced ≡ length w.file)

-- What a step that adds `data` to the log has done.
pub record Adds (w : Wal) (data_added : List ℕ) (n : ℕ) (w' : Wal) : Type 0 where
  pub content_eq : content w' ≡ content w ++ data_added
  pub records_eq : w'.records ≡ w.records + n
  pub policy_eq : w'.policy ≡ w.policy
  pub sound : IsSound w'

-- A log whose bytes are all durable.
pub record IsDurable (w : Wal) : Type 0 where
  pub buffer_eq : w.buffer ≡ []
  pub synced_eq : w.synced ≡ length w.file

pub spill-content : (n : ℕ) (w : Wal) → content (spill n w) ≡ content w
unfolding spill
spill-content n w =
    append_assoc w.file (take n w.buffer) (drop n w.buffer)
    ∙ ap (◌++◌ w.file) (take-append-drop n w.buffer)

-- A log after a flush.
abbrev pub flushed : Wal → Wal
flushed w = record w { file = w.file ++ w.buffer; buffer = [] }

pub flush-done :
    (sys : System) (w w' : Wal) (u : Unit) → flush sys w ≡ (w', done u) → w' ≡ flushed w
unfolding flush
flush-done sys w w' u e = ground (arith, Option-cases sys.flush_fails)

synced_log : System → Wal → Wal
synced_log sys w = record (flushed w) {
  synced = length (w.file ++ w.buffer);
  dirty = false;
  last_sync = sys.now;
}

touched_log : System → Wal → Wal
touched_log sys w = record (flushed w) { last_sync = sys.now }

sync-done :
    (sys : System) (w w' : Wal) (u : Unit)
    → sync sys w ≡ (w', done u)
    → ((w.dirty ≡ true) × (w' ≡ synced_log sys w)) ⊎ ((w.dirty ≡ false) × (w' ≡ touched_log sys w))
unfolding sync flush sync_flushed synced_log touched_log
sync-done sys w w' u e = elim (Bool-cases w.dirty) [
  | inl d ↦ inl (d, ground (arith, Option-cases sys.flush_fails))
  | inr d ↦ inr (d, ground (arith, Option-cases sys.flush_fails))
]

pub flushed-Adds : (w : Wal) → IsSound w → Adds w [] 0 (flushed w)
flushed-Adds w s = record {
  content_eq = refl;
  records_eq = omega arith;
  policy_eq = refl;
  sound = record {
    bytes_eq = s.bytes_eq ∙ ap length (sym (append-nil (w.file ++ w.buffer)));
    synced_le = omega (arith, s.synced_le, length-append w.file w.buffer);
    durable = λ d. (
      refl,
      omega (arith, (s.durable d).1, ap length ((s.durable d).0), length-append w.file w.buffer),
    );
  };
}

synced-Adds :
    (sys : System) (w : Wal)
    → IsSound w
    → Adds w [] 0 (synced_log sys w) × IsDurable (synced_log sys w)
unfolding synced_log
synced-Adds sys w s = (
  record {
    content_eq = refl;
    records_eq = omega arith;
    policy_eq = refl;
    sound = record {
      bytes_eq = s.bytes_eq ∙ ap length (sym (append-nil (w.file ++ w.buffer)));
      synced_le = omega arith;
      durable = λ d. (refl, refl);
    };
  },
  record { buffer_eq = refl; synced_eq = refl },
)

touched-Adds :
    (sys : System) (w : Wal)
    → IsSound w
    → w.dirty ≡ false
    → Adds w [] 0 (touched_log sys w) × IsDurable (touched_log sys w)
unfolding touched_log
touched-Adds sys w s d =
    let f = flushed-Adds w s in
    (
      record {
        content_eq = f.content_eq;
        records_eq = f.records_eq;
        policy_eq = f.policy_eq;
        sound = record {
          bytes_eq = f.sound.bytes_eq;
          synced_le = f.sound.synced_le;
          durable = f.sound.durable;
        };
      },
      record { buffer_eq = refl; synced_eq = (f.sound.durable d).1 },
    )

-- A sync that succeeds leaves everything durable.
pub sync-Adds :
    (sys : System) (w w' : Wal) (u : Unit)
    → IsSound w
    → sync sys w ≡ (w', done u)
    → Adds w [] 0 w' × IsDurable w'
sync-Adds sys w w' u s e = elim (sync-done sys w w' u e) [
  | inl (d, z) ↦ subst (λ x. Adds w [] 0 x × IsDurable x) (sym z) (synced-Adds sys w s)
  | inr (d, z) ↦ subst (λ x. Adds w [] 0 x × IsDurable x) (sym z) (touched-Adds sys w s d)
]
