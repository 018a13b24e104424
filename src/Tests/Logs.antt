-- ===== src/Tests/Logs.antt =====
-- Logs of deletions, under a codec that writes a deletion as its id.
use gvector.Prelude.{
  ℕ, ◌+◌, ◌%◌, ◌^◌, ◌<◌, ◌≡◌, refl, sym, ap, ◌↔◌, true, false, not, ◌&&◌, Option, none, some, List,
  [], ◌∷◌, ◌++◌, arith, some_inj, length, take, anyb, ◌==◌, nat_key, string_key,
}
use Prim.Native.String.{String}
use gvector.Distance.{l2}
use gvector.Storage.Manifest.{Manifest, gc_unreferenced, is_ours}
use gvector.Storage.Manifest.Collection.{needs, lists, gc_unreferenced-keeps}
use Prim.{tt}
use gvector.Bytes.{to_le_bytes, from_le_bytes}
use gvector.Storage.{done, failed, io}
use gvector.Storage.Codec.{Codec, IsFaithful}
use gvector.Storage.Frame.{encode_framed, decode_framed, metadata_magic}
use gvector.Storage.Frame.RoundTrip.{decode-encode_framed, decode_framed-IsFramed, IsFramed}
use gvector.Wal.{
  WalRecord, insert_record, delete_record, ReplayReport, truncated_body, frame, read_frame,
  replay_bytes,
}
use gvector.Wal.Frames.{clean, cut}
use gvector.Wal.Recovery.{replay_total, replay_cut}
use gvector.Wal.Log.{Wal, System, group, open_append, append, commit}
use gvector.Wal.Log.Durability.{
  Steps, no_step, append_step, commit_replays, commit_durable, crash_prefix,
}

total : List ℕ → ℕ
total [] = 0
total (b ∷ bs) = b + total bs

written : WalRecord → Option (List ℕ)
written (insert_record id v m) = none
written (delete_record id) = some (id ∷ [])

read : List ℕ → Option WalRecord
read [] = none
read (b ∷ []) = some (delete_record b)
read (b ∷ (c ∷ bs)) = none

abbrev toy_codec : Codec WalRecord
unfolding total written read
toy_codec = record { serialize = written; deserialize = read; crc32 = λ b. total b % 2 ^ 32 }

written-read : (r : WalRecord) (b : List ℕ) → written r ≡ some b → read b ≡ some r
unfolding written read
written-read (insert_record id v m) b e = absurd (cc e)
written-read (delete_record id) b e = ap read (sym (some_inj e))

written-pos : (r : WalRecord) (b : List ℕ) → written r ≡ some b → 0 < length b
unfolding written
written-pos (insert_record id v m) b e = absurd (cc e)
written-pos (delete_record id) b e = omega (arith, ap length (some_inj e))

toy-IsFaithful : IsFaithful toy_codec
unfolding toy_codec written read
toy-IsFaithful = record {
  reads_back = written-read;
  not_empty = written-pos;
  crc32-lt = λ b. omega arith;
}

-- The frame of the deletion of 7, and a frame that is cut short.
abbrev seven : List ℕ
seven = 1 ∷ 0 ∷ 0 ∷ 0 ∷ 7 ∷ 0 ∷ 0 ∷ 0 ∷ 7 ∷ []

abbrev torn : List ℕ
torn = 1 ∷ 0 ∷ 0 ∷ 0 ∷ 9 ∷ 0 ∷ 0 ∷ 0 ∷ []

replay_total_example :
    (res : List WalRecord × ReplayReport) × (replay_bytes toy_codec (seven ++ torn) ≡ some res)
replay_total_example = replay_total toy_codec (seven ++ torn)

torn_replay :
    replay_bytes toy_codec (seven ++ torn)
    ≡ some (delete_record 7 ∷ [], cut (delete_record 7 ∷ []) 9 truncated_body)
unfolding replay_bytes read_frame from_le_bytes toy_codec
torn_replay = refl

replay_cut_example :
    (replay_bytes toy_codec (take 9 (seven ++ torn))
      ≡ some (delete_record 7 ∷ [], clean (delete_record 7 ∷ []) 9))
    × (replay_bytes toy_codec (take 9 (seven ++ torn) ++ frame toy_codec (8 ∷ []))
        ≡ some (
          delete_record 7 ∷ (delete_record 8 ∷ []),
          clean (delete_record 7 ∷ (delete_record 8 ∷ [])) 18,
        ))
unfolding toy_codec written frame to_le_bytes
replay_cut_example =
    replay_cut toy_codec toy-IsFaithful (seven ++ torn) (delete_record 7 ∷ [])
      (cut (delete_record 7 ∷ []) 9 truncated_body) (delete_record 8) (8 ∷ []) torn_replay refl
      (omega arith)

-- A calm system, 5 milliseconds later each time.
abbrev at : ℕ → System
at t = record { write_fails = none; spilled = 0; flush_fails = none; sync_succeeds = true; now = t }

abbrev opened : Wal
unfolding open_append
opened = open_append (at 0) seven 9 (group 10)

abbrev eight : Wal
eight = record opened {
  buffer = 1 ∷ 0 ∷ 0 ∷ 0 ∷ 8 ∷ 0 ∷ 0 ∷ 0 ∷ 8 ∷ [];
  bytes = 18;
  records = 1;
  dirty = true;
}

eight_written : append toy_codec (at 5) (delete_record 8) opened ≡ (eight, done tt)
unfolding append toy_codec opened frame to_le_bytes
eight_written = refl

abbrev eight_synced : Wal
eight_synced = record eight {
  file = seven ++ eight.buffer;
  buffer = [];
  synced = 18;
  dirty = false;
  last_sync = 7;
}

eight_committed : commit (at 7) eight ≡ (eight_synced, done tt)
unfolding commit opened
eight_committed = refl

seven_replay :
    replay_bytes toy_codec seven ≡ some (delete_record 7 ∷ [], clean (delete_record 7 ∷ []) 9)
unfolding replay_bytes read_frame from_le_bytes toy_codec
seven_replay = refl

eight-Steps : Steps toy_codec (open_append (at 0) seven 9 (group 10)) (delete_record 8 ∷ []) eight
unfolding opened
eight-Steps = append_step (at 5) (delete_record 8) tt eight_written no_step

abbrev both : List WalRecord
both = delete_record 7 ∷ (delete_record 8 ∷ [])

commit_replays_example : replay_bytes toy_codec eight_synced.file ≡ some (both, clean both 18)
unfolding opened
commit_replays_example =
    commit_replays toy_codec toy-IsFaithful (at 0) seven (group 10) (delete_record 7 ∷ [])
      (clean (delete_record 7 ∷ []) 9) seven_replay refl eight (delete_record 8 ∷ []) eight-Steps
      (at 7) eight_synced tt eight_committed

commit_durable_example :
    replay_bytes toy_codec (take 20 eight_synced.file) ≡ some (both, clean both 18)
unfolding opened
commit_durable_example =
    commit_durable toy_codec toy-IsFaithful (at 0) seven (group 10) (delete_record 7 ∷ [])
      (clean (delete_record 7 ∷ []) 9) seven_replay refl eight (delete_record 8 ∷ []) eight-Steps
      (at 7) eight_synced tt 20 (λ e. cc e) eight_committed (omega arith)

-- What a crash leaves of the log before the commit: the file, without the buffer.
crash_prefix_example : (lost : List WalRecord) × (both ≡ (delete_record 7 ∷ []) ++ lost)
unfolding opened
crash_prefix_example =
    crash_prefix toy_codec toy-IsFaithful (at 0) seven (group 10) (delete_record 7 ∷ [])
      (clean (delete_record 7 ∷ []) 9) seven_replay refl eight (delete_record 8 ∷ []) eight-Steps 9
      (delete_record 7 ∷ []) (clean (delete_record 7 ∷ []) 9) seven_replay

abbrev framed : List ℕ
framed = 71 ∷ 86 ∷ 77 ∷ 68 ∷ 2 ∷ 0 ∷ 0 ∷ 0 ∷ 1 ∷ 0 ∷ 0 ∷ 0 ∷ 0 ∷ 0 ∷ 0 ∷ 0 ∷ 5 ∷ 54 ∷ 1 ∷ 0 ∷ 0 ∷ []

framed_encode : encode_framed toy_codec metadata_magic (delete_record 5) ≡ done framed
unfolding encode_framed toy_codec to_le_bytes
framed_encode = refl

decode-encode_framed_example :
    decode_framed toy_codec metadata_magic framed ≡ done (delete_record 5)
decode-encode_framed_example =
    decode-encode_framed toy_codec toy-IsFaithful metadata_magic framed (delete_record 5) refl
      framed_encode (omega arith)

decode_framed-IsFramed_example :
    (decode_framed toy_codec metadata_magic framed ≡ done (delete_record 5))
    ↔ IsFramed toy_codec metadata_magic framed (delete_record 5)
decode_framed-IsFramed_example =
    decode_framed-IsFramed toy_codec metadata_magic framed (delete_record 5)

-- A manifest of one segment and a log.
abbrev manifest : Manifest ℕ
manifest = record {
  generation = 2;
  dim = 2;
  metric = l2;
  hnsw_params = 16;
  seal_threshold = 10;
  max_segments = 4;
  segments =
      record { file = "segment-000001-00.gvdb"; crc32 = 0; records = 1; tombstones = [] } ∷ [];
  metadata_file = none;
  metadata_crc = 0;
  wal_file = some "wal-000002.log";
  created_unix_secs = 0;
}

abbrev listing : List (Option String)
listing = some "MANIFEST" ∷ some "wal-000001.log" ∷ some "wal-000002.log" ∷ some "notes.txt" ∷ []

gc_unreferenced-keeps_example :
    let out = gc_unreferenced manifest (λ f. true) (some listing) in
    ((name : String)
      → anyb (λ k. k == name) out.0 ≡ true
      → (is_ours name ≡ true) × (needs manifest name ≡ false))
    × ((total : ℕ)
        → out.1 ≡ done total
        → (entries : List (Option String)) × ((some listing ≡ some entries)
            × (length out.0 ≡ total)
            × ((name : String)
                → anyb (λ k. k == name) out.0
                  ≡ (lists name entries && (is_ours name && not (needs manifest name) && true)))))
gc_unreferenced-keeps_example = gc_unreferenced-keeps manifest (λ f. true) (some listing)

old_log_removed :
    gc_unreferenced manifest (λ f. true) (some listing) ≡ ("wal-000001.log" ∷ [], done 1)
unfolding gc_unreferenced
old_log_removed = refl

-- An entry that cannot be read ends the collection with what was removed before it.
unreadable_entry :
    gc_unreferenced manifest (λ f. true) (some (some "wal-000001.log" ∷ none ∷ []))
    ≡ ("wal-000001.log" ∷ [], failed io)
unfolding gc_unreferenced
unreadable_entry = refl
