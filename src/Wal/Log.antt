-- ===== src/Wal/Log.antt =====
-- src/storage/wal.rs: the log being written, `Wal`, with its sync policies. The file below it is
-- what the operating system holds, the `BufWriter` what it does not hold yet, and `synced` how many
-- bytes of the file an fsync has made durable.
pub mod Syncs
pub mod Adds
pub mod Results
pub mod Durability
use gvector.Prelude.{
  ℕ, zero, suc, ◌+◌, ◌-◌, refl, Bool, true, false, ◌&&◌, Option, none, some, List, [], ◌++◌, ltb,
  leb, if◌then◌else◌, length, take, drop, nat_key, string_key,
}
use Prim.{Unit, tt}
use gvector.Storage.{StorageResult, done, failed, io, invalid_input, encode}
use gvector.Storage.Codec.{Codec}
use gvector.Wal.{WalRecord, max_record_bytes, frame}

pub data SyncPolicy : Type 0 where
  none_sync : SyncPolicy
  per_op : SyncPolicy
  group : ℕ → SyncPolicy

-- `path` is left out: it names the file that `file` holds.
pub record Wal : Type 0 where
  pub file : List ℕ
  pub buffer : List ℕ
  pub synced : ℕ
  pub policy : SyncPolicy
  pub bytes : ℕ
  pub records : ℕ
  pub dirty : Bool
  pub last_sync : ℕ

-- How the system answers the calls that one operation makes: how many bytes of a record the writer
-- takes before it fails, if it does; how many bytes it moves to the file of its own accord; how
-- many a flush moves before it fails, if it does; whether an fsync succeeds; and the time.
pub record System : Type 0 where
  pub write_fails : Option ℕ
  pub spilled : ℕ
  pub flush_fails : Option ℕ
  pub sync_succeeds : Bool
  pub now : ℕ

-- The bytes that were appended, on their way to the disk or there.
abbrev pub content : Wal → List ℕ
content w = w.file ++ w.buffer

-- `Wal::open_append` on a file that holds `file`, of which `synced` bytes are durable, where opening it
-- and reading its length succeed.
unfoldable pub open_append : System → List ℕ → ℕ → SyncPolicy → Wal
open_append sys file synced policy = record {
  file = file;
  buffer = [];
  synced = synced;
  policy = policy;
  bytes = length file;
  records = 0;
  dirty = false;
  last_sync = sys.now;
}

-- `n` bytes of the buffer go to the file.
pub spill : ℕ → Wal → Wal
spill n w = record w { file = w.file ++ take n w.buffer; buffer = drop n w.buffer }

-- `BufWriter::flush`
pub flush : System → Wal → Wal × StorageResult Unit
unfolding spill
flush sys w = elim sys.flush_fails [
  | none ↦ (record w { file = w.file ++ w.buffer; buffer = [] }, done tt)
  | some n ↦ (spill n w, failed io)
]

-- `write_all` of the parts of a record
write_all : System → List ℕ → Wal → Wal × StorageResult Unit
unfolding spill
write_all sys written w = elim sys.write_fails [
  | none ↦ (spill sys.spilled (record w { buffer = w.buffer ++ written }), done tt)
  | some n ↦ (spill sys.spilled (record w { buffer = w.buffer ++ take n written }), failed io)
]

-- `self.last_sync.elapsed() >= Duration::from_millis(window_ms)`
is_due : System → Wal → ℕ → Bool
is_due sys w window_ms = leb window_ms (sys.now - w.last_sync)

sync_flushed : System → Wal × StorageResult Unit → Wal × StorageResult Unit
sync_flushed sys (w, failed e) = (w, failed e)
sync_flushed sys (w, done u) =
    if w.dirty
    then if sys.sync_succeeds
      then (record w { synced = length w.file; dirty = false; last_sync = sys.now }, done tt)
      else (w, failed io)
    else (record w { last_sync = sys.now }, done tt)

-- `Wal::sync`
unfoldable pub sync : System → Wal → Wal × StorageResult Unit
unfolding flush sync_flushed
sync sys w = sync_flushed sys (flush sys w)

pub append_written : System → List ℕ → Wal × StorageResult Unit → Wal × StorageResult Unit
unfolding sync flush is_due
append_written sys payload (w, failed e) = (w, failed e)
append_written sys payload (w, done u) =
    let w' = record w {
      bytes = w.bytes + (8 + length payload);
      records = w.records + 1;
      dirty = true;
    } in
    elim w.policy [
      | none_sync ↦ flush sys w'
      | per_op ↦ sync sys w'
      | group window_ms ↦ if is_due sys w' window_ms then sync sys w' else (w', done tt)
    ]

-- `Wal::append`
unfoldable pub append : Codec WalRecord → System → WalRecord → Wal → Wal × StorageResult Unit
unfolding append_written write_all
append c sys rec w = elim (c.serialize rec) [
  | none ↦ (w, failed encode)
  | some payload ↦
      if ltb max_record_bytes (length payload)
      then (w, failed invalid_input)
      else append_written sys payload (write_all sys (frame c payload) w)
]

answer : Bool → Wal × StorageResult Unit → Wal × StorageResult Bool
answer b (w, done u) = (w, done b)
answer b (w, failed e) = (w, failed e)

-- `Wal::sync_if_due`
unfoldable pub sync_if_due : System → Wal → Wal × StorageResult Bool
unfolding sync is_due answer
sync_if_due sys w = elim w.policy [
  | group window_ms ↦
      if w.dirty && is_due sys w window_ms then answer true (sync sys w) else (w, done false)
  | none_sync ↦ (w, done false)
  | per_op ↦ (w, done false)
]

-- `Wal::commit`
unfoldable pub commit : System → Wal → Wal × StorageResult Unit
unfolding sync flush
commit sys w = elim w.policy [
  | none_sync ↦ flush sys w
  | per_op ↦ sync sys w
  | group window_ms ↦ sync sys w
]
