-- ===== src/File/Entry.antt =====
-- src/storage/file.rs: one stream of the file storage, `StreamEntry`, with its log and its metadata
-- file. What the operating system answers to each call on a file is an argument, `LogIo` and `MetaIo`.
use durable_streams_referenc.Prelude.{
  ℕ, ◌+◌, Bool, true, false, Option, none, some, List, [], ◌∷◌, ◌++◌, ltb, if◌then◌else◌, length,
  take,
}
use durable_streams_referenc.Prelude.Text.{Bytes, Text, codes}
use durable_streams_referenc.Prelude.Word.{u64_add, saturating_sub}
use durable_streams_referenc.Prelude.Dict.{Dict}
use durable_streams_referenc.Error.{
  Error, invalid_header, memory_limit_exceeded, stream_size_limit_exceeded, Result, ok, err,
}
use durable_streams_referenc.Error.Exec.{Exec, pure, lift, modify, ◌>>=◌, ◌>>◌}
use durable_streams_referenc.Offset.{Offset, new}
use durable_streams_referenc.Storage.{DateTime, StreamConfig, byte_len_of, ProducerState}
use durable_streams_referenc.Memory.Entry.{Limits}
use durable_streams_referenc.File.Record.{record_header_bytes, u32_max, write_buf, MessageIndex}
use durable_streams_referenc.File.Dir.{failed_at}

pub record StreamMeta : Type 0 where
  pub name : Text
  pub config : StreamConfig
  pub closed : Bool
  pub created_at : DateTime
  pub last_seq : Option Text
  pub producers : Dict ProducerState

-- `file` is the contents of the log, which only this entry writes. `notify` counts the sends.
pub record StreamEntry : Type 0 where
  pub config : StreamConfig
  pub index : List MessageIndex
  pub closed : Bool
  pub next_read_seq : ℕ
  pub next_byte_offset : ℕ
  pub total_bytes : ℕ
  pub created_at : DateTime
  pub producers : Dict ProducerState
  pub notify : ℕ
  pub last_seq : Option Text
  pub file : Bytes
  pub file_len : ℕ
  pub dir : Text

-- `file.metadata().map_or(0, |m| m.len())`, by whether `metadata` succeeds.
len_or_zero : Bool → Bytes → ℕ
len_or_zero stat_ok file = if stat_ok then length file else 0

-- `StreamEntry::new`
unfoldable pub new_entry : StreamConfig → DateTime → (stat_ok : Bool) → Bytes → Text → StreamEntry
unfolding len_or_zero
new_entry config created_at stat_ok file dir = record {
  config = config;
  index = [];
  closed = false;
  next_read_seq = 0;
  next_byte_offset = 0;
  total_bytes = 0;
  created_at = created_at;
  producers = [];
  notify = 0;
  last_seq = none;
  file = file;
  file_len = len_or_zero stat_ok file;
  dir = dir;
}

-- The state that a method works on: the locked stream, its `meta.json`, and the global count.
pub record Locked : Type 0 where
  pub stream : StreamEntry
  pub meta : Option Bytes
  pub total_bytes : ℕ

-- `Offset::new(stream.next_read_seq, stream.next_byte_offset)`
unfoldable pub tail_of : StreamEntry → Offset
tail_of e = new e.next_read_seq e.next_byte_offset

abbrev pub too_large : Error
unfolding codes
too_large =
    invalid_header (codes "Content-Length") (codes "message too large for file record format")

-- The loop over the sizes: `total_batch_bytes`, unless a message does not fit a record.
unfoldable pub batch_size : List Bytes → ℕ → Result ℕ
batch_size [] total = ok total
batch_size (msg ∷ messages) total =
    let rest = batch_size messages (u64_add total (byte_len_of msg)) in
    if ltb u32_max (byte_len_of msg) then err too_large else rest

-- The check of both limits and the reservation, under the lock of the global count.
unfoldable pub check_and_reserve : Limits → ℕ → Exec Locked (Unit {0})
check_and_reserve l batch h =
    if ltb l.max_total_bytes (u64_add h.total_bytes batch)
    then (err memory_limit_exceeded, h)
    else if ltb l.max_stream_bytes (u64_add h.stream.total_bytes batch)
    then (err stream_size_limit_exceeded, h)
    else (ok tt, record h { total_bytes = u64_add h.total_bytes batch })

unfoldable pub rollback_total_bytes : ℕ → Locked → Locked
rollback_total_bytes bytes h = record h { total_bytes = saturating_sub h.total_bytes bytes }

-- `write_all` fails with an error and the number of bytes that it wrote before; `sync_data` fails
-- with an error. `stat_ok` tells whether `metadata` then succeeds.
pub record LogIo : Type 0 where
  pub write_all : Option (Text × ℕ)
  pub sync_data : Option Text
  pub stat_ok : Bool

-- The bytes at the end of the log, which is opened to append.
unfoldable pub append_file : Bytes → Locked → Locked
append_file raw h = record h { stream = record (h.stream) { file = h.stream.file ++ raw } }

-- `if let Ok(m) = stream.file.metadata() { stream.file_len = m.len(); }`
unfoldable pub refresh_len : Bool → Locked → Locked
refresh_len stat_ok h =
    if stat_ok
    then record h { stream = record (h.stream) { file_len = length h.stream.file } }
    else h

unfoldable pub write_log : LogIo → Text → Bytes → ℕ → Exec Locked (Unit {0})
unfolding codes
write_log io name raw batch h = elim io.write_all [
  | none ↦ (ok tt, append_file raw h)
  | some (e, written) ↦ (
    err (failed_at (codes "failed to append stream log for ") name e),
    rollback_total_bytes batch (refresh_len io.stat_ok (append_file (take written raw) h)),
  )
]

unfoldable pub sync_log : Bool → LogIo → Text → ℕ → Exec Locked (Unit {0})
unfolding codes
sync_log false io name batch h = (ok tt, h)
sync_log true io name batch h = elim io.sync_data [
  | none ↦ (ok tt, h)
  | some e ↦ (
    err (failed_at (codes "failed to sync stream log for ") name e),
    rollback_total_bytes batch (refresh_len io.stat_ok h),
  )
]

-- One round of the last loop, at `cursor`.
unfoldable pub push_record : ℕ → ℕ → StreamEntry → StreamEntry
push_record cursor len e = record e {
  index =
      e.index
      ++ record { offset = tail_of e; file_pos = cursor + record_header_bytes; byte_len = len }
        ∷ [];
  next_read_seq = u64_add e.next_read_seq 1;
  next_byte_offset = u64_add e.next_byte_offset len;
  total_bytes = u64_add e.total_bytes len;
}

-- The last loop, and `stream.file_len = cursor`.
unfoldable pub push_records : ℕ → List Bytes → StreamEntry → StreamEntry
push_records cursor [] e = record e { file_len = cursor }
push_records cursor (msg ∷ messages) e =
    push_records (cursor + (record_header_bytes + byte_len_of msg)) messages
      (push_record cursor (byte_len_of msg) e)

-- `stream.notify.send(())`
unfoldable pub notify_all : StreamEntry → StreamEntry
notify_all e = record e { notify = e.notify + 1 }

abbrev pub on_entry : (StreamEntry → StreamEntry) → Exec Locked (Unit {0})
on_entry f = modify (λ h. record h { stream = f h.stream })

unfoldable pub append_records :
    Limits → (sync_on_append : Bool) → LogIo → Text → List Bytes → Exec Locked (Unit {0})
append_records l sync_on_append io name [] = pure tt
append_records l sync_on_append io name (m ∷ messages) = do
  batch ← lift (batch_size (m ∷ messages) 0)
  check_and_reserve l batch
  write_log io name (write_buf (m ∷ messages)) batch
  sync_log sync_on_append io name batch
  on_entry (λ e. notify_all (push_records e.file_len (m ∷ messages) e))
