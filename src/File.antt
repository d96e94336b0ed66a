-- ===== src/File.antt =====
-- src/storage/file.rs: the storage that keeps each stream in an append-only log file. The operations take
-- what the operating system answers to their calls.
pub mod Record
pub mod Path
pub mod Dir
pub mod Containment
pub mod Entry
pub mod Meta
pub mod Methods
pub mod Disk
pub mod View
pub mod Refine
pub mod Failure
pub mod Contract
pub mod Reads
pub mod Startup
pub mod Restart
pub mod Durable
pub mod Simulation
mod Examples
use durable_streams_referenc.Prelude.{
  ℕ, Bool, true, false, not, Option, none, some, List, [], ◌∷◌, if◌then◌else◌, is_empty,
}
use durable_streams_referenc.Prelude.Text.{Bytes, Text}
use durable_streams_referenc.Prelude.Dict.{lookup}
use durable_streams_referenc.Error.{not_found, config_mismatch, Result, ok, err}
use durable_streams_referenc.Error.Exec.{Exec, pure, raise, ◌>>=◌, ◌>>◌}
use durable_streams_referenc.Offset.{Offset}
use durable_streams_referenc.Producer.{ProducerHeaders}
use durable_streams_referenc.Storage.{
  DateTime, Readings, StreamConfig, config_eq, ReadResult, StreamMetadata, CreateStreamResult,
  created, already_exists, CreateWithDataResult, ProducerAppendResult, is_stream_expired,
}
use durable_streams_referenc.Memory.{empty_batch}
use Entry.{StreamEntry, LogIo, tail_of, append_records}
use Meta.{ReadIo}
use Methods.{
  Settings, Io, append_locked, batch_append_locked, set_closed_if, append_with_producer_locked,
  close_locked, read_locked, head_locked,
}
use Disk.{
  FileStorage, with_locked, RemoveIo, drop_stream, CreateIo, open_entry, on_new, insert_entry,
}

-- The stream's log and metadata file, as a creation leaves them; `encode` is base64's.
new_stream :
    Settings
    → CreateIo
    → (encode : Bytes → Text) → Text
    → StreamConfig
    → DateTime
    → Exec FileStorage CreateStreamResult
new_stream st io encode name config created_at = do
  entry ← open_entry st io encode name config created_at
  insert_entry st io.meta name entry
  pure created

-- `create_stream`, with its two readings of the clock.
unfoldable pub create_stream :
    Settings
    → CreateIo
    → (encode : Bytes → Text) → Text
    → StreamConfig
    → DateTime
    → DateTime
    → Exec FileStorage CreateStreamResult
unfolding new_stream
create_stream st io encode name config now created_at s = elim (lookup name s.streams) [
  | none ↦ new_stream st io encode name config created_at s
  | some e ↦
      if is_stream_expired e.config now
      then (drop_stream st io.evicted name e >> new_stream st io encode name config created_at) s
      else if config_eq e.config config
      then (ok already_exists, s)
      else (err config_mismatch, s)
]

unfoldable pub append : Settings → Io → Text → Bytes → Text → DateTime → Exec FileStorage Offset
append st io name body content_type now =
    with_locked name (append_locked st io name body content_type now)

unfoldable pub batch_append :
    Settings → Io → Text → List Bytes → Text → Option Text → DateTime → Exec FileStorage Offset
batch_append st io name messages content_type seq now =
    if is_empty messages
    then raise empty_batch
    else with_locked name (batch_append_locked st io name messages content_type seq now)

-- `none` is a panic.
unfoldable pub read : ReadIo → Text → Offset → DateTime → FileStorage → Option (Result ReadResult)
read io name from now s = elim (lookup name s.streams) [
  | none ↦ some (err (not_found name))
  | some e ↦ read_locked io from now e
]

unfoldable pub delete : Settings → RemoveIo → Text → Exec FileStorage (Unit {0})
delete st io name s = elim (lookup name s.streams) [
  | none ↦ (err (not_found name), s)
  | some e ↦ drop_stream st io name e s
]

unfoldable pub head : Text → DateTime → FileStorage → Result StreamMetadata
head name now s = elim (lookup name s.streams) [
  | none ↦ err (not_found name)
  | some e ↦ head_locked now e
]

unfoldable pub close_stream : Settings → Io → Text → DateTime → Exec FileStorage (Unit {0})
close_stream st io name now = with_locked name (close_locked st io.meta name now)

unfoldable pub append_with_producer :
    Settings
    → Io
    → Text
    → List Bytes
    → Text
    → ProducerHeaders
    → Bool
    → Option Text
    → Readings
    → Exec FileStorage ProducerAppendResult
append_with_producer st io name messages content_type p should_close seq at =
    with_locked name
      (append_with_producer_locked st io name messages content_type p should_close seq at)

-- The result of `create_stream_with_data` for an entry.
with_data_result : CreateStreamResult → StreamEntry → CreateWithDataResult
with_data_result status e = record { status = status; next_offset = tail_of e; closed = e.closed }

new_stream_with_data :
    Settings
    → CreateIo
    → LogIo
    → (encode : Bytes → Text) → Text
    → StreamConfig
    → List Bytes
    → Bool
    → DateTime
    → Exec FileStorage CreateWithDataResult
new_stream_with_data st io log encode name config messages should_close created_at = do
  entry ← open_entry st io encode name config created_at
  filled ← on_new (append_records st.limits st.sync_on_append log name messages) entry
  insert_entry st io.meta name (set_closed_if should_close filled)
  pure (with_data_result created (set_closed_if should_close filled))

-- `create_stream_with_data`, with its two readings of the clock.
unfoldable pub create_stream_with_data :
    Settings
    → CreateIo
    → LogIo
    → (encode : Bytes → Text) → Text
    → StreamConfig
    → List Bytes
    → Bool
    → DateTime
    → DateTime
    → Exec FileStorage CreateWithDataResult
unfolding with_data_result new_stream_with_data
create_stream_with_data st io log encode name config messages should_close now created_at s =
    elim (lookup name s.streams) [
      | none ↦ new_stream_with_data st io log encode name config messages should_close created_at s
      | some e ↦
          if is_stream_expired e.config now
          then (drop_stream st io.evicted name e
                >> new_stream_with_data st io log encode name config messages should_close
                    created_at)
              s
          else if config_eq e.config config
          then (ok (with_data_result already_exists e), s)
          else (err config_mismatch, s)
    ]

-- `exists`
unfoldable pub stream_exists : Text → DateTime → FileStorage → Bool
stream_exists name now s = elim (lookup name s.streams) [
  | none ↦ false
  | some e ↦ not (is_stream_expired e.config now)
]

-- `subscribe`: a receiver gets the sends that come after the count at which it subscribed.
unfoldable pub subscribe : Text → DateTime → FileStorage → Option ℕ
subscribe name now s = elim (lookup name s.streams) [
  | none ↦ none
  | some e ↦ if is_stream_expired e.config now then none else some e.notify
]
