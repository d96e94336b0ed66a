-- ===== src/File/Methods.antt =====
-- src/storage/file.rs: what the methods of the file storage do to a stream while they hold its lock.
use durable_streams_referenc.Prelude.{
  ℕ, zero, suc, ◌+◌, Bool, true, false, Option, none, some, List, [], ◌∷◌, leb, if◌then◌else◌,
  length, is_empty, drop, Ordering,
}
use durable_streams_referenc.Prelude.Search.{binary_search_by, index_of}
use durable_streams_referenc.Prelude.Text.{Bytes, Text}
use durable_streams_referenc.Prelude.Word.{to_u64}
use durable_streams_referenc.Prelude.Dict.{lookup, insert}
use durable_streams_referenc.Error.{stream_expired, stream_closed, Result, ok, err}
use durable_streams_referenc.Error.Exec.{Exec, pure, lift, gets, raise_if, ◌>>=◌, ◌>>◌}
use durable_streams_referenc.Offset.{Offset, is_now, is_start, cmp}
use durable_streams_referenc.Producer.{ProducerHeaders}
use durable_streams_referenc.Storage.{
  DateTime, Readings, ReadResult, StreamMetadata, ProducerAppendResult, accepted, ProducerCheck,
  accept, is_stream_expired, validate_content_type, validate_seq, cleanup_stale_producers,
  check_producer,
}
use durable_streams_referenc.Memory.Entry.{Limits}
use durable_streams_referenc.File.Record.{MessageIndex}
use durable_streams_referenc.File.Dir.{Roots}
use durable_streams_referenc.File.Entry.{
  StreamEntry, Locked, LogIo, tail_of, append_records, on_entry, notify_all,
}
use durable_streams_referenc.File.Meta.{
  MetaFormat, MetaIo, ReadIo, write_metadata_for, read_messages,
}

-- The fields of `FileStorage` that do not change.
pub record Settings : Type 0 where
  pub limits : Limits
  pub roots : Roots
  pub sync_on_append : Bool
  pub format : MetaFormat

-- The calls of one method on the log and on the metadata file.
pub record Io : Type 0 where
  pub log : LogIo
  pub meta : MetaIo

-- `append`, from the lock on. Metadata is not written.
unfoldable pub append_locked : Settings → Io → Text → Bytes → Text → DateTime → Exec Locked Offset
append_locked st io name body content_type now = do
  stream ← gets (λ h. h.stream)
  raise_if (is_stream_expired stream.config now) stream_expired
  raise_if stream.closed stream_closed
  lift (validate_content_type stream.config.content_type content_type)
  let offset : Offset = tail_of stream
  append_records st.limits st.sync_on_append io.log name (body ∷ [])
  pure offset

-- An error of `write_metadata_for` that is only logged.
unfoldable pub persist_best_effort : Settings → MetaIo → Text → Exec Locked (Unit {0})
persist_best_effort st io name h = (ok tt, (write_metadata_for st.roots st.format io name h).1)

-- A new `Stream-Seq` is recorded and persisted.
unfoldable pub record_seq : Settings → MetaIo → Text → Option Text → Exec Locked (Unit {0})
record_seq st io name none = pure tt
record_seq st io name (some new_seq) = do
  on_entry (λ e. record e { last_seq = some new_seq })
  persist_best_effort st io name

-- `batch_append`, from the lock on.
unfoldable pub batch_append_locked :
    Settings → Io → Text → List Bytes → Text → Option Text → DateTime → Exec Locked Offset
unfolding record_seq
batch_append_locked st io name messages content_type seq now = do
  stream ← gets (λ h. h.stream)
  raise_if (is_stream_expired stream.config now) stream_expired
  raise_if stream.closed stream_closed
  lift (validate_content_type stream.config.content_type content_type)
  pending_seq ← lift (validate_seq stream.last_seq seq)
  append_records st.limits st.sync_on_append io.log name messages
  record_seq st io.meta name pending_seq
  gets (λ h. tail_of h.stream)

unfoldable pub set_closed_if : Bool → StreamEntry → StreamEntry
set_closed_if true e = record e { closed = true }
set_closed_if false e = e

unfoldable pub set_seq : Option Text → StreamEntry → StreamEntry
set_seq none e = e
set_seq (some seq) e = record e { last_seq = some seq }

unfoldable pub set_producer : ProducerHeaders → DateTime → StreamEntry → StreamEntry
set_producer p now e = record e {
  producers =
      insert p.id (record { epoch = p.epoch; last_seq = p.seq; updated_at = now }) e.producers;
}

-- What follows an accepted check.
unfoldable pub commit_producer :
    Settings
    → Io
    → Text
    → List Bytes
    → ProducerHeaders
    → Bool
    → Option Text
    → DateTime
    → Exec Locked ProducerAppendResult
unfolding set_seq set_producer
commit_producer st io name messages p should_close seq now = do
  last_seq ← gets (λ h. h.stream.last_seq)
  pending_seq ← lift (validate_seq last_seq seq)
  append_records st.limits st.sync_on_append io.log name messages
  on_entry (set_seq pending_seq)
  on_entry (set_closed_if should_close)
  on_entry (set_producer p now)
  persist_best_effort st io.meta name
  gets (λ h. accepted p.epoch p.seq (tail_of h.stream) h.stream.closed)

-- `append_with_producer`, from the lock on.
unfoldable pub append_with_producer_locked :
    Settings
    → Io
    → Text
    → List Bytes
    → Text
    → ProducerHeaders
    → Bool
    → Option Text
    → Readings
    → Exec Locked ProducerAppendResult
append_with_producer_locked st io name messages content_type p should_close seq at = do
  config ← gets (λ h. h.stream.config)
  raise_if (is_stream_expired config at.expiry) stream_expired
  on_entry (λ e. record e { producers = cleanup_stale_producers at.cleanup e.producers })
  lift (if is_empty messages then ok tt else validate_content_type config.content_type content_type)
  e ← gets (λ h. h.stream)
  check ← lift (check_producer (lookup p.id e.producers) p e.closed)
  elim check [
    | ProducerCheck.duplicate epoch last ↦
        pure (ProducerAppendResult.duplicate epoch last (tail_of e) e.closed)
    | accept ↦ commit_producer st io name messages p should_close seq at.stamp
  ]

-- `close_stream`, from the lock on: an error of the metadata leaves the stream closed.
unfoldable pub close_locked : Settings → MetaIo → Text → DateTime → Exec Locked (Unit {0})
close_locked st io name now = do
  config ← gets (λ h. h.stream.config)
  raise_if (is_stream_expired config now) stream_expired
  on_entry (λ e. record e { closed = true })
  write_metadata_for st.roots st.format io name
  on_entry notify_all

-- How the message at an index compares with the offset that is asked for.
unfoldable pub index_order : List MessageIndex → Offset → ℕ → Ordering
index_order [] from i = Ordering.gt
index_order (m ∷ index) from zero = cmp m.offset from
index_order (m ∷ index) from (suc i) = index_order index from i

unfoldable pub start_idx_of : List MessageIndex → Offset → ℕ
start_idx_of index from =
    if is_start from then 0 else index_of (binary_search_by (index_order index from) (length index))

unfoldable pub read_result :
    StreamEntry → ℕ → Option (Result (List Bytes)) → Option (Result ReadResult)
read_result e start_idx none = none
read_result e start_idx (some (err x)) = some (err x)
read_result e start_idx (some (ok messages)) = some (
    ok (record {
      messages = messages;
      next_offset = tail_of e;
      at_tail = leb (length e.index) (start_idx + length messages);
      closed = e.closed;
    }))

-- `read`, from the lock on; `none` is a panic.
unfoldable pub read_locked : ReadIo → Offset → DateTime → StreamEntry → Option (Result ReadResult)
unfolding read_result
read_locked io from now e =
    if is_stream_expired e.config now
    then some (err stream_expired)
    else if is_now from
    then some
        (ok (record { messages = []; next_offset = tail_of e; at_tail = true; closed = e.closed }))
    else let start_idx = start_idx_of e.index from in
      read_result e start_idx (read_messages io e.file (drop start_idx e.index))

-- `head`, from the lock on.
unfoldable pub head_locked : DateTime → StreamEntry → Result StreamMetadata
head_locked now e =
    if is_stream_expired e.config now
    then err stream_expired
    else ok (record {
      config = e.config;
      next_offset = tail_of e;
      closed = e.closed;
      total_bytes = e.total_bytes;
      message_count = to_u64 (length e.index);
      created_at = e.created_at;
    })
