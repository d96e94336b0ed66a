-- ===== src/Memory.antt =====
-- src/storage/memory.rs: the in-memory storage. A method that takes the lock of one stream works
-- on that entry and the byte count (`Memory.Entry`); it is modelled as one step, the entry read
-- from the map and written back.
pub mod Entry
pub mod Methods
pub mod Layout
pub mod Commit
pub mod Accounts
pub mod Invariant
pub mod Reach
pub mod Reads
pub mod Resume
pub mod Atomic
pub mod Delivery
pub mod Retry
pub mod Creation
pub mod Implementation
mod Examples
use durable_streams_referenc.Prelude.{
  ℕ, Bool, true, false, Option, none, some, List, [], ◌∷◌, not, if◌then◌else◌, is_empty,
}
use durable_streams_referenc.Prelude.Text.{Bytes, Text, codes}
use durable_streams_referenc.Prelude.Word.{saturating_sub}
use durable_streams_referenc.Prelude.Dict.{Dict, lookup, insert, remove}
use durable_streams_referenc.Error.{
  Error, not_found, config_mismatch, invalid_header, Result, ok, err, ◌>>=◌,
}
use durable_streams_referenc.Error.Exec.{Exec}
use durable_streams_referenc.Offset.{Offset}
use durable_streams_referenc.Producer.{ProducerHeaders}
use durable_streams_referenc.Storage.{
  DateTime, StreamConfig, config_eq, ReadResult, StreamMetadata, CreateStreamResult, created,
  already_exists, CreateWithDataResult, ProducerAppendResult, is_stream_expired,
}
use Entry.{StreamEntry, new_entry, Limits, Held, tail_offset, commit_messages}
use Methods.{
  append_held, batch_append_held, close_if, Readings, append_with_producer_held, close_held,
  read_held, head_held,
}

pub record InMemoryStorage : Type 0 where
  pub streams : Dict StreamEntry
  pub total_bytes : ℕ
  pub limits : Limits

-- `InMemoryStorage::new`
unfoldable pub new_storage : ℕ → ℕ → InMemoryStorage
new_storage max_total_bytes max_stream_bytes = record {
  streams = [];
  total_bytes = 0;
  limits = record { max_total_bytes = max_total_bytes; max_stream_bytes = max_stream_bytes };
}

-- The entry and the count after a method has run under the lock.
unfoldable pub write_back :
    {A : Type 0} → Text → InMemoryStorage → Result A × Held → Result A × InMemoryStorage
write_back name s (r, h) =
    (r, record s { streams = insert name h.stream s.streams; total_bytes = h.total_bytes })

-- `get_stream`, then the method under the stream's write lock.
unfoldable pub with_stream : {A : Type 0} → Text → Exec Held A → Exec InMemoryStorage A
unfolding write_back
with_stream name body s = elim (lookup name s.streams) [
  | none ↦ (err (not_found name), s)
  | some e ↦ write_back name s (body (record { stream = e; total_bytes = s.total_bytes }))
]

-- `get_stream`, then the method under the stream's read lock.
unfoldable pub read_stream :
    {A : Type 0} → Text → (StreamEntry → Result A) → InMemoryStorage → Result A
read_stream name body s = elim (lookup name s.streams) [
  | none ↦ err (not_found name)
  | some e ↦ body e
]

-- An expired entry is taken out of the map and its bytes out of the count.
unfoldable pub evict : Text → StreamEntry → InMemoryStorage → InMemoryStorage
evict name e s = record s {
  streams = remove name s.streams;
  total_bytes = saturating_sub s.total_bytes e.total_bytes;
}

pub insert_new : Text → StreamConfig → DateTime → Exec InMemoryStorage CreateStreamResult
insert_new name config created_at s =
    (ok created, record s { streams = insert name (new_entry config created_at) s.streams })

-- `create_stream`, with its two readings of the clock.
unfoldable pub create_stream :
    Text → StreamConfig → DateTime → DateTime → Exec InMemoryStorage CreateStreamResult
unfolding insert_new
create_stream name config now created_at s = elim (lookup name s.streams) [
  | none ↦ insert_new name config created_at s
  | some e ↦
      if is_stream_expired e.config now
      then insert_new name config created_at (evict name e s)
      else if config_eq e.config config
      then (ok already_exists, s)
      else (err config_mismatch, s)
]

unfoldable pub append : Text → Bytes → Text → DateTime → Exec InMemoryStorage Offset
append name body content_type now s =
    with_stream name (append_held s.limits body content_type now) s

abbrev pub empty_batch : Error
unfolding codes
empty_batch = invalid_header (codes "Content-Length") (codes "batch cannot be empty")

unfoldable pub batch_append :
    Text → List Bytes → Text → Option Text → DateTime → Exec InMemoryStorage Offset
batch_append name messages content_type seq now s =
    if is_empty messages
    then (err empty_batch, s)
    else with_stream name (batch_append_held s.limits messages content_type seq now) s

unfoldable pub read : Text → Offset → DateTime → InMemoryStorage → Result ReadResult
read name from now = read_stream name (read_held from now)

unfoldable pub delete : Text → Exec InMemoryStorage (Unit {0})
delete name s = elim (lookup name s.streams) [
  | none ↦ (err (not_found name), s)
  | some e ↦ (ok tt, evict name e s)
]

unfoldable pub head : Text → DateTime → InMemoryStorage → Result StreamMetadata
head name now = read_stream name (head_held now)

unfoldable pub close_stream : Text → DateTime → Exec InMemoryStorage (Unit {0})
close_stream name now = with_stream name (close_held now)

unfoldable pub append_with_producer :
    Text
    → List Bytes
    → Text
    → ProducerHeaders
    → Bool
    → Option Text
    → Readings
    → Exec InMemoryStorage ProducerAppendResult
append_with_producer name messages content_type p should_close seq at s =
    with_stream name
      (append_with_producer_held s.limits messages content_type p should_close seq at) s

-- The result of `create_stream_with_data` for an entry.
pub entry_result : CreateStreamResult → StreamEntry → CreateWithDataResult
entry_result status e = record { status = status; next_offset = tail_offset e; closed = e.closed }

pub insert_committed :
    Text
    → Bool
    → InMemoryStorage
    → Result (Unit {0}) × Held
    → Result CreateWithDataResult × InMemoryStorage
insert_committed name should_close s (err e, h) = (err e, record s { total_bytes = h.total_bytes })
insert_committed name should_close s (ok _, h) =
    let entry = close_if should_close h.stream in
    (
      ok (entry_result created entry),
      record s { streams = insert name entry s.streams; total_bytes = h.total_bytes },
    )

pub insert_with_data :
    Text → StreamConfig → List Bytes → Bool → DateTime → Exec InMemoryStorage CreateWithDataResult
insert_with_data name config messages should_close created_at s =
    insert_committed name should_close s (
      commit_messages s.limits messages
        (record { stream = new_entry config created_at; total_bytes = s.total_bytes }))

-- `create_stream_with_data`, with its two readings of the clock.
unfoldable pub create_stream_with_data :
    Text
    → StreamConfig
    → List Bytes
    → Bool
    → DateTime
    → DateTime
    → Exec InMemoryStorage CreateWithDataResult
unfolding entry_result insert_committed insert_with_data
create_stream_with_data name config messages should_close now created_at s =
    elim (lookup name s.streams) [
      | none ↦ insert_with_data name config messages should_close created_at s
      | some e ↦
          if is_stream_expired e.config now
          then insert_with_data name config messages should_close created_at (evict name e s)
          else if config_eq e.config config
          then (ok (entry_result already_exists e), s)
          else (err config_mismatch, s)
    ]

-- `exists`
unfoldable pub stream_exists : Text → DateTime → InMemoryStorage → Bool
stream_exists name now s = elim (lookup name s.streams) [
  | none ↦ false
  | some e ↦ not (is_stream_expired e.config now)
]

-- `subscribe`: a receiver gets the sends that come after the count at which it subscribed.
unfoldable pub subscribe : Text → DateTime → InMemoryStorage → Option ℕ
subscribe name now s = elim (lookup name s.streams) [
  | none ↦ none
  | some e ↦ if is_stream_expired e.config now then none else some e.notify
]
