-- ===== src/Memory/Methods.antt =====
-- src/storage/memory.rs: what the methods of the storage do to a stream while they hold its lock.
use durable_streams_referenc.Prelude.{
  ℕ, zero, suc, ◌+◌, Bool, true, false, Option, none, some, List, [], ◌∷◌, leb, if◌then◌else◌,
  length, is_empty, map, drop,
}
use durable_streams_referenc.Prelude.Search.{binary_search_by, index_of}
use durable_streams_referenc.Prelude.Text.{Bytes, Text}
use durable_streams_referenc.Prelude.Word.{to_u64}
use durable_streams_referenc.Prelude.Dict.{lookup, insert}
use durable_streams_referenc.Error.{stream_expired, stream_closed, Result, ok, err}
use durable_streams_referenc.Error.Exec.{Exec, pure, lift, gets, raise_if, ◌>>=◌, ◌>>◌}
use Prim.Native.Nat.{Ordering}
use durable_streams_referenc.Offset.{Offset, is_now, is_start, cmp}
use durable_streams_referenc.Producer.{ProducerHeaders}
pub use durable_streams_referenc.Storage.{Readings}
use durable_streams_referenc.Storage.{
  DateTime, Message, byte_len_of, ReadResult, StreamMetadata, ProducerAppendResult, accepted,
  ProducerCheck, accept, is_stream_expired, validate_content_type, validate_seq,
  cleanup_stale_producers, check_producer,
}
use durable_streams_referenc.Memory.Entry.{
  StreamEntry, Limits, Held, tail_offset, reserve, check_stream_size, push_message, on_stream, send,
  commit_messages,
}

-- `append`, from the lock on. It sends no notification.
unfoldable pub append_held : Limits → Bytes → Text → DateTime → Exec Held Offset
append_held l body content_type now = do
  stream ← gets (λ h. h.stream)
  raise_if (is_stream_expired stream.config now) stream_expired
  raise_if stream.closed stream_closed
  lift (validate_content_type stream.config.content_type content_type)
  let byte_len : ℕ = byte_len_of body
  reserve l byte_len
  check_stream_size l byte_len
  offset ← gets (λ h. tail_offset h.stream)
  on_stream (push_message body)
  pure offset

unfoldable pub commit_seq : Option Text → StreamEntry → StreamEntry
commit_seq none e = e
commit_seq (some seq) e = record e { last_seq = some seq }

-- `batch_append`, from the lock on.
unfoldable pub batch_append_held :
    Limits → List Bytes → Text → Option Text → DateTime → Exec Held Offset
unfolding commit_seq
batch_append_held l messages content_type seq now = do
  stream ← gets (λ h. h.stream)
  raise_if (is_stream_expired stream.config now) stream_expired
  raise_if stream.closed stream_closed
  lift (validate_content_type stream.config.content_type content_type)
  pending_seq ← lift (validate_seq stream.last_seq seq)
  commit_messages l messages
  on_stream (commit_seq pending_seq)
  gets (λ h. tail_offset h.stream)

unfoldable pub close_if : Bool → StreamEntry → StreamEntry
close_if true e = record e { closed = true }
close_if false e = e

unfoldable pub record_producer : ProducerHeaders → DateTime → StreamEntry → StreamEntry
record_producer p now e = record e {
  producers =
      insert p.id (record { epoch = p.epoch; last_seq = p.seq; updated_at = now }) e.producers;
}

-- What follows an accepted check.
unfoldable pub accept_append :
    Limits
    → List Bytes
    → ProducerHeaders
    → Bool
    → Option Text
    → DateTime
    → Exec Held ProducerAppendResult
unfolding commit_seq record_producer
accept_append l messages p should_close seq now = do
  last_seq ← gets (λ h. h.stream.last_seq)
  pending_seq ← lift (validate_seq last_seq seq)
  commit_messages l messages
  on_stream (commit_seq pending_seq)
  on_stream (close_if should_close)
  on_stream (record_producer p now)
  gets (λ h. accepted p.epoch p.seq (tail_offset h.stream) h.stream.closed)

-- `append_with_producer`, from the lock on.
unfoldable pub append_with_producer_held :
    Limits
    → List Bytes
    → Text
    → ProducerHeaders
    → Bool
    → Option Text
    → Readings
    → Exec Held ProducerAppendResult
append_with_producer_held l messages content_type p should_close seq at = do
  config ← gets (λ h. h.stream.config)
  raise_if (is_stream_expired config at.expiry) stream_expired
  on_stream (λ e. record e { producers = cleanup_stale_producers at.cleanup e.producers })
  lift (if is_empty messages then ok tt else validate_content_type config.content_type content_type)
  e ← gets (λ h. h.stream)
  check ← lift (check_producer (lookup p.id e.producers) p e.closed)
  elim check [
    | ProducerCheck.duplicate epoch last ↦
        pure (ProducerAppendResult.duplicate epoch last (tail_offset e) e.closed)
    | accept ↦ accept_append l messages p should_close seq at.stamp
  ]

-- `close_stream`, from the lock on.
unfoldable pub close_held : DateTime → Exec Held (Unit {0})
close_held now = do
  config ← gets (λ h. h.stream.config)
  raise_if (is_stream_expired config now) stream_expired
  on_stream (λ e. send (record e { closed = true }))

-- How the message at an index compares with the offset that is asked for.
unfoldable pub order_at : List Message → Offset → ℕ → Ordering
order_at [] from i = Ordering.gt
order_at (m ∷ messages) from zero = cmp m.offset from
order_at (m ∷ messages) from (suc i) = order_at messages from i

-- `read`, from the lock on.
unfoldable pub start_index : List Message → Offset → ℕ
start_index messages from =
    if is_start from
    then 0
    else index_of (binary_search_by (order_at messages from) (length messages))

unfoldable pub read_held : Offset → DateTime → StreamEntry → Result ReadResult
read_held from now e =
    if is_stream_expired e.config now
    then err stream_expired
    else if is_now from
    then ok
        (record { messages = []; next_offset = tail_offset e; at_tail = true; closed = e.closed })
    else let start_idx = start_index e.messages from in
      let messages = map (λ (m : Message). m.body) (drop start_idx e.messages) in
      ok (record {
        messages = messages;
        next_offset = tail_offset e;
        at_tail = leb (length e.messages) (start_idx + length messages);
        closed = e.closed;
      })

-- `head`, from the lock on.
unfoldable pub head_held : DateTime → StreamEntry → Result StreamMetadata
head_held now e =
    if is_stream_expired e.config now
    then err stream_expired
    else ok (record {
      config = e.config;
      next_offset = tail_offset e;
      closed = e.closed;
      total_bytes = e.total_bytes;
      message_count = to_u64 (length e.messages);
      created_at = e.created_at;
    })
