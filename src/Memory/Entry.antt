-- ===== src/Memory/Entry.antt =====
-- src/storage/memory.rs: one stream of the in-memory storage, `StreamEntry`, and the commit of a
-- batch under the stream's lock. A method that holds the lock sees the entry and the storage's
-- global byte count, an atomic that is read and written in single steps.
use durable_streams_referenc.Prelude.{
  ℕ, ◌+◌, Bool, false, Option, none, some, List, [], ◌∷◌, ◌++◌, leb, ltb, if◌then◌else◌,
}
use durable_streams_referenc.Prelude.Text.{Bytes, Text}
use durable_streams_referenc.Prelude.Word.{u64_add, checked_add, saturating_sub}
use durable_streams_referenc.Prelude.Dict.{Dict}
use durable_streams_referenc.Error.{memory_limit_exceeded, stream_size_limit_exceeded, ok, err}
use durable_streams_referenc.Error.Exec.{Exec, pure, modify, ◌>>◌}
use durable_streams_referenc.Offset.{Offset, new}
use durable_streams_referenc.Storage.{
  DateTime, StreamConfig, Message, byte_len_of, new_message, ProducerState,
}

-- `notify` counts the sends on the stream's broadcast channel.
pub record StreamEntry : Type 0 where
  pub config : StreamConfig
  pub messages : List Message
  pub closed : Bool
  pub next_read_seq : ℕ
  pub next_byte_offset : ℕ
  pub total_bytes : ℕ
  pub created_at : DateTime
  pub producers : Dict ProducerState
  pub notify : ℕ
  pub last_seq : Option Text

-- `StreamEntry::new`
unfoldable pub new_entry : StreamConfig → DateTime → StreamEntry
new_entry config created_at = record {
  config = config;
  messages = [];
  closed = false;
  next_read_seq = 0;
  next_byte_offset = 0;
  total_bytes = 0;
  created_at = created_at;
  producers = [];
  notify = 0;
  last_seq = none;
}

pub record Limits : Type 0 where
  pub max_total_bytes : ℕ
  pub max_stream_bytes : ℕ

-- The state that a method works on: the locked stream and the global byte count.
pub record Held : Type 0 where
  pub stream : StreamEntry
  pub total_bytes : ℕ

-- `Offset::new(stream.next_read_seq, stream.next_byte_offset)`
unfoldable pub tail_offset : StreamEntry → Offset
tail_offset e = new e.next_read_seq e.next_byte_offset

-- The first loop of `commit_messages`.
unfoldable pub batch_bytes : List Bytes → ℕ → ℕ
batch_bytes [] total = total
batch_bytes (body ∷ messages) total = batch_bytes messages (u64_add total (byte_len_of body))

-- The reservation of global bytes by `fetch_update`.
unfoldable pub reserve : Limits → ℕ → Exec Held (Unit {0})
reserve l batch h = elim (checked_add h.total_bytes batch) [
  | none ↦ (err memory_limit_exceeded, h)
  | some next ↦
      if leb next l.max_total_bytes
      then (ok tt, record h { total_bytes = next })
      else (err memory_limit_exceeded, h)
]

-- The stream's own limit, which gives the reservation back.
unfoldable pub check_stream_size : Limits → ℕ → Exec Held (Unit {0})
check_stream_size l batch h =
    if ltb l.max_stream_bytes (u64_add h.stream.total_bytes batch)
    then (
      err stream_size_limit_exceeded,
      record h { total_bytes = saturating_sub h.total_bytes batch },
    )
    else (ok tt, h)

unfoldable pub push_message : Bytes → StreamEntry → StreamEntry
push_message body e = record e {
  messages = e.messages ++ new_message (tail_offset e) body ∷ [];
  next_read_seq = u64_add e.next_read_seq 1;
  next_byte_offset = u64_add e.next_byte_offset (byte_len_of body);
  total_bytes = u64_add e.total_bytes (byte_len_of body);
}

-- The second loop of `commit_messages`; `message_sizes` holds `byte_len_of` of each message.
unfoldable pub push_messages : List Bytes → StreamEntry → StreamEntry
push_messages [] e = e
push_messages (body ∷ messages) e = push_messages messages (push_message body e)

-- `stream.notify.send(())`
unfoldable pub send : StreamEntry → StreamEntry
send e = record e { notify = e.notify + 1 }

abbrev pub on_stream : (StreamEntry → StreamEntry) → Exec Held (Unit {0})
on_stream f = modify (λ h. record h { stream = f h.stream })

unfoldable pub commit_messages : Limits → List Bytes → Exec Held (Unit {0})
commit_messages l [] = pure tt
commit_messages l (m ∷ messages) = do
  let batch : ℕ = batch_bytes (m ∷ messages) 0
  reserve l batch
  check_stream_size l batch
  on_stream (λ e. send (push_messages (m ∷ messages) e))
