-- ===== src/Handlers/Examples/Posting.antt =====
-- The theorems on POST requests at concrete ones.
use durable_streams_referenc.Prelude.{
  true, ◌≡◌, refl, none, some, [], ◌∷◌, arith, inr, if◌then◌else◌,
}
use durable_streams_referenc.Prelude.Text.{codes, text_eq}
use durable_streams_referenc.Prelude.Dict.{lookup, insert}
use durable_streams_referenc.Error.{ok}
use durable_streams_referenc.Offset.{new, as_str}
use durable_streams_referenc.Producer.{Headers, parse_producer_headers}
use durable_streams_referenc.Offset.Hex.{encode_offset}
use durable_streams_referenc.Storage.{
  is_stream_expired, validate_content_type, validate_seq, byte_len_of, new_message,
}
use durable_streams_referenc.Headers.{stream_next_offset, normalize_content_type}
use durable_streams_referenc.Prelude.Word.{checked_add, u64_add, to_u64}
use durable_streams_referenc.Handlers.Post.{append_data}
use durable_streams_referenc.JsonMode.{is_json_content_type}
use durable_streams_referenc.Http.{set_header, content_type_name}
use durable_streams_referenc.Memory.{
  InMemoryStorage, new_storage, create_stream, with_stream, batch_append,
}
use durable_streams_referenc.Memory.Methods.{batch_append_held}
use durable_streams_referenc.Memory.Entry.{
  StreamEntry, new_entry, commit_messages, reserve, check_stream_size, push_message, push_messages,
  batch_bytes, send, tail_offset,
}
use durable_streams_referenc.Memory.Layout.{size, layout}
use durable_streams_referenc.Memory.Commit.{IsCountable}
use durable_streams_referenc.Memory.Invariant.{IsConsistent}
use durable_streams_referenc.Memory.Reach.{do_create, here, next, Reach-IsConsistent}
use durable_streams_referenc.Handlers.{Calls}
use durable_streams_referenc.Handlers.Post.Closed.{conflict, append_data-closed}
use durable_streams_referenc.Handlers.Post.Laws.{fetched, append_data-delivered}
use durable_streams_referenc.Memory.Implementation.{memory_backend}
use durable_streams_referenc.Handlers.Examples.{
  serde, plain, at, empty_storage, reading, short_config, answer, hello, stream, first_text,
}

abbrev with_plain : InMemoryStorage
with_plain = (create_stream plain short_config 3 3 empty_storage).1

with_plain-IsConsistent : IsConsistent with_plain
with_plain-IsConsistent =
    Reach-IsConsistent 100 6 (omega arith)
      (next here (do_create empty_storage plain short_config 3 3))

abbrev entry : StreamEntry
entry = new_entry short_config 3

entry-IsCountable : IsCountable entry (hello ∷ [])
unfolding new_entry size layout
entry-IsCountable = record { bytes = omega arith; count = omega arith }

abbrev typed : Headers
unfolding text_eq
typed name = if text_eq name content_type_name then some plain else none

abbrev calls : Calls memory_backend
calls = record { first = at; others = λ s. s; second = at }

-- What the storage computes with.
running : Unit {0}
unfolding reading create_stream new_storage batch_append with_stream batch_append_held lookup insert
    is_stream_expired validate_content_type validate_seq commit_messages reserve check_stream_size
    push_message push_messages batch_bytes send tail_offset new_entry checked_add u64_add to_u64
    byte_len_of new_message new encode_offset
running = tt

with_plain-found : lookup plain with_plain.streams ≡ some entry
unfolding running
with_plain-found = refl

accepted :
    (batch_append plain (hello ∷ []) (normalize_content_type plain) none 1 with_plain).0
    ≡ ok (new 1 2)
unfolding running
accepted = refl

append_data-delivered_example :
    let (posted, s') = append_data memory_backend calls plain serde typed (inr hello) with_plain in
    (posted
      ≡ ok (record {
        status = 204;
        headers = set_header stream_next_offset (as_str (new 1 2)) [];
        body = [];
      }))
    × (fetched plain (tail_offset entry) at first_text plain s' ≡ ok (200, hello))
unfolding running parse_producer_headers is_json_content_type
append_data-delivered_example =
    append_data-delivered calls plain serde typed hello plain with_plain entry
      with_plain-IsConsistent with_plain-found entry-IsCountable (new 1 2) accepted at refl
      (λ e. cc) refl refl refl refl (λ t. refl) first_text plain refl

abbrev closed_stream : StreamEntry
closed_stream = record stream { closed = true }

abbrev with_closed : InMemoryStorage
with_closed = record empty_storage { streams = (plain, closed_stream) ∷ [] }

with_closed-found : lookup plain with_closed.streams ≡ some closed_stream
unfolding lookup text_eq plain codes empty_storage new_storage
with_closed-found = refl

append_data-closed_example :
    let (answer, s') = append_data memory_backend calls plain serde typed (inr hello) with_closed in
    (answer ≡ ok (conflict closed_stream))
    × (lookup plain s'.streams ≡ some closed_stream)
    × (s'.total_bytes ≡ 0)
unfolding running parse_producer_headers is_json_content_type
append_data-closed_example =
    append_data-closed calls plain serde typed hello plain with_closed closed_stream
      with_closed-found refl refl (λ e. cc) refl refl refl refl (λ t. refl) refl
