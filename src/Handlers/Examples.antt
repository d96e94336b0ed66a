-- ===== src/Handlers/Examples.antt =====
-- Requests, and the theorems on the handlers at them.
mod Reading
mod Posting
mod Creating
use durable_streams_referenc.Prelude.{
  ◌↔◌, inl, true, ◌≡◌, ◌↔◌, refl, false, none, some, [], ◌∷◌, arith, inr, if◌then◌else◌,
}
use durable_streams_referenc.Prelude.Text.{
  Bytes, Text, codes, text_eq, to_ascii_lowercase, eq_ignore_ascii_case,
}
use durable_streams_referenc.Prelude.Dict.{lookup, insert}
use durable_streams_referenc.Error.{ok}
use durable_streams_referenc.Offset.{new, as_str}
use durable_streams_referenc.Producer.{Headers, parse_producer_headers}
use durable_streams_referenc.Offset.Hex.{encode_offset}
use durable_streams_referenc.Storage.{
  StreamConfig, Readings, CreateWithDataResult, created, is_stream_expired, validate_content_type,
  validate_seq, byte_len_of, new_message,
}
use durable_streams_referenc.Headers.{
  stream_ttl, stream_next_offset, parse_ttl, trim, trim_start, trim_end, contains, parse_bool,
  normalize_content_type, before_semicolon,
}
use durable_streams_referenc.Prelude.Decimal.{parse_u64, parse_digits, parse_unsigned}
use durable_streams_referenc.Prelude.Word.{checked_add, u64_add, to_u64}
use durable_streams_referenc.Handlers.Post.{wants_close, append_data}
use durable_streams_referenc.JsonMode.{Serde, is_json_content_type}
use durable_streams_referenc.Http.{set_header, read_body, content_type_name}
use durable_streams_referenc.Memory.{
  InMemoryStorage, new_storage, read, create_stream, create_stream_with_data, with_stream,
  batch_append,
}
use durable_streams_referenc.Memory.Methods.{batch_append_held, close_if}
use durable_streams_referenc.Memory.Entry.{
  StreamEntry, new_entry, commit_messages, reserve, check_stream_size, push_message, push_messages,
  batch_bytes, send, tail_offset,
}
use durable_streams_referenc.Memory.Layout.{
  size, layout, contents, IsValid, extended, extended-IsValid, new_entry-IsValid,
}
use durable_streams_referenc.Memory.Resume.{returning, read_held-resume}
use durable_streams_referenc.Memory.Commit.{IsCountable}
use durable_streams_referenc.Memory.Invariant.{IsConsistent}
use durable_streams_referenc.Memory.Reach.{do_create, here, next, Reach-IsConsistent}
use durable_streams_referenc.Handlers.{Calls}
use durable_streams_referenc.Handlers.Post.Closed.{conflict, append_data-closed}
use durable_streams_referenc.Sse.{Codec}
use durable_streams_referenc.Handlers.Get.Stream.{Wake, keepalive, idle, build_sse_byte_stream}
use durable_streams_referenc.Handlers.Get.Stream.Session.{Sees, Received}
use durable_streams_referenc.Handlers.Get.Stream.Delivery.{build_sse_byte_stream-Received}
use durable_streams_referenc.Handlers.Post.Laws.{fetched, append_data-delivered}
use durable_streams_referenc.Memory.Implementation.{memory_backend}
use durable_streams_referenc.Handlers.Put.{
  Outside, CreateRequest, panicked, create_stream as put_stream, read_request, create_content_type,
  ttl_seconds_of, initial_messages,
}
use durable_streams_referenc.Handlers.Put.Laws.{
  TooLong, Panics, long_ttl, bad_location, create_stream-Panics_iff,
}
use durable_streams_referenc.Handlers.Get.{Moment, read_catch_up, generate_etag}
use durable_streams_referenc.Handlers.Get.Caching.{status_of, read_catch_up-not_modified}

abbrev serde : Serde
serde = record {
  Value = Bytes;
  from_slice = λ bytes. inr bytes;
  as_array = λ value. none;
  to_vec = λ value. value;
}

abbrev outside : Outside
outside = record {
  serde = serde;
  parse_datetime = λ text. inr 0;
  max_seconds = 1000;
  max_time = 5000;
  is_header_value = λ text. false;
}

abbrev plain : Text
unfolding codes
plain = codes "text/plain"

abbrev at : Readings
at = record { expiry = 1; cleanup = 1; stamp = 1 }

abbrev asks : Text → Headers
unfolding text_eq
asks ttl name =
    if text_eq name content_type_name
    then some plain
    else if text_eq name stream_ttl
    then some ttl
    else none

abbrev long_request : CreateRequest
long_request = record {
  body_bytes = [];
  normalized_ct = plain;
  ttl_seconds = some 1001;
  expires_at = none;
  created_closed = false;
}

abbrev empty_storage : InMemoryStorage
empty_storage = new_storage 100 6

-- What reading a request computes with.
reading : Unit {0}
unfolding read_request read_body create_content_type parse_ttl trim trim_start trim_end contains
    text_eq codes parse_u64 parse_digits parse_unsigned wants_close parse_bool
    normalize_content_type before_semicolon to_ascii_lowercase eq_ignore_ascii_case
reading = tt

-- More seconds than a duration can have.
long_ttl_test :
    put_stream memory_backend outside (asks (codes "1001")) plain (inr []) 1 at empty_storage
    ≡ (panicked, empty_storage)
unfolding reading ttl_seconds_of
long_ttl_test =
    (create_stream-Panics_iff memory_backend outside (asks (codes "1001")) plain (inr []) 1 at
        empty_storage empty_storage).1
      (long_ttl long_request refl (1001, refl, inl (omega arith)))

abbrev short_request : CreateRequest
short_request = record long_request { ttl_seconds = some 10 }

abbrev patient : Outside
patient = record outside { max_seconds = 10_000; max_time = 100_000_000_000 }

abbrev short_config : StreamConfig
short_config = record {
  content_type = plain;
  ttl_seconds = some 10;
  expires_at = some 10_000_000_001;
  created_closed = false;
}

abbrev answer : CreateWithDataResult
answer = record { status = created; next_offset = new 0 0; closed = false }

abbrev after_panic : InMemoryStorage
after_panic =
    (memory_backend.create_stream_with_data plain short_config [] false at empty_storage).1

-- The stream is there, and the location is no header value.
create_stream-Panics_iff_example :
    (put_stream memory_backend patient (asks (codes "10")) plain (inr []) 1 at empty_storage
      ≡ (panicked, after_panic))
    ↔ Panics memory_backend patient
        (asks (codes "10"))
        plain
        (inr [])
        1
        at
        empty_storage
        after_panic
create_stream-Panics_iff_example =
    create_stream-Panics_iff memory_backend patient (asks (codes "10")) plain (inr []) 1 at
      empty_storage after_panic

not-TooLong : ¬ TooLong patient 1 (some 10)
not-TooLong (n, same, long) = ground (arith, same, long)

bad_location_test :
    put_stream memory_backend patient (asks (codes "10")) plain (inr []) 1 at empty_storage
    ≡ (panicked, after_panic)
unfolding reading initial_messages create_stream_with_data new_storage lookup commit_messages
    reserve check_stream_size push_message push_messages batch_bytes send tail_offset new_entry
    checked_add close_if
bad_location_test =
    (create_stream-Panics_iff memory_backend patient (asks (codes "10")) plain (inr []) 1 at
        empty_storage after_panic).1
      (bad_location short_request [] answer refl not-TooLong refl refl refl)

abbrev hello : Bytes
hello = 1 ∷ 2 ∷ []

-- A stream with one message.
abbrev stream : StreamEntry
unfolding new_entry
stream = extended (hello ∷ []) (new_entry short_config 5)

stream-IsValid : IsValid stream
unfolding new_entry
stream-IsValid =
    extended-IsValid (hello ∷ []) (new_entry short_config 5) (new_entry-IsValid short_config 5)

abbrev moment : Moment memory_backend
unfolding new_storage
moment = record { state = record (new_storage 100 6) { streams = (plain, stream) ∷ [] }; at = at }

abbrev first_text : Text
unfolding codes
first_text = codes "-1"
