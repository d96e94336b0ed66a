-- ===== src/Handlers/Post/Closed.antt =====
-- src/handlers/post.rs with src/storage/memory.rs: a POST request to a stream that is closed.
use durable_streams_referenc.Prelude.{◌≡◌, ◌≢◌, refl, true, false, none, some, [], ◌∷◌, inr}
use durable_streams_referenc.Prelude.Text.{Bytes, Text, text_eq_self}
use durable_streams_referenc.Prelude.Dict.{lookup, insert, lookup-insert}
use durable_streams_referenc.Error.{stream_closed, ok, err}
use durable_streams_referenc.Offset.{as_str}
use durable_streams_referenc.Producer.{Headers, parse_producer_headers}
use durable_streams_referenc.Storage.{is_stream_expired}
use durable_streams_referenc.Headers.{
  stream_closed_name, stream_next_offset, stream_seq, normalize_content_type, true_text,
}
use durable_streams_referenc.JsonMode.{Serde, is_json_content_type}
use durable_streams_referenc.Http.{Response, read_body, set_header, content_type_name, with_text}
use durable_streams_referenc.Memory.{InMemoryStorage, batch_append, with_stream, head, read_stream}
use durable_streams_referenc.Memory.Entry.{StreamEntry, tail_offset}
use durable_streams_referenc.Memory.Methods.{batch_append_held, head_held}
use durable_streams_referenc.Memory.Implementation.{memory_backend}
use durable_streams_referenc.Handlers.{Calls}
use durable_streams_referenc.Handlers.Post.{
  wants_close, normalized_ct_of, prepare_messages, append_data, route_append,
  handle_non_producer_append, after_batch, stream_closed_response, closed_headers, closed_text,
  interleave, second_head,
}
use durable_streams_referenc.Handlers.Post.Laws.{is_empty-nonempty}

-- The answer to a request that finds this stream closed.
abbrev pub conflict : StreamEntry → Response
conflict e =
    with_text 409
      (set_header stream_next_offset (as_str (tail_offset e))
        (set_header stream_closed_name true_text []))
      closed_text

module _ (calls : Calls memory_backend) (name : Text) (serde : Serde) (headers : Headers)
    (body ct : Bytes) (s : InMemoryStorage) (e : StreamEntry)
    (found : lookup name s.streams ≡ some e) (closed : e.closed ≡ true)
    (live : is_stream_expired e.config calls.first.expiry ≡ false) where
  -- The storage with the entry written back.
  abbrev same : InMemoryStorage
  same = record s { streams = insert name e s.streams; total_bytes = s.total_bytes }

  same-found : lookup name same.streams ≡ some e
  same-found = rw (lookup-insert name name e s.streams, text_eq_self name) refl

  refused :
      batch_append name
        (body ∷ [])
        (normalize_content_type ct)
        (headers stream_seq)
        calls.first.expiry
        s
      ≡ (err stream_closed, same)
  unfolding batch_append with_stream batch_append_held
  refused = rw (batch_append, with_stream, found, live, closed) refl

  -- A POST request of plain data to a closed stream that lives is answered with 409, `Stream-Closed`
  -- and the stream's tail, and the stream stays as it is. (No other request comes between, the
  -- request has no producer, and it does not ask for a close.)
  pub append_data-closed :
      body ≢ []
      → headers content_type_name ≡ some ct
      → wants_close headers ≡ false
      → parse_producer_headers headers ≡ ok none
      → is_json_content_type (normalize_content_type ct) ≡ false
      → ((t : InMemoryStorage) → calls.others t ≡ t)
      → is_stream_expired e.config calls.second.expiry ≡ false
      → let (answer, s') = append_data memory_backend calls name serde headers (inr body) s in
        (answer ≡ ok (conflict e))
        × (lookup name s'.streams ≡ some e)
        × (s'.total_bytes ≡ s.total_bytes)
  unfolding append_data route_append read_body normalized_ct_of prepare_messages
      handle_non_producer_append after_batch stream_closed_response closed_headers interleave
      second_head head read_stream head_held lookup insert closed_text
  append_data-closed some_body typed stays no_producer plain quiet live' =
      rw
        (
          stays,
          is_empty-nonempty body some_body,
          typed,
          no_producer,
          plain,
          refused,
          quiet same,
          same-found,
          live',
        )
        (refl, same-found, refl)
