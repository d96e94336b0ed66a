-- ===== src/Handlers/Post.antt =====
-- src/handlers/post.rs: appending to a stream and closing it.
pub mod Laws
pub mod Closed
use durable_streams_referenc.Prelude.{
  ℕ, Bool, true, false, ◌&&◌, not, Option, none, some, List, [], ◌∷◌, if◌then◌else◌, is_empty,
}
use durable_streams_referenc.Prelude.Text.{Bytes, Text, codes}
use durable_streams_referenc.Prelude.Dict.{Dict}
use durable_streams_referenc.Prelude.Decimal.{to_string}
use durable_streams_referenc.Error.{
  Error, stream_closed, epoch_fenced, sequence_gap, invalid_header, invalid_json, Result, ok, err,
  ◌>>=◌ as then_result,
}
use durable_streams_referenc.Error.Exec.{Exec, pure, raise, lift, modify, raise_if, ◌>>=◌, ◌>>◌}
use durable_streams_referenc.Offset.{Offset, as_str}
use durable_streams_referenc.Producer.{
  Headers, ProducerHeaders, parse_producer_headers, producer_epoch, producer_seq,
}
use durable_streams_referenc.Storage.{StreamMetadata, ProducerAppendResult, accepted}
use durable_streams_referenc.Storage.Backend.{Backend}
use durable_streams_referenc.Headers.{
  stream_closed_name, stream_next_offset, stream_seq, producer_expected_seq, producer_received_seq,
  parse_bool, normalize_content_type, true_text,
}
use durable_streams_referenc.JsonMode.{Serde, process_append, is_json_content_type}
use durable_streams_referenc.Http.{
  Response, RequestBody, read_body, set_header, content_type_name, with_text, on_result,
}
use durable_streams_referenc.Handlers.{Calls}

-- `headers.get(STREAM_CLOSED) .. .is_some_and(parse_bool)`
unfoldable pub wants_close : Headers → Bool
wants_close headers = elim (headers stream_closed_name) [ none ↦ false | some v ↦ parse_bool v ]

missing_content_type : Error
missing_content_type = invalid_header (codes "Content-Type") (codes "missing required header")

unfoldable pub normalized_ct_of : Bool → Option Text → Result Text
unfolding missing_content_type
normalized_ct_of is_close_only (some ct) = ok (normalize_content_type ct)
normalized_ct_of true none = ok []
normalized_ct_of false none = err missing_content_type

abbrev pub empty_body_error : Error
unfolding codes
empty_body_error =
    invalid_header (codes "Content-Length") (codes "empty body requires Stream-Closed header")

abbrev pub empty_array_error : Error
unfolding codes
empty_array_error = invalid_json (codes "empty arrays are not permitted")

reject_empty : Bool → List Bytes → Result (List Bytes)
reject_empty should_close parsed =
    if is_empty parsed && not should_close then err empty_array_error else ok parsed

-- The messages that a body stands for.
unfoldable pub prepare_messages : Serde → Bytes → Text → Bool → Result (List Bytes)
unfolding reject_empty
prepare_messages serde body_bytes normalized_ct should_close =
    if is_empty body_bytes
    then ok []
    else if is_json_content_type normalized_ct
    then then_result (process_append serde body_bytes) (reject_empty should_close)
    else ok (body_bytes ∷ [])

abbrev pub closed_text : Text
unfolding codes
closed_text = codes "Stream is closed"

abbrev pub fenced_text : Text
unfolding codes
fenced_text = codes "Producer epoch fenced"

abbrev pub gap_text : Text
unfolding codes
gap_text = codes "Producer sequence gap"

closed_headers : Offset → Dict Text
closed_headers next_offset =
    set_header stream_next_offset (as_str next_offset) (set_header stream_closed_name true_text [])

module _ (b : Backend) (calls : Calls b) (name : Text) where
  -- Other requests between two calls of the storage.
  interleave : Exec b.State (Unit {0})
  interleave = modify (calls.others)

  second_head : Exec b.State StreamMetadata
  second_head s = (b.head name calls.second s, s)

  unfoldable pub stream_closed_response : Exec b.State Response
  unfolding interleave second_head closed_headers
  stream_closed_response = do
    interleave
    metadata ← second_head
    pure (with_text 409 (closed_headers metadata.next_offset) closed_text)

  close_if_asked : Bool → Exec b.State (Unit {0})
  close_if_asked true = b.close_stream name calls.second
  close_if_asked false = pure tt

  appended_headers : Bool → Offset → Dict Text
  appended_headers should_close next_offset =
      let headers = set_header stream_next_offset (as_str next_offset) [] in
      if should_close then set_header stream_closed_name true_text headers else headers

  finish_append : Bool → Offset → Exec b.State Response
  finish_append should_close next_offset = do
    interleave
    close_if_asked should_close
    pure (record { status = 204; headers = appended_headers should_close next_offset; body = [] })

  after_batch : Bool → Result Offset → Exec b.State Response
  after_batch should_close (ok next_offset) = finish_append should_close next_offset
  after_batch should_close (err stream_closed) = stream_closed_response
  after_batch should_close (err e) = raise e

  first_head : Exec b.State StreamMetadata
  first_head s = (b.head name calls.first s, s)

  unfoldable pub handle_non_producer_append :
      List Bytes → Text → Bool → Option Text → Exec b.State Response
  unfolding after_batch finish_append stream_closed_response close_if_asked appended_headers
      interleave first_head
  handle_non_producer_append [] content_type should_close seq = do
    metadata ← first_head
    finish_append should_close metadata.next_offset
  handle_non_producer_append (m ∷ messages) content_type should_close seq =
      on_result (b.batch_append name (m ∷ messages) content_type seq calls.first)
        (after_batch should_close)

  producer_headers_of : ℕ → ℕ → Offset → Bool → Dict Text
  producer_headers_of epoch seq next_offset closed =
      let headers = set_header producer_seq (to_string seq) (
        set_header producer_epoch (to_string epoch)
          (set_header stream_next_offset (as_str next_offset) [])) in
      if closed then set_header stream_closed_name true_text headers else headers

  producer_response : ℕ → ℕ → ℕ → Offset → Bool → Response
  producer_response status epoch seq next_offset closed = record {
    status = status;
    headers = producer_headers_of epoch seq next_offset closed;
    body = [];
  }

  after_producer : Bool → Result ProducerAppendResult → Exec b.State Response
  after_producer is_close_only (ok (accepted epoch seq next_offset closed)) =
      pure (producer_response (if is_close_only then 204 else 200) epoch seq next_offset closed)
  after_producer is_close_only (ok (ProducerAppendResult.duplicate epoch seq next_offset closed)) =
      pure (producer_response 204 epoch seq next_offset closed)
  after_producer is_close_only (err stream_closed) = stream_closed_response
  after_producer is_close_only (err (epoch_fenced current received)) =
      pure (with_text 403 (set_header producer_epoch (to_string current) []) fenced_text)
  after_producer is_close_only (err (sequence_gap expected actual)) = pure (
      with_text 409
        (set_header producer_received_seq (to_string actual)
          (set_header producer_expected_seq (to_string expected) []))
        gap_text)
  after_producer is_close_only (err e) = raise e

  unfoldable pub handle_producer_append :
      List Bytes → Text → ProducerHeaders → Bool → Bool → Option Text → Exec b.State Response
  unfolding after_producer producer_response producer_headers_of stream_closed_response
  handle_producer_append messages content_type producer should_close is_close_only seq =
      on_result
        (b.append_with_producer name messages content_type producer should_close seq calls.first)
        (after_producer is_close_only)

  route_append :
      Option ProducerHeaders → List Bytes → Text → Bool → Bool → Option Text → Exec b.State Response
  route_append (some prod) messages normalized_ct should_close is_close_only seq =
      handle_producer_append messages normalized_ct prod should_close is_close_only seq
  route_append none messages normalized_ct should_close is_close_only seq =
      handle_non_producer_append messages normalized_ct should_close seq

  -- `append_data`
  unfoldable pub append_data : Serde → Headers → RequestBody → Exec b.State Response
  unfolding route_append
  append_data serde headers body = do
    body_bytes ← lift (read_body body)
    let should_close : Bool = wants_close headers
    let is_close_only : Bool = is_empty body_bytes && should_close
    normalized_ct ← lift (normalized_ct_of is_close_only (headers content_type_name))
    producer_headers ← lift (parse_producer_headers headers)
    raise_if (is_empty body_bytes && not should_close) empty_body_error
    messages ← lift (prepare_messages serde body_bytes normalized_ct should_close)
    route_append producer_headers messages normalized_ct should_close is_close_only
        (headers stream_seq)
