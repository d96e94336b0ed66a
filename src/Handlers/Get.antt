-- ===== src/Handlers/Get.antt =====
-- src/handlers/get.rs: catch-up reads, long-poll and Server-Sent Events. A read does not change the
-- storage, and other requests change it between the calls of one handler; so each call is made at a
-- moment of its own. The state of these handlers is the cursor counter.
pub mod Stream
pub mod Route
pub mod Caching
use durable_streams_referenc.Prelude.{
  ℕ, Bool, true, false, ◌&&◌, not, Option, none, some, List, [], ◌∷◌, ◌++◌, if◌then◌else◌, is_empty,
}
use durable_streams_referenc.Prelude.Text.{Bytes, Text, codes, text_eq}
use durable_streams_referenc.Prelude.Dict.{Dict}
use durable_streams_referenc.Error.{Error, not_found, invalid_header, Result, ok, err}
use durable_streams_referenc.Error.Exec.{Exec, pure, raise, lift, ◌>>=◌, ◌>>◌}
use durable_streams_referenc.Offset.{Offset, as_str, from_str}
use durable_streams_referenc.Cursor.{generate}
use durable_streams_referenc.Storage.{ReadResult, Readings}
use durable_streams_referenc.Storage.Backend.{Backend}
use durable_streams_referenc.Headers.{
  stream_closed_name, stream_next_offset, stream_up_to_date, stream_cursor, true_text,
}
use durable_streams_referenc.JsonMode.{is_json_content_type, wrap_read}
use durable_streams_referenc.Http.{Response, set_header, content_type_name}

abbrev pub etag_name : Text
unfolding codes
etag_name = codes "etag"

abbrev pub false_text : Text
unfolding codes
false_text = codes "false"

-- The storage and the clock when a call is made.
pub record Moment (b : Backend) : Type 0 where
  pub state : b.State
  pub at : Readings

abbrev pub closed_at_tail : ReadResult → Bool
closed_at_tail r = r.closed && r.at_tail

unfoldable pub generate_etag : Text → ReadResult → Text
generate_etag start_offset r =
    let end_offset = as_str r.next_offset in
    if closed_at_tail r
    then b'"' ∷ start_offset ++ b':' ∷ end_offset ++ b':' ∷ b'c' ∷ b'"' ∷ []
    else b'"' ∷ start_offset ++ b':' ∷ end_offset ++ b'"' ∷ []

-- The loop that fills the buffer.
unfoldable pub concat_messages : List Bytes → Bytes → Bytes
concat_messages [] buf = buf
concat_messages (m ∷ messages) buf = concat_messages messages (buf ++ m)

unfoldable pub build_body : ReadResult → Text → Bytes
unfolding concat_messages
build_body r content_type =
    if is_json_content_type content_type
    then wrap_read r.messages
    else if is_empty r.messages
    then []
    else concat_messages r.messages []

unfoldable pub build_304_response : ReadResult → Response
build_304_response r = record {
  status = 304;
  headers =
      set_header stream_up_to_date true_text
        (set_header stream_next_offset (as_str r.next_offset) []);
  body = [];
}

with_cursor : Option Text → Dict Text → Dict Text
with_cursor none headers = headers
with_cursor (some c) headers = set_header stream_cursor c headers

unfoldable pub build_data_response : ReadResult → Text → Text → Option Text → Response
unfolding with_cursor
build_data_response r content_type etag cursor_val =
    let headers = set_header etag_name etag (
      set_header stream_up_to_date (if r.at_tail then true_text else false_text) (
        set_header stream_next_offset (as_str r.next_offset)
          (set_header content_type_name content_type []))) in
    let headers' =
      if closed_at_tail r then set_header stream_closed_name true_text headers else headers in
    record {
      status = 200;
      headers = with_cursor cursor_val headers';
      body = build_body r content_type;
    }

unfoldable pub build_204_response : Offset → Bool → Exec ℕ Response
build_204_response next_offset is_closed = do
  let headers : Dict Text =
      set_header stream_up_to_date true_text (set_header stream_next_offset (as_str next_offset) [])
  cursor_val ← (λ last. let (c, last') = generate next_offset last in (ok c, last'))
  let headers' : Dict Text =
      if is_closed then set_header stream_closed_name true_text headers else headers
  pure (record { status = 204; headers = set_header stream_cursor cursor_val headers'; body = [] })

unfoldable pub matches : Option Text → Text → Bool
matches none etag = false
matches (some client_etag) etag = text_eq client_etag etag

-- A full response with a new cursor.
data_with_cursor : ReadResult → Text → Text → Exec ℕ Response
data_with_cursor r content_type etag last =
    let (c, last') = generate r.next_offset last in
    (ok (build_data_response r content_type etag (some c)), last')

woken_response : Text → Text → ReadResult → Exec ℕ Response
woken_response raw_offset content_type r =
    if is_empty r.messages
    then build_204_response r.next_offset (closed_at_tail r)
    else data_with_cursor r content_type (generate_etag raw_offset r)

module _ (b : Backend) where
  -- How the wait of a long-poll ends.
  pub data Wait : Type 0 where
    notified : Moment b → Wait
    timed_out : Moment b → Wait

module _ (b : Backend) (name : Text) where
  unfoldable pub read_catch_up : Offset → Text → Option Text → Text → Moment b → Result Response
  unfolding matches
  read_catch_up offset raw_offset if_none_match content_type m =
      elim (b.read name offset m.at m.state) [
        | err e ↦ err e
        | ok r ↦
            let etag = generate_etag raw_offset r in
            if matches if_none_match etag
            then ok (build_304_response r)
            else ok (build_data_response r content_type etag none)
      ]

  unfoldable pub handle_long_poll_wake : Offset → Text → Text → Moment b → Exec ℕ Response
  unfolding woken_response data_with_cursor
  handle_long_poll_wake offset raw_offset content_type m = do
    r ← lift (b.read name offset m.at m.state)
    woken_response raw_offset content_type r

  unfoldable pub end_wait : Offset → Text → Wait b → Exec ℕ Response
  end_wait tail_offset content_type (notified m) =
      handle_long_poll_wake tail_offset (as_str tail_offset) content_type m
  end_wait tail_offset content_type (timed_out m) = do
    r ← lift (b.read name tail_offset m.at m.state)
    build_204_response r.next_offset (closed_at_tail r)

  answer_or_wait : Text → Option Text → Text → Wait b → ReadResult → Exec ℕ Response
  answer_or_wait raw_offset if_none_match content_type wait r =
      let etag : Text = generate_etag raw_offset r in
      if matches if_none_match etag
      then pure (build_304_response r)
      else if not (is_empty r.messages)
      then data_with_cursor r content_type etag
      else if closed_at_tail r
      then build_204_response r.next_offset true
      else end_wait r.next_offset content_type wait

  unfoldable pub subscribed : Moment b → Result (Unit {0})
  subscribed m = elim (b.subscribe name m.at m.state) [
    | none ↦ err (not_found name)
    | some _ ↦ ok tt
  ]

  -- `read_long_poll`: the subscription, the read, and the wait if there is one.
  unfoldable pub read_long_poll :
      Offset → Text → Option Text → Text → Moment b → Moment b → Wait b → Exec ℕ Response
  unfolding matches data_with_cursor subscribed answer_or_wait
  read_long_poll offset raw_offset if_none_match content_type before m wait = do
    lift (subscribed before)
    r ← lift (b.read name offset m.at m.state)
    answer_or_wait raw_offset if_none_match content_type wait r
