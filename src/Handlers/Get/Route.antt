-- ===== src/Handlers/Get/Route.antt =====
-- src/handlers/get.rs: the dispatch of a GET request on its query.
use durable_streams_referenc.Prelude.{ℕ, Bool, Option, none, some, List, [], ◌++◌, if◌then◌else◌}
use durable_streams_referenc.Prelude.Text.{Text, codes, text_eq}
use durable_streams_referenc.Prelude.Dict.{Dict}
use durable_streams_referenc.Error.{Error, invalid_header, Result, ok, err}
use durable_streams_referenc.Error.Exec.{Exec, raise, lift, ◌>>=◌, ◌>>◌}
use durable_streams_referenc.Offset.{Offset, start_text, from_str}
use durable_streams_referenc.Producer.{Headers}
use durable_streams_referenc.Storage.{ReadResult}
use durable_streams_referenc.Storage.Backend.{Backend}
use durable_streams_referenc.JsonMode.{is_json_content_type}
use durable_streams_referenc.Sse.{Codec, is_binary_content_type}
use durable_streams_referenc.Http.{Response, set_header, content_type_name}
use durable_streams_referenc.Handlers.Get.{Moment, Wait, subscribed, read_catch_up, read_long_poll}
use durable_streams_referenc.Handlers.Get.Stream.{Wake, build_sse_byte_stream}

pub record ReadQuery : Type 0 where
  pub offset : Option Text
  pub live : Option Text

missing_offset : Text → Error
missing_offset live =
    invalid_header (codes "offset")
      (codes "offset query parameter is required for live=" ++ live ++ codes " mode")

unsupported_live : Text → Error
unsupported_live other = invalid_header (codes "live") (codes "unsupported live mode: " ++ other)

unfoldable pub resolve_offset : ReadQuery → Result Text
unfolding missing_offset
resolve_offset query = elim query.live [
  | some live ↦ elim query.offset [ some o ↦ ok o | none ↦ err (missing_offset live) ]
  | none ↦ elim query.offset [ some o ↦ ok o | none ↦ ok start_text ]
]

abbrev pub if_none_match_name : Text
unfolding codes
if_none_match_name = codes "if-none-match"

abbrev pub event_stream : Text
unfolding codes
event_stream = codes "text/event-stream"

sse_headers : Bool → Dict Text
sse_headers is_binary =
    let headers : Dict Text = set_header content_type_name event_stream [] in
    if is_binary
    then set_header (codes "stream-sse-data-encoding") (codes "base64") headers
    else headers

module _ (b : Backend) (codec : Codec) (name : Text) where
  -- What the handler writes once it has read: the whole body that the waits lead to.
  stream_response : Bool → Bool → List (Wake b) → ReadResult → Exec ℕ Response
  stream_response is_binary is_json wakes initial last =
      let (body, last') = build_sse_byte_stream b codec name is_binary is_json initial wakes last in
      (ok (record { status = 200; headers = sse_headers is_binary; body = body }), last')

  unfoldable pub read_sse : Offset → Text → Moment b → Moment b → List (Wake b) → Exec ℕ Response
  unfolding sse_headers stream_response
  read_sse offset content_type before m wakes = do
    lift (subscribed b name before)
    initial ← lift (b.read name offset m.at m.state)
    stream_response (is_binary_content_type content_type) (is_json_content_type content_type) wakes
        initial

  -- What happens around the calls of one GET request: the storage when the content type is looked
  -- up, at the subscription and at the read, and how the waits end.
  pub record Course : Type 0 where
    pub looked_up : Moment b
    pub before : Moment b
    pub reading : Moment b
    pub wait : Wait b
    pub wakes : List (Wake b)

  dispatch : Course → Headers → Option Text → Text → Offset → Text → Exec ℕ Response
  dispatch course headers none raw_offset offset content_type = lift (
      read_catch_up b name offset raw_offset (headers if_none_match_name) content_type
        course.reading)
  dispatch course headers (some live) raw_offset offset content_type =
      if text_eq live (codes "long-poll")
      then read_long_poll b name offset raw_offset (headers if_none_match_name) content_type
          course.before course.reading course.wait
      else if text_eq live (codes "sse")
      then read_sse offset content_type course.before course.reading course.wakes
      else raise (unsupported_live live)

  -- `read_stream`
  unfoldable pub read_stream : ReadQuery → Headers → Course → Exec ℕ Response
  unfolding dispatch read_sse unsupported_live codes
  read_stream query headers course = do
    raw_offset ← lift (resolve_offset query)
    offset ← lift (from_str raw_offset)
    metadata ← lift (b.head name course.looked_up.at course.looked_up.state)
    dispatch course headers query.live raw_offset offset metadata.config.content_type
