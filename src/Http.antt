-- ===== src/Http.antt =====
-- What the handlers of src/handlers/ share: the response, the body of a request, and calls of the
-- storage one after the other.
use durable_streams_referenc.Prelude.{ℕ, ◌⊎◌, inl, inr, [], ◌++◌}
use durable_streams_referenc.Prelude.Text.{Bytes, Text, codes}
use durable_streams_referenc.Prelude.Dict.{Dict, insert}
use durable_streams_referenc.Prelude.Decimal.{to_string}
use durable_streams_referenc.Error.{
  Error, status_code, Result, ok, err, not_found, config_mismatch, already_exists, invalid_offset,
  invalid_stream_name, content_type_mismatch, stream_closed, sequence_regression, sequence_gap,
  epoch_fenced, invalid_producer_state, memory_limit_exceeded, stream_size_limit_exceeded,
  invalid_ttl, conflicting_expiration, stream_expired, invalid_json, empty_body, invalid_header,
  seq_ordering_violation, storage,
}
use durable_streams_referenc.Error.Exec.{Exec}

pub record Response : Type 0 where
  pub status : ℕ
  pub headers : Dict Text
  pub body : Bytes

-- `headers.insert(name, value)` on the headers of a response.
unfoldable pub set_header : Text → Text → Dict Text → Dict Text
set_header name value headers = insert name value headers

abbrev pub content_type_name : Text
unfolding codes
content_type_name = codes "content-type"

-- `Display for Error`, as `thiserror` derives it from the `#[error]` lines.
unfoldable pub display : Error → Text
display (not_found name) = codes "Stream not found: " ++ name
display config_mismatch = codes "Stream already exists with different configuration"
display (already_exists name) = codes "Stream already exists: " ++ name
display (invalid_offset s) = codes "Invalid offset format: " ++ s
display (invalid_stream_name s) = codes "Invalid stream name: " ++ s
display (content_type_mismatch expected actual) =
    codes "Content type mismatch: expected " ++ expected ++ codes ", got " ++ actual
display stream_closed = codes "Stream is closed"
display (sequence_regression expected actual) =
    codes "Producer sequence regression: expected > "
    ++ to_string expected
    ++ codes ", got "
    ++ to_string actual
display (sequence_gap expected actual) =
    codes "Producer sequence gap: expected "
    ++ to_string expected
    ++ codes ", got "
    ++ to_string actual
display (epoch_fenced current received) =
    codes "Producer epoch fenced: current "
    ++ to_string current
    ++ codes ", received "
    ++ to_string received
display (invalid_producer_state s) = codes "Invalid producer state: " ++ s
display memory_limit_exceeded = codes "Memory limit exceeded"
display stream_size_limit_exceeded = codes "Stream size limit exceeded"
display (invalid_ttl s) = codes "Invalid TTL format: " ++ s
display conflicting_expiration = codes "Cannot specify both TTL and Expires-At"
display stream_expired = codes "Stream has expired"
display (invalid_json s) = codes "Invalid JSON: " ++ s
display empty_body = codes "Empty request body"
display (invalid_header header reason) =
    codes "Invalid header value for " ++ header ++ codes ": " ++ reason
display (seq_ordering_violation last received) =
    codes "Stream-Seq ordering violation: last=" ++ last ++ codes ", received=" ++ received
display (storage s) = codes "Storage error: " ++ s

abbrev pub plain_utf8 : Text
unfolding codes
plain_utf8 = codes "text/plain; charset=utf-8"

-- `(StatusCode, HeaderMap, &str).into_response()`: axum names the type of a text body.
abbrev pub with_text : ℕ → Dict Text → Text → Response
with_text status headers body = record {
  status = status;
  headers = insert content_type_name plain_utf8 headers;
  body = body;
}

-- `IntoResponse for Error`
unfoldable pub error_response : Error → Response
unfolding display
error_response e = with_text (status_code e) [] (display e)

unfoldable pub to_response : Result Response → Response
to_response (ok r) = r
to_response (err e) = error_response e

-- `axum::body::to_bytes`: the text of the transport's error, or the bytes.
abbrev pub RequestBody : Type 0
RequestBody = Text ⊎ Bytes

unfoldable pub read_body : RequestBody → Result Bytes
read_body (inl e) =
    err (invalid_header (codes "Content-Length") (codes "Failed to read body: " ++ e))
read_body (inr bytes) = ok bytes

-- `match call { Ok(..) => .., Err(..) => .. }`
abbrev pub on_result {ℓ} : {S A B : Type ℓ} → Exec S A → (Result A → Exec S B) → Exec S B
on_result m f s = let (r, s') = m s in f r s'
