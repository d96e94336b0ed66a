-- ===== src/Handlers/Meta.antt =====
-- src/handlers/head.rs, delete.rs and health.rs. Times are in nanoseconds, so that the seconds left
-- of a stream's life are the quotient. chrono's text of a timestamp is a parameter.
use durable_streams_referenc.Prelude.{ℕ, ◌-◌, ◌/◌, Option, none, some, [], ltb, if◌then◌else◌}
use durable_streams_referenc.Prelude.Text.{Text, codes}
use durable_streams_referenc.Prelude.Dict.{Dict}
use durable_streams_referenc.Prelude.Decimal.{to_string}
use durable_streams_referenc.Error.{Result, ok, ◌>>=◌}
use durable_streams_referenc.Error.Exec.{Exec}
use durable_streams_referenc.Offset.{as_str}
use durable_streams_referenc.Storage.{DateTime, StreamMetadata, Readings}
use durable_streams_referenc.Storage.Backend.{Backend}
use durable_streams_referenc.Headers.{
  stream_ttl, stream_expires_at, stream_closed_name, stream_next_offset, true_text,
}
use durable_streams_referenc.Http.{Response, set_header, content_type_name, with_text}

base_headers : StreamMetadata → Dict Text
base_headers metadata =
    let headers =
      set_header stream_next_offset (as_str metadata.next_offset)
        (set_header content_type_name metadata.config.content_type []) in
    if metadata.closed then set_header stream_closed_name true_text headers else headers

expiry_headers : (DateTime → Text) → DateTime → Option DateTime → Dict Text → Dict Text
expiry_headers to_rfc3339 now none headers = headers
expiry_headers to_rfc3339 now (some expires_at) headers =
    let remaining_seconds : ℕ = (expires_at - now) / 1_000_000_000 in
    if ltb 0 remaining_seconds
    then set_header stream_expires_at (to_rfc3339 expires_at)
        (set_header stream_ttl (to_string remaining_seconds) headers)
    else headers

unfoldable pub metadata_response : (DateTime → Text) → DateTime → StreamMetadata → Response
unfolding base_headers expiry_headers
metadata_response to_rfc3339 now metadata = record {
  status = 200;
  headers = expiry_headers to_rfc3339 now metadata.config.expires_at (base_headers metadata);
  body = [];
}

module _ (b : Backend) (name : Text) where
  -- `stream_metadata`, with the reading of the clock behind the call.
  unfoldable pub stream_metadata :
      (DateTime → Text) → Readings → DateTime → b.State → Result Response
  stream_metadata to_rfc3339 at now s = do
    metadata ← b.head name at s
    ok (metadata_response to_rfc3339 now metadata)

  no_content : Result (Unit {0}) → Result Response
  no_content r = do _ ← r; ok (record { status = 204; headers = []; body = [] })

  -- `delete_stream`
  unfoldable pub delete_stream : Exec b.State Response
  unfolding no_content
  delete_stream s = let (r, s') = b.delete name s in (no_content r, s')

-- `health_check`
unfoldable pub health_check : Response
unfolding codes
health_check = with_text 200 [] (codes "ok")
