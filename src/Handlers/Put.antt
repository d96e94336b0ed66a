-- ===== src/Handlers/Put.antt =====
-- src/handlers/put.rs: creating a stream, with its first data if the request has a body.
pub mod Laws
pub mod Delivery
use durable_streams_referenc.Prelude.{
  ℕ, ◌+◌, ◌*◌, ◌^◌, ◌-◌, ◌⊎◌, Bool, true, false, ◌&&◌, Option, none, some, List, [], ◌∷◌, ◌++◌, ltb,
  if◌then◌else◌, is_empty, is_some,
}
use durable_streams_referenc.Prelude.Text.{Bytes, Text, codes}
use durable_streams_referenc.Prelude.Dict.{Dict}
use durable_streams_referenc.Error.{
  Error, invalid_header, conflicting_expiration, Result, ok, err, ◌>>=◌, ◌>>◌,
}
use durable_streams_referenc.Error.Exec.{Exec}
use durable_streams_referenc.Offset.{as_str}
use durable_streams_referenc.Producer.{Headers}
use durable_streams_referenc.Storage.{
  DateTime, StreamConfig, new_config, with_ttl, with_expires_at, with_created_closed, Readings,
  CreateStreamResult, created, already_exists, CreateWithDataResult,
}
use durable_streams_referenc.Storage.Backend.{Backend}
use durable_streams_referenc.Headers.{
  stream_ttl, stream_expires_at, stream_closed_name, stream_next_offset, parse_ttl,
  parse_expires_at, trim, normalize_content_type, true_text,
}
use durable_streams_referenc.JsonMode.{Serde, process_append, is_json_content_type}
use durable_streams_referenc.Http.{Response, RequestBody, read_body, set_header, content_type_name}
use durable_streams_referenc.Handlers.Post.{wants_close}

-- What the handler takes from outside: serde_json; chrono's parser of a timestamp, the largest
-- number of seconds for which `Duration::seconds` does not panic and the last time up to which
-- adding a duration does not panic; and the test of `HeaderValue::from_str`, on which the code
-- calls `unwrap`.
pub record Outside : Type 1 where
  pub serde : Serde
  pub parse_datetime : Text → Text ⊎ DateTime
  pub max_seconds : ℕ
  pub max_time : DateTime
  pub is_header_value : Text → Bool

abbrev pub octet_stream : Text
unfolding codes
octet_stream = codes "application/octet-stream"

empty_content_type : Error
empty_content_type = invalid_header (codes "Content-Type") (codes "empty value")

unfoldable pub create_content_type : Option Text → Result Text
unfolding empty_content_type
create_content_type none = ok octet_stream
create_content_type (some ct) =
    if is_empty (trim ct) then err empty_content_type else ok (normalize_content_type ct)

optional {ℓ} : {A : Type ℓ} → (Text → Result A) → Option Text → Result (Option A)
optional parse none = ok none
optional parse (some value) = do a ← parse value; ok (some a)

-- `i64::try_from(ttl).unwrap_or(i64::MAX)`
unfoldable pub ttl_seconds_of : ℕ → ℕ
ttl_seconds_of ttl = if ltb ttl (2 ^ 63) then ttl else 2 ^ 63 - 1

-- `Utc::now() + chrono::Duration::seconds(..)`, in nanoseconds; `none` is a panic.
unfoldable pub ttl_expiry : Outside → ℕ → DateTime → Option DateTime
ttl_expiry outside ttl now =
    let seconds : ℕ = ttl_seconds_of ttl in
    let time : ℕ = now + seconds * 1_000_000_000 in
    if ltb outside.max_seconds seconds
    then none
    else if ltb outside.max_time time
    then none
    else some time

close_config : Bool → StreamConfig → StreamConfig
close_config created_closed config =
    if created_closed then with_created_closed true config else config

ttl_config : ℕ → StreamConfig → Option DateTime → Option StreamConfig
ttl_config ttl config none = none
ttl_config ttl config (some time) = some (with_ttl ttl (with_expires_at time config))

expiry_config : Outside → Option ℕ → Option DateTime → DateTime → StreamConfig → Option StreamConfig
expiry_config outside (some ttl) _ now config = ttl_config ttl config (ttl_expiry outside ttl now)
expiry_config outside none (some expires) now config = some (with_expires_at expires config)
expiry_config outside none none now config = some config

closed_if : Bool → Option StreamConfig → Option StreamConfig
closed_if created_closed none = none
closed_if created_closed (some config) = some (close_config created_closed config)

-- `none` is a panic.
unfoldable pub build_config :
    Outside → Text → Option ℕ → Option DateTime → Bool → DateTime → Option StreamConfig
unfolding expiry_config ttl_config closed_if close_config new_config with_ttl with_expires_at
    with_created_closed
build_config outside normalized_ct ttl_seconds expires_at created_closed now =
    closed_if created_closed
      (expiry_config outside ttl_seconds expires_at now (new_config normalized_ct))

unfoldable pub initial_messages : Serde → Bytes → Text → Result (List Bytes)
initial_messages serde body_bytes normalized_ct =
    if is_empty body_bytes
    then ok []
    else if is_json_content_type normalized_ct
    then process_append serde body_bytes
    else ok (body_bytes ∷ [])

abbrev forwarded_proto : Text
unfolding codes
forwarded_proto = codes "x-forwarded-proto"

abbrev forwarded_host : Text
unfolding codes
forwarded_host = codes "x-forwarded-host"

abbrev host_name : Text
unfolding codes
host_name = codes "host"

text_or : Text → Option Text → Text
text_or other none = other
text_or other (some s) = s

or_else : Option Text → Option Text → Option Text
or_else none other = other
or_else (some s) other = some s

unfoldable pub build_location_url : Headers → Text → Text
unfolding text_or or_else codes
build_location_url headers name =
    let scheme = text_or (codes "http") (headers forwarded_proto) in
    let host = text_or (codes "localhost") (or_else (headers forwarded_host) (headers host_name)) in
    scheme ++ codes "://" ++ host ++ codes "/v1/stream/" ++ name

-- What the headers and the body ask for.
pub record CreateRequest : Type 0 where
  pub body_bytes : Bytes
  pub normalized_ct : Text
  pub ttl_seconds : Option ℕ
  pub expires_at : Option DateTime
  pub created_closed : Bool

reject_both : Option ℕ → Option DateTime → Result (Unit {0})
reject_both (some ttl) (some expires) = err conflicting_expiration
reject_both (some ttl) none = ok tt
reject_both none _ = ok tt

unfoldable pub read_request : Outside → Headers → RequestBody → Result CreateRequest
unfolding optional reject_both
read_request outside headers body = do
  body_bytes ← read_body body
  normalized_ct ← create_content_type (headers content_type_name)
  ttl_seconds ← optional parse_ttl (headers stream_ttl)
  expires_at ← optional (parse_expires_at outside.parse_datetime) (headers stream_expires_at)
  reject_both ttl_seconds expires_at
  ok (record {
    body_bytes = body_bytes;
    normalized_ct = normalized_ct;
    ttl_seconds = ttl_seconds;
    expires_at = expires_at;
    created_closed = wants_close headers;
  })

-- A handler that returns, or that panics.
pub data Outcome : Type 0 where
  returned : Result Response → Outcome
  panicked : Outcome

create_status : CreateStreamResult → ℕ
create_status created = 201
create_status already_exists = 200

create_headers : Text → Text → CreateWithDataResult → Dict Text
create_headers normalized_ct location r =
    let headers = set_header (codes "location") location (
      set_header stream_next_offset (as_str r.next_offset)
        (set_header content_type_name normalized_ct [])) in
    if r.closed then set_header stream_closed_name true_text headers else headers

-- From the storage's answer on; a content type that has come this far is a header value.
create_response : Outside → Headers → Text → Text → Result CreateWithDataResult → Outcome
create_response outside headers name normalized_ct (err e) = returned (err e)
create_response outside headers name normalized_ct (ok r) =
    let location = build_location_url headers name in
    if outside.is_header_value location
    then returned (
        ok (record {
          status = create_status r.status;
          headers = create_headers normalized_ct location r;
          body = [];
        }))
    else panicked

module _ (b : Backend) (outside : Outside) (headers : Headers) (name : Text) where
  create_with :
      Readings → CreateRequest → StreamConfig → Result (List Bytes) → b.State → Outcome × b.State
  create_with at q config (err e) s = (returned (err e), s)
  create_with at q config (ok messages) s =
      let (r, s') = b.create_stream_with_data name config messages q.created_closed at s in
      (create_response outside headers name q.normalized_ct r, s')

  create_configured : Readings → CreateRequest → Option StreamConfig → b.State → Outcome × b.State
  create_configured at q none s = (panicked, s)
  create_configured at q (some config) s =
      create_with at q config (initial_messages outside.serde q.body_bytes q.normalized_ct) s

  create_requested : DateTime → Readings → Result CreateRequest → b.State → Outcome × b.State
  create_requested now at (err e) s = (returned (err e), s)
  create_requested now at (ok q) s =
      create_configured at q
        (build_config outside q.normalized_ct q.ttl_seconds q.expires_at q.created_closed now) s

  -- `create_stream`, with the reading of the clock that the time to live counts from.
  unfoldable pub create_stream : RequestBody → DateTime → Readings → b.State → Outcome × b.State
  unfolding create_requested create_configured create_with create_response create_headers
      create_status codes
  create_stream body now at = create_requested now at (read_request outside headers body)
