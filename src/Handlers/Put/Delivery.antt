-- ===== src/Handlers/Put/Delivery.antt =====
-- src/handlers/put.rs over the in-memory storage: a stream that a PUT request creates holds its body.
use durable_streams_referenc.Prelude.{◌≡◌, false, Option, none, some, List, [], ◌∷◌, ℕ}
use durable_streams_referenc.Prelude.Text.{Bytes, Text}
use durable_streams_referenc.Prelude.Dict.{lookup}
use durable_streams_referenc.Error.{Result, ok, err}
use durable_streams_referenc.Producer.{Headers}
use durable_streams_referenc.Headers.{stream_next_offset}
use durable_streams_referenc.JsonMode.{is_json_content_type}
use durable_streams_referenc.Storage.{DateTime, Readings, CreateWithDataResult}
use durable_streams_referenc.Http.{RequestBody}
use durable_streams_referenc.Memory.{InMemoryStorage, create_stream_with_data}
use durable_streams_referenc.Handlers.Put.{
  Outside, CreateRequest, Outcome, returned, panicked, read_request,
}
use durable_streams_referenc.Handlers.Put.Laws.{config_for}

-- The status of a response and its `Stream-Next-Offset`, if the handler returned one.
abbrev pub answered : Outcome → Option (ℕ × Option Text)
answered (returned (ok response)) =
    some (response.status, lookup stream_next_offset response.headers)
answered (returned (err e)) = none
answered panicked = none

-- The messages of a body that is not JSON.
abbrev pub plain_messages : Bytes → List Bytes
plain_messages [] = []
plain_messages (c ∷ body) = (c ∷ body) ∷ []

module _ (outside : Outside) (headers : Headers) (name : Text) (body : RequestBody) (now : DateTime)
    (at : Readings) (s : InMemoryStorage) (q : CreateRequest)
    (read : read_request outside headers body ≡ ok q)
    (raw : is_json_content_type q.normalized_ct ≡ false) where
  abbrev stored : Result CreateWithDataResult × InMemoryStorage
  stored =
      create_stream_with_data name (config_for q now) (plain_messages q.body_bytes) q.created_closed
        at.expiry at.stamp s
