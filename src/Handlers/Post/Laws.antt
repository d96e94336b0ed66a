-- ===== src/Handlers/Post/Laws.antt =====
-- src/handlers/post.rs with src/storage/memory.rs and src/handlers/get.rs: what is posted is what is
-- read.
use durable_streams_referenc.Prelude.{
  ℕ, ◌≡◌, ◌≢◌, ap, ◌∙◌, true, false, none, some, [], ◌∷◌, is_empty, inr, refl,
}
use durable_streams_referenc.Prelude.Text.{Bytes, Text}
use durable_streams_referenc.Prelude.Dict.{lookup}
use durable_streams_referenc.Error.{Result, ok, ◌>>=◌}
use durable_streams_referenc.Offset.{Offset, as_str}
use durable_streams_referenc.Producer.{Headers, parse_producer_headers}
use durable_streams_referenc.Storage.{ReadResult, Readings, is_stream_expired}
use durable_streams_referenc.Headers.{stream_next_offset, stream_seq, normalize_content_type}
use durable_streams_referenc.JsonMode.{Serde, is_json_content_type}
use durable_streams_referenc.Http.{Response, read_body, set_header, content_type_name}
use durable_streams_referenc.Memory.{InMemoryStorage, batch_append}
use durable_streams_referenc.Memory.Entry.{StreamEntry, tail_offset}
use durable_streams_referenc.Memory.Commit.{IsCountable}
use durable_streams_referenc.Memory.Invariant.{IsConsistent}
use durable_streams_referenc.Memory.Delivery.{read-batch_append}
use durable_streams_referenc.Memory.Implementation.{memory_backend}
use durable_streams_referenc.Handlers.{Calls}
use durable_streams_referenc.Handlers.Post.{
  wants_close, normalized_ct_of, prepare_messages, append_data, route_append,
  handle_non_producer_append, after_batch, finish_append, close_if_asked, appended_headers,
  interleave,
}
use durable_streams_referenc.Handlers.Get.{
  read_catch_up, matches, generate_etag, build_data_response, build_body, concat_messages,
}

pub is_empty-nonempty : (body : Bytes) → body ≢ [] → is_empty body ≡ false
is_empty-nonempty [] h = absurd (h refl)
is_empty-nonempty (x ∷ body) h = refl

-- The status and the body of a catch-up GET.
abbrev pub fetched : Text → Offset → Readings → Text → Text → InMemoryStorage → Result (ℕ × Bytes)
fetched name offset at raw_offset content_type s = do
  response ←
      read_catch_up memory_backend name offset raw_offset none content_type
        (record { state = s; at = at })
  ok (response.status, response.body)

module _ (calls : Calls memory_backend) (name : Text) (serde : Serde) (headers : Headers)
    (body ct : Bytes) (s : InMemoryStorage) where
  abbrev pub stored : Result Offset × InMemoryStorage
  stored =
      batch_append name (body ∷ []) (normalize_content_type ct) (headers stream_seq)
        calls.first.expiry s

  abbrev pub no_content : Offset → Response
  no_content off = record {
    status = 204;
    headers = set_header stream_next_offset (as_str off) [];
    body = [];
  }

  -- A POST request of plain data is one batch append of the body.
  append_data-plain :
      body ≢ []
      → headers content_type_name ≡ some ct
      → wants_close headers ≡ false
      → parse_producer_headers headers ≡ ok none
      → is_json_content_type (normalize_content_type ct) ≡ false
      → (off : Offset) → stored.0 ≡ ok off
      → append_data memory_backend calls name serde headers (inr body) s
        ≡ (ok (no_content off), calls.others stored.1)
  unfolding append_data route_append read_body normalized_ct_of prepare_messages
      handle_non_producer_append after_batch finish_append close_if_asked appended_headers
      interleave
  append_data-plain some_body typed stays no_producer plain off success =
      rw (stays, is_empty-nonempty body some_body, typed, no_producer, plain, success)

  module _ (e : StreamEntry) (c : IsConsistent s) (found : lookup name s.streams ≡ some e)
      (fits : IsCountable e (body ∷ [])) (off : Offset) (success : stored.0 ≡ ok off)
      (time : Readings) (live : is_stream_expired e.config time.expiry ≡ false) where
    abbrev pub delivered : ReadResult
    delivered = record {
      messages = body ∷ [];
      next_offset = off;
      at_tail = true;
      closed = e.closed;
    }

    -- A catch-up read from the tail before the request returns the body.
    get-batch_append :
        (raw_offset content_type : Text)
        → read_catch_up memory_backend name
            (tail_offset e)
            raw_offset
            none
            content_type
            (record { state = stored.1; at = time })
          ≡ ok
              (build_data_response delivered content_type (generate_etag raw_offset delivered) none)
    unfolding matches read_catch_up build_data_response
    get-batch_append raw_offset content_type =
        let got =
          read-batch_append name (body ∷ []) (normalize_content_type ct) (headers stream_seq)
            calls.first.expiry s e c found fits off (λ e. cc) success time.expiry live in
        rw (read_catch_up, got)

    -- A POST request of plain data that the storage accepts is answered with 204 and the returned
    -- offset, and a catch-up GET from the tail before the request then gets exactly the posted
    -- body. (No other request comes between, the stream lives, and neither it nor the request is
    -- of a JSON type.)
    pub append_data-delivered :
        body ≢ []
        → headers content_type_name ≡ some ct
        → wants_close headers ≡ false
        → parse_producer_headers headers ≡ ok none
        → is_json_content_type (normalize_content_type ct) ≡ false
        → ((t : InMemoryStorage) → calls.others t ≡ t)
        → (raw_offset content_type : Text) → is_json_content_type content_type ≡ false
        → let (posted, s') = append_data memory_backend calls name serde headers (inr body) s in
          (posted ≡ ok (no_content off))
          × (fetched name (tail_offset e) time raw_offset content_type s' ≡ ok (200, body))
    unfolding build_data_response build_body concat_messages
    append_data-delivered some_body typed stays no_producer plain quiet raw_offset content_type
          raw =
        let posted =
          append_data-plain some_body typed stays no_producer plain off success
          ∙ ap (λ t. (ok (no_content off), t)) (quiet stored.1) in
        rw (posted, get-batch_append raw_offset content_type, raw) (refl, refl)
