-- ===== src/Handlers/Examples/Reading.antt =====
-- The theorems on GET requests at concrete ones.
use durable_streams_referenc.Prelude.{inr, ◌≡◌, ◌↔◌, refl, false, some, [], ◌∷◌, arith}
use durable_streams_referenc.Prelude.Text.{codes, text_eq}
use durable_streams_referenc.Prelude.Dict.{lookup}
use durable_streams_referenc.Error.{ok}
use durable_streams_referenc.Offset.{start}
use durable_streams_referenc.Storage.{is_stream_expired}
use durable_streams_referenc.Memory.{read}
use durable_streams_referenc.Memory.Entry.{new_entry}
use durable_streams_referenc.Memory.Layout.{size, layout, contents}
use durable_streams_referenc.Memory.Resume.{returning, read_held-start}
use durable_streams_referenc.Sse.{Codec}
use durable_streams_referenc.Handlers.Get.Stream.{keepalive, idle, build_sse_byte_stream}
use durable_streams_referenc.Handlers.Get.Stream.Session.{Sees, Received}
use durable_streams_referenc.Handlers.Get.Stream.Delivery.{build_sse_byte_stream-Received}
use durable_streams_referenc.Memory.Implementation.{memory_backend}
use durable_streams_referenc.Handlers.Get.{read_catch_up, generate_etag}
use durable_streams_referenc.Handlers.Get.Caching.{status_of, read_catch_up-not_modified}
use durable_streams_referenc.Handlers.Examples.{
  plain, hello, stream, stream-IsValid, moment, first_text,
}

read_catch_up-not_modified_example :
    (status_of (
        read_catch_up memory_backend plain start first_text
          (some (generate_etag first_text (returning (hello ∷ []) stream)))
          plain
          moment)
      ≡ ok 304)
    ↔ (read plain start 1 moment.state ≡ ok (returning (hello ∷ []) stream))
unfolding new_entry size layout lookup text_eq codes moment is_stream_expired
read_catch_up-not_modified_example =
    read_catch_up-not_modified plain start [] (hello ∷ []) [] (inr (refl, refl)) stream stream
      stream-IsValid stream-IsValid refl refl 1 refl moment refl refl (omega arith) (omega arith)
      first_text plain (returning (hello ∷ []) stream)
      (read_held-start 1 stream stream-IsValid refl)

abbrev codec : Codec
codec = record {
  base64 = λ body. body;
  from_utf8_lossy = λ body. body;
  control_json = λ payload. b'7' ∷ [];
}

moment-found : lookup plain moment.state.streams ≡ some stream
unfolding lookup text_eq codes moment
moment-found = refl

moment_live : is_stream_expired stream.config moment.at.expiry ≡ false
unfolding new_entry is_stream_expired moment
moment_live = refl

contents-stream : contents stream ≡ hello ∷ []
unfolding new_entry layout
contents-stream = refl

abbrev now_seen : Sees plain [] moment
now_seen = record {
  entry = stream;
  more = hello ∷ [];
  found = moment-found;
  valid = stream-IsValid;
  live = moment_live;
  split = contents-stream;
}

build_sse_byte_stream-Received_example :
    Received codec false false
      (build_sse_byte_stream memory_backend codec plain false false
        (returning (hello ∷ []) stream)
        (keepalive ∷ idle ∷ [])
        0).0
      []
      (hello ∷ [])
unfolding stream new_entry
build_sse_byte_stream-Received_example =
    build_sse_byte_stream-Received codec false false (λ payload. ((refl, tt), refl)) plain [] moment
      now_seen (keepalive ∷ idle ∷ []) tt 0
