-- ===== src/Handlers/Examples/Creating.antt =====
-- The theorem on the creation of a stream at a concrete PUT request.
use durable_streams_referenc.Prelude.{true, false}
use durable_streams_referenc.Offset.{new}
use durable_streams_referenc.Storage.{created, CreateWithDataResult}
use durable_streams_referenc.Handlers.Put.{Outside, CreateRequest, create_stream as put_stream}
use durable_streams_referenc.Handlers.Examples.{hello, short_request, patient}

-- Every text is the value of a header.
abbrev welcoming : Outside
welcoming = record patient { is_header_value = λ text. true }

abbrev request : CreateRequest
request = record short_request { body_bytes = hello }

abbrev result : CreateWithDataResult
result = record { status = created; next_offset = new 1 2; closed = false }
