-- ===== src/Storage/Backend.antt =====
-- The trait `Storage` of src/storage/mod.rs: the operations that the handlers call. A call takes
-- the readings of the clock that it makes.
use durable_streams_referenc.Prelude.{ℕ, Bool, Option, List}
use durable_streams_referenc.Prelude.Text.{Bytes, Text}
use durable_streams_referenc.Error.{Result}
use durable_streams_referenc.Error.Exec.{Exec}
use durable_streams_referenc.Offset.{Offset}
use durable_streams_referenc.Producer.{ProducerHeaders}
use durable_streams_referenc.Storage.{
  StreamConfig, Readings, ReadResult, StreamMetadata, CreateStreamResult, CreateWithDataResult,
  ProducerAppendResult,
}

-- A receiver of notifications is the number of sends before it subscribed.
pub record Backend : Type 1 where
  pub State : Type 0
  pub create_stream : Text → StreamConfig → Readings → Exec State CreateStreamResult
  pub append : Text → Bytes → Text → Readings → Exec State Offset
  pub batch_append : Text → List Bytes → Text → Option Text → Readings → Exec State Offset
  pub read : Text → Offset → Readings → State → Result ReadResult
  pub delete : Text → Exec State (Unit {0})
  pub head : Text → Readings → State → Result StreamMetadata
  pub close_stream : Text → Readings → Exec State (Unit {0})
  pub append_with_producer :
      Text
      → List Bytes
      → Text
      → ProducerHeaders
      → Bool
      → Option Text
      → Readings
      → Exec State ProducerAppendResult
  pub create_stream_with_data :
      Text → StreamConfig → List Bytes → Bool → Readings → Exec State CreateWithDataResult
  pub stream_exists : Text → Readings → State → Bool
  pub subscribe : Text → Readings → State → Option ℕ
