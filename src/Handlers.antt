-- ===== src/Handlers.antt =====
-- src/handlers/: the HTTP handlers of the protocol, over any backend of the trait `Storage`. A
-- request's headers are a function from a name to the text of the value, if it is there and visible
-- ASCII. A handler that calls the storage twice leaves room for other requests between its calls.
pub mod Post
pub mod Put
pub mod Meta
pub mod Get
mod Examples
use durable_streams_referenc.Error.Exec.{Exec, modify}
use durable_streams_referenc.Storage.{Readings}
use durable_streams_referenc.Storage.Backend.{Backend}

-- The clock at the first and at the second call of the storage, and what other requests do to the
-- storage between the two.
pub record Calls (b : Backend) : Type 0 where
  pub first : Readings
  pub others : b.State → b.State
  pub second : Readings
