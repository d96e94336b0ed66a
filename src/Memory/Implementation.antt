-- ===== src/Memory/Implementation.antt =====
-- `impl Storage for InMemoryStorage` in src/storage/memory.rs.
use durable_streams_referenc.Storage.Backend.{Backend}
use durable_streams_referenc.Memory.{
  InMemoryStorage, create_stream, append, batch_append, read, delete, head, close_stream,
  append_with_producer, create_stream_with_data, stream_exists, subscribe,
}

abbrev pub memory_backend : Backend
memory_backend = record {
  State = InMemoryStorage;
  create_stream = λ name config at. create_stream name config at.expiry at.stamp;
  append = λ name body content_type at. append name body content_type at.expiry;
  batch_append =
      λ name messages content_type seq at. batch_append name messages content_type seq at.expiry;
  read = λ name from at. read name from at.expiry;
  delete = delete;
  head = λ name at. head name at.expiry;
  close_stream = λ name at. close_stream name at.expiry;
  append_with_producer = append_with_producer;
  create_stream_with_data = λ name config messages should_close at.
      create_stream_with_data name config messages should_close at.expiry at.stamp;
  stream_exists = λ name at. stream_exists name at.expiry;
  subscribe = λ name at. subscribe name at.expiry;
}
