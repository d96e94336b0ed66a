-- ===== src/Lib.antt =====
-- The durable streams server: named append-only logs of messages behind an HTTP interface, written
-- in Rust. This library models its protocol rules, its in-memory and its file storage, its
-- handlers and its settings, and proves what makes them correct.
--
-- How the parts work together. A request reaches a handler of src/handlers/, which parses headers
-- and body (src/protocol/) and calls a backend of the trait `Storage` (src/storage/mod.rs); the
-- backend in memory is src/storage/memory.rs, the one that keeps a log file for each stream is
-- src/storage/file.rs. Every message has an offset, the pair of its number and
-- its first byte, whose text orders as the pair does; a reader goes on from the offset that it was
-- given last.
--
-- The files.
-- Prelude: what the components share. Lists: lists measured by native numbers. Word: the arithmetic
--   of `u64`, with its wrap-around. Decimal: numbers as texts, and `str::parse::<u64>`. Text: texts as
--   lists of bytes. Dict: a map as a list of pairs. Search: `binary_search_by` of a slice.
-- Error: src/protocol/error.rs, `Result`, and in Error/Exec code that changes a state and may return
--   early with an error.
-- Offset: src/protocol/offset.rs (`Offset`, `from_str`, `cmp`, `eq`, `hash`; Offset/Hex: `encode_offset`
--   and `decode_hex_16`).
-- Producer, Headers, JsonMode, Cursor: the files of these names in src/protocol/.
-- Sse: src/protocol/sse.rs; Sse/Client is an event-stream client, by which the frames are judged,
--   and Sse/Content says which event a message stands for. Sse/Lines, Frames, Spaces and Json are
--   proofs.
-- Storage: src/storage/mod.rs (`check_producer`, `validate_seq`, `is_stream_expired`, the records);
--   Storage/Backend is the trait, a record of operations over a state.
-- Memory: src/storage/memory.rs. Memory/Entry has `StreamEntry` and `commit_messages`, Memory/Methods
--   what each method does under a stream's lock, Memory itself the methods over the map of streams,
--   and Memory/Implementation the backend that they make. The other files below Memory are proofs:
--   Layout and Invariant say when a stream and a storage are well formed, Reach follows calls, Commit
--   and Atomic the appends, Reads, Resume and Delivery the reads, Creation
--   the creation with data, Retry the producers.
-- File: src/storage/file.rs. File/Record has the records of a log (`write_buf`) and the scan at the
--   start (`rebuild_index`); File/Path and File/Dir the directories (`stream_dir_for_name`,
--   `validate_stream_dir`); File/Entry has `StreamEntry` and `append_records`, File/Meta
--   `write_metadata_for` and `read_messages`, File/Methods what each method does under a stream's
--   lock, File/Disk the state and the steps that the methods share, File itself the methods, and
--   File/Startup `load_existing_streams`. The other files are proofs: Record/Layout, Rounds, Rebuild,
--   Tiles and Safety about the scan, Path/Depth and Containment about the directories; View says which
--   stream of the in-memory storage a stream stands for, Refine and Contract compare the appends of
--   the two storages, Simulation the storages, Reads the reads; Failure is about a disk that fails,
--   Restart and Durable about what a restart finds.
-- Handlers: src/handlers/, over any backend. Http has the response and the body of a request;
--   Handlers/Post, Put, Meta (HEAD, DELETE and health) and Get (catch-up and long-poll; Get/Stream is
--   the stream of Server-Sent Events; Get/Route is the dispatch on the query).
-- Proofs about the handlers stand beside them: Post/Laws and Post/Closed, Put/Laws (its panics),
--   Put/Delivery, Get/Caching and Get/Stream/Delivery, whose statement is in Get/Stream/Session.
-- Config: src/config.rs, the settings: Config/Load reads them from the files and the environment, Config/Cors
--   validates them (`validate`) and has the origins that `cors_layer` of src/router.rs makes of them;
--   Config/Shards is about the number of shards.
-- Examples, in several places: tests, and the theorems at concrete inputs.
--
-- How code became definitions. A text or a body is a list of bytes. A header map is a function from a
-- name to the text of its value. A `u64` is a number with its wrap-around written out. The clock is
-- an argument, one reading for each call of `Utc::now()`. A lock is one step on what it guards; the
-- global byte count, an atomic, is read and written in single steps, so that a method under one
-- stream's lock is a function of the entry and the count. A handler that calls the storage more than
-- once leaves other requests room between its calls: a function on the state (POST) or a state for
-- each call (GET). The counter of cursors is a state; one call is the one round of its loop whose
-- exchange succeeds. An early return with an error keeps what was written before. A panic of the PUT
-- handler is a value, and so is the one of `AllowOrigin::list` on a list with `*`, which tower-http
-- documents. How a wait of a long-poll or of an event stream ends is chosen by the environment.
--
-- The file system. The log of an entry is its bytes; the disk is a map from a directory to its log and
-- its metadata file. A call of the operating system that can fail is an argument that says whether it
-- does, with the text of the error and, for a write, how many bytes got into the log; so every
-- failure at every call is covered. A read of a header returns what the file has of its four bytes. A
-- file's length and the positions in it are numbers without a bound. A panic of `Bytes::slice` is a
-- value.
--
-- Fuel: the scan of a log file runs on the file's length, which is enough because each round goes at
-- least four bytes on. Every other loop goes over a list or, in the search, over a count that gets
-- smaller.
--
-- Parameters stand for serde_json, base64 (the encoder of a stream's name too), the replacement of
-- invalid UTF-8, chrono's parser, printer and limits, figment's reading of the files, the environment, and the test for a header value. White
-- space around a setting is that of ASCII.
--
-- A method of the two storages is one step: the case is left out that a stream is deleted, or
-- expires and is created again, between a method's look into the map and its lock of the entry, when
-- the method works on an entry that is no longer in the map.
--
-- What a start of the file storage that fails leaves on the disk is left out, and that two streams
-- could share a directory.
--
-- Not modelled: src/storage/acid.rs, the third backend; the rest of
-- src/router.rs, src/middleware/ and src/main.rs, which set up the server; the timers.
pub mod Prelude
pub mod Error
pub mod Offset
pub mod Producer
pub mod Storage
pub mod Headers
pub mod JsonMode
pub mod Sse
pub mod Cursor
pub mod Http
pub mod Handlers
pub mod Memory
pub mod File
pub mod Config
