-- ===== src/File/Meta.antt =====
-- src/storage/file.rs: the metadata file of a stream, and the messages that are read from its log.
-- `serde_json` is a parameter, `MetaFormat`; what the operating system answers is an argument.
use durable_streams_referenc.Prelude.{
  ℕ, ◌+◌, Option, none, some, List, [], ◌∷◌, ltb, ◌⊎◌, inl, inr, if◌then◌else◌, length, take, drop,
}
use durable_streams_referenc.Prelude.Text.{Bytes, Text, codes}
use durable_streams_referenc.Prelude.Word.{saturating_sub}
use durable_streams_referenc.Error.{Result, ok, err}
use durable_streams_referenc.Error.Exec.{Exec, lift, gets, ◌>>=◌, ◌>>◌}
use durable_streams_referenc.File.Record.{MessageIndex, slice, failed}
use durable_streams_referenc.File.Path.{join}
use durable_streams_referenc.File.Dir.{Roots, DirIo, failed_at, validate_stream_dir, meta_path}
use durable_streams_referenc.File.Entry.{StreamMeta, StreamEntry, Locked}

-- `serde_json::to_vec` and `serde_json::from_slice` on a `StreamMeta`; an error has a text.
pub record MetaFormat : Type 0 where
  pub to_vec : StreamMeta → Text ⊎ Bytes
  pub from_slice : Bytes → Text ⊎ StreamMeta

-- The answers of the calls on the directory, and the errors of `fs::write` and `fs::rename`.
pub record MetaIo : Type 0 where
  pub dir : DirIo
  pub write : Option Text
  pub rename : Option Text

unfoldable pub meta_of : Text → StreamEntry → StreamMeta
meta_of name entry = record {
  name = name;
  config = entry.config;
  closed = entry.closed;
  created_at = entry.created_at;
  last_seq = entry.last_seq;
  producers = entry.producers;
}

serialize : MetaFormat → StreamMeta → Result Bytes
unfolding failed codes
serialize format meta = elim (format.to_vec meta) [
  | inl e ↦ err (failed (codes "failed to serialize stream metadata: ") e)
  | inr payload ↦ ok payload
]

-- The new contents go to a temporary file, which nothing reads, and then take the old one's place.
replace_meta : MetaIo → Text → Bytes → Exec Locked (Unit {0})
unfolding codes
replace_meta io dir payload h = elim io.write [
  | some e ↦ (
    err (
        failed_at (codes "failed to write metadata temp file ") (join dir (codes "meta.json.tmp"))
          e),
    h,
  )
  | none ↦ elim io.rename [
    | some e ↦
        (err (failed_at (codes "failed to atomically replace metadata ") (meta_path dir) e), h)
    | none ↦ (ok tt, record h { meta = some payload })
  ]
]

unfoldable pub write_metadata_for : Roots → MetaFormat → MetaIo → Text → Exec Locked (Unit {0})
unfolding serialize replace_meta
write_metadata_for roots format io name = do
  entry ← gets (λ h. h.stream)
  lift (validate_stream_dir roots io.dir entry.dir)
  payload ← lift (serialize format (meta_of name entry))
  replace_meta io entry.dir payload

-- The errors of `try_clone`, `seek` and `read_exact`; `read_exact` fails of itself at the end of the
-- file, with the standard library's text.
pub record ReadIo : Type 0 where
  pub clone : Option Text
  pub seek : Option Text
  pub read : Option Text

-- `read_exact` of `read_len` bytes at a position
unfoldable pub read_exact : ReadIo → Bytes → (first_pos read_len : ℕ) → Text ⊎ Bytes
unfolding codes
read_exact io file first_pos read_len =
    let raw = take read_len (drop first_pos file) in
    elim io.read [
      | some e ↦ inl e
      | none ↦
          if ltb (length raw) read_len then inl (codes "failed to fill whole buffer") else inr raw
    ]

unfoldable pub last_end : MessageIndex → List MessageIndex → ℕ
last_end m [] = m.file_pos + m.byte_len
last_end m (n ∷ index_slice) = last_end n index_slice

-- The last loop; `none` is a panic of `slice`.
unfoldable pub slice_messages : Bytes → ℕ → List MessageIndex → Option (List Bytes)
slice_messages raw first_pos [] = some []
slice_messages raw first_pos (m ∷ index_slice) =
    let rel_start = saturating_sub m.file_pos first_pos in
    let rest = slice_messages raw first_pos index_slice in
    elim (slice raw rel_start (rel_start + m.byte_len)) [
      | none ↦ none
      | some message ↦ elim rest [ none ↦ none | some messages ↦ some (message ∷ messages) ]
    ]

slice_all : Text ⊎ Bytes → ℕ → List MessageIndex → Option (Result (List Bytes))
unfolding codes failed
slice_all (inl e) first_pos index_slice =
    some (err (failed (codes "failed to read message data: ") e))
slice_all (inr raw) first_pos index_slice = elim (slice_messages raw first_pos index_slice) [
  | none ↦ none
  | some messages ↦ some (ok messages)
]

-- `read_messages`; `none` is a panic.
unfoldable pub read_messages : ReadIo → Bytes → List MessageIndex → Option (Result (List Bytes))
unfolding codes failed slice_all
read_messages io file [] = some (ok [])
read_messages io file (first ∷ index) =
    let first_pos : ℕ = first.file_pos in
    let read_len : ℕ = saturating_sub (last_end first index) first_pos in
    elim io.clone [
      | some e ↦ some (err (failed (codes "failed to clone stream file handle: ") e))
      | none ↦ elim io.seek [
        | some e ↦ some (err (failed (codes "failed to seek message data: ") e))
        | none ↦ slice_all (read_exact io file first_pos read_len) first_pos (first ∷ index)
      ]
    ]
