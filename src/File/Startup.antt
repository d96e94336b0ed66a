-- ===== src/File/Startup.antt =====
-- src/storage/file.rs: `FileStorage::new` and `load_existing_streams`, which rebuild the streams from
-- their directories.
use durable_streams_referenc.Prelude.{
  ℕ, ◌+◌, Bool, not, Option, none, some, List, [], ◌∷◌, ◌⊎◌, inl, inr, min, if◌then◌else◌, length,
}
use durable_streams_referenc.Prelude.Text.{Bytes, Text, codes}
use durable_streams_referenc.Prelude.Word.{u64_max}
use durable_streams_referenc.Prelude.Dict.{Dict, insert}
use durable_streams_referenc.Error.{Error, Result, ok, err}
use durable_streams_referenc.Error.Exec.{Exec, pure, lift, modify, ◌>>=◌, ◌>>◌}
use durable_streams_referenc.Storage.{DateTime, is_stream_expired}
use durable_streams_referenc.Memory.Entry.{Limits}
use durable_streams_referenc.File.Record.{ScanIo, Scan, rebuild_index, failed}
use durable_streams_referenc.File.Dir.{
  DirIo, failed_at, validate_stream_dir, open_stream_file, meta_path,
}
use durable_streams_referenc.File.Entry.{StreamMeta, StreamEntry}
use durable_streams_referenc.File.Meta.{MetaFormat}
use durable_streams_referenc.File.Methods.{Settings}
use durable_streams_referenc.File.Disk.{StreamDir, FileStorage, dir_at, RemoveIo, remove_dir}

-- `a.saturating_add(b)`
unfoldable pub saturating_add : ℕ → ℕ → ℕ
saturating_add a b = min (a + b) u64_max

-- One entry of `read_dir`, and what the calls on it answer; `failure` is that of the entry itself.
pub record EntryIo : Type 0 where
  pub failure : Option Text
  pub path : Text
  pub is_dir : Bool
  pub dir : DirIo
  pub read_meta : Option Text
  pub open_dir : DirIo
  pub open_log : Option Text
  pub scan : ScanIo
  pub stat : Option Text
  pub expired : RemoveIo
  pub now : DateTime

-- The entry of a stream whose log has been scanned.
unfoldable pub restored_entry : StreamMeta → Scan → Text → StreamEntry
restored_entry meta found path = record {
  config = meta.config;
  index = found.index;
  closed = meta.closed;
  next_read_seq = found.next_read_seq;
  next_byte_offset = found.next_byte_offset;
  total_bytes = found.next_byte_offset;
  created_at = meta.created_at;
  producers = meta.producers;
  notify = 0;
  last_seq = meta.last_seq;
  file = found.file;
  file_len = length found.file;
  dir = path;
}

raise_error : Option Text → (Text → Error) → Exec FileStorage (Unit {0})
raise_error none f s = (ok tt, s)
raise_error (some e) f s = (err (f e), s)

parse_meta : MetaFormat → Text → Bytes → Result StreamMeta
unfolding codes
parse_meta format path payload = elim (format.from_slice payload) [
  | inl e ↦ err (failed_at (codes "failed to parse stream metadata ") (meta_path path) e)
  | inr meta ↦ ok meta
]

-- `rebuild_index`, which may truncate the log.
scan_log : ScanIo → Text → Exec FileStorage Scan
scan_log io path s =
    let d = dir_at path s.disk in
    elim (rebuild_index io d.log) [
      | err e ↦ (err e, s)
      | ok found ↦
          (ok found, record s { disk = insert path (record d { log = found.file }) s.disk })
    ]

-- An expired stream's directory is removed; another stream is put into the map and its bytes into
-- the count, which is `restored_total` here.
keep_entry : Settings → EntryIo → Text → StreamEntry → Exec FileStorage (Unit {0})
keep_entry st io name entry =
    if is_stream_expired entry.config io.now
    then remove_dir st io.expired entry.dir
    else modify (λ s. record s {
      streams = insert name entry s.streams;
      total_bytes = saturating_add s.total_bytes entry.total_bytes;
    })

-- A directory that has a `meta.json`.
unfoldable pub restore_dir : Settings → EntryIo → Bytes → Exec FileStorage (Unit {0})
unfolding codes failed raise_error parse_meta scan_log keep_entry
restore_dir st io payload = do
  raise_error io.read_meta (failed_at (codes "failed to read stream metadata ") (meta_path io.path))
  meta ← lift (parse_meta st.format io.path payload)
  lift (open_stream_file st.roots io.open_dir io.open_log io.path)
  found ← scan_log io.scan io.path
  raise_error io.stat (failed (codes "failed to stat stream log: "))
  keep_entry st io meta.name (restored_entry meta found io.path)

-- One round of the loop.
unfoldable pub restore_entry : Settings → EntryIo → Exec FileStorage (Unit {0})
unfolding codes failed
restore_entry st io s = elim io.failure [
  | some e ↦ (err (failed (codes "failed to inspect storage entry: ") e), s)
  | none ↦
      if not io.is_dir then (ok tt, s) else elim (validate_stream_dir st.roots io.dir io.path) [
        | err _ ↦ (ok tt, s)
        | ok _ ↦ elim (dir_at io.path s.disk).meta [
          | none ↦ (ok tt, s)
          | some payload ↦ restore_dir st io payload s
        ]
      ]
]

unfoldable pub restore_entries : Settings → List EntryIo → Exec FileStorage (Unit {0})
restore_entries st [] = pure tt
restore_entries st (io ∷ entries) = do restore_entry st io; restore_entries st entries

-- `load_existing_streams`, on a storage that is empty yet; `read_dir` fails or lists the entries.
unfoldable pub load_existing_streams :
    Settings → (read_dir : Text ⊎ List EntryIo) → Exec FileStorage (Unit {0})
unfolding codes
load_existing_streams st (inl e) s =
    (err (failed_at (codes "failed to read storage directory ") st.roots.root_dir e), s)
load_existing_streams st (inr entries) s = restore_entries st entries s

-- The arguments of `FileStorage::new` and what its calls answer.
pub record StartIo : Type 0 where
  pub create_dir_all : Option Text
  pub canonicalize : Text ⊎ Text
  pub read_dir : Text ⊎ List EntryIo

loaded : Settings → Result (Unit {0}) × FileStorage → Result (Settings × FileStorage)
loaded st (ok _, s) = ok (st, s)
loaded st (err e, s) = err e

-- `FileStorage::new`. What a failed start leaves on the disk is not said.
unfoldable pub new_storage :
    StartIo
    → (root_dir : Text) → Limits
    → Bool
    → MetaFormat
    → Dict StreamDir
    → Result (Settings × FileStorage)
unfolding codes loaded
new_storage io root_dir limits sync_on_append format disk = elim io.create_dir_all [
  | some e ↦ err (failed_at (codes "failed to create storage directory ") root_dir e)
  | none ↦ elim io.canonicalize [
    | inl e ↦ err (failed_at (codes "failed to canonicalize storage directory ") root_dir e)
    | inr root_dir_canonical ↦
        let st : Settings = record {
          limits = limits;
          roots = record { root_dir = root_dir; root_dir_canonical = root_dir_canonical };
          sync_on_append = sync_on_append;
          format = format;
        } in
        loaded st (
          load_existing_streams st io.read_dir
            (record { streams = []; total_bytes = 0; disk = disk }))
  ]
]
