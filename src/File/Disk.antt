-- ===== src/File/Disk.antt =====
-- src/storage/file.rs: the storage's state, its directories on the disk, and the steps that the
-- methods of the storage share. A directory that has no log yet is one with an empty log.
use durable_streams_referenc.Prelude.{ℕ, Bool, Option, none, some, []}
use durable_streams_referenc.Prelude.Text.{Bytes, Text, codes}
use durable_streams_referenc.Prelude.Word.{saturating_sub}
use durable_streams_referenc.Prelude.Dict.{Dict, lookup, insert, remove}
use durable_streams_referenc.Error.{not_found, Result, ok, err}
use durable_streams_referenc.Error.Exec.{Exec, lift, gets, modify, ◌>>=◌, ◌>>◌}
use durable_streams_referenc.Storage.{DateTime, StreamConfig}
use durable_streams_referenc.File.Dir.{
  DirIo, failed_at, stream_dir_for_name, validate_stream_dir, remove_stream_dir, open_stream_file,
}
use durable_streams_referenc.File.Entry.{StreamEntry, new_entry, Locked}
use durable_streams_referenc.File.Meta.{MetaIo, write_metadata_for}
use durable_streams_referenc.File.Methods.{Settings}

-- `data.log` and `meta.json`
pub record StreamDir : Type 0 where
  pub log : Bytes
  pub meta : Option Bytes

pub record FileStorage : Type 0 where
  pub streams : Dict StreamEntry
  pub total_bytes : ℕ
  pub disk : Dict StreamDir

abbrev pub empty_dir : StreamDir
empty_dir = record { log = []; meta = none }

unfoldable pub dir_at : Text → Dict StreamDir → StreamDir
dir_at dir disk = elim (lookup dir disk) [ none ↦ empty_dir | some d ↦ d ]

-- What a method finds under the lock of a stream.
unfoldable pub lock : StreamEntry → FileStorage → Locked
unfolding dir_at
lock e s = record { stream = e; meta = (dir_at e.dir s.disk).meta; total_bytes = s.total_bytes }

-- What a method has done to the files and the count.
unfoldable pub write_disk : Locked → FileStorage → FileStorage
write_disk h s = record s {
  total_bytes = h.total_bytes;
  disk = insert h.stream.dir (record { log = h.stream.file; meta = h.meta }) s.disk;
}

unfoldable pub unlock :
    {A : Type 0} → Text → FileStorage → Result A × Locked → Result A × FileStorage
unlock name s (r, h) = (r, record (write_disk h s) { streams = insert name h.stream s.streams })

-- `get_stream`, then the method under the stream's write lock.
unfoldable pub with_locked : {A : Type 0} → Text → Exec Locked A → Exec FileStorage A
unfolding unlock write_disk lock
with_locked name body s = elim (lookup name s.streams) [
  | none ↦ (err (not_found name), s)
  | some e ↦ unlock name s (body (lock e s))
]

-- How `remove_dir_all` ends: it removes the directory, or fails and leaves something.
pub record RemoveIo : Type 0 where
  pub dir : DirIo
  pub failure : Option (Text × StreamDir)

remove_error : Option (Text × StreamDir) → Option Text
remove_error none = none
remove_error (some (e, left)) = some e

remove_files : Option (Text × StreamDir) → Text → FileStorage → FileStorage
remove_files none dir s = record s { disk = remove dir s.disk }
remove_files (some (_, left)) dir s = record s { disk = insert dir left s.disk }

-- `remove_stream_dir`, on the disk.
unfoldable pub remove_dir : Settings → RemoveIo → Text → Exec FileStorage (Unit {0})
unfolding remove_error remove_files
remove_dir st io dir s = (
  remove_stream_dir st.roots io.dir (remove_error io.failure) dir,
  elim (validate_stream_dir st.roots io.dir dir) [
    | ok _ ↦ remove_files io.failure dir s
    | err _ ↦ s
  ],
)

-- A stream is taken out of the map and its bytes out of the count, and then its directory is removed.
unfoldable pub drop_stream : Settings → RemoveIo → Text → StreamEntry → Exec FileStorage (Unit {0})
drop_stream st io name e = do
  modify (λ s. record s {
    streams = remove name s.streams;
    total_bytes = saturating_sub s.total_bytes e.total_bytes;
  })
  remove_dir st io e.dir

-- The calls of a creation: the errors of `create_dir_all` and of `open`, and whether `metadata`
-- succeeds in `StreamEntry::new`.
pub record CreateIo : Type 0 where
  pub evicted : RemoveIo
  pub create_dir_all : Option Text
  pub dir : DirIo
  pub open_dir : DirIo
  pub open_log : Option Text
  pub stat_ok : Bool
  pub meta : MetaIo

make_dir : Option Text → Text → Exec FileStorage (Unit {0})
unfolding codes
make_dir create_dir_all dir s = elim create_dir_all [
  | some e ↦ (err (failed_at (codes "failed to create stream directory ") dir e), s)
  | none ↦ (ok tt, record s { disk = insert dir (dir_at dir s.disk) s.disk })
]

-- A creation, up to `StreamEntry::new`: the log of a directory that is already there is kept.
unfoldable pub open_entry :
    Settings
    → CreateIo
    → (encode : Bytes → Text) → Text
    → StreamConfig
    → DateTime
    → Exec FileStorage StreamEntry
unfolding make_dir
open_entry st io encode name config created_at = do
  dir ← lift (stream_dir_for_name encode st.roots.root_dir name)
  make_dir io.create_dir_all dir
  lift (validate_stream_dir st.roots io.dir dir)
  lift (open_stream_file st.roots io.open_dir io.open_log dir)
  gets (λ s. new_entry config created_at io.stat_ok (dir_at dir s.disk).log dir)

run_locked : {A : Type 0} → FileStorage → Result A × Locked → Result StreamEntry × FileStorage
run_locked s (ok _, h) = (ok h.stream, write_disk h s)
run_locked s (err e, h) = (err e, write_disk h s)

-- Work on an entry that is not in the map yet.
unfoldable pub on_new : {A : Type 0} → Exec Locked A → StreamEntry → Exec FileStorage StreamEntry
unfolding run_locked write_disk lock
on_new body entry s = run_locked s (body (lock entry s))

-- `write_metadata_for` and the insertion into the map.
unfoldable pub insert_entry : Settings → MetaIo → Text → StreamEntry → Exec FileStorage (Unit {0})
insert_entry st io name entry = do
  on_new (write_metadata_for st.roots st.format io name) entry
  modify (λ s. record s { streams = insert name entry s.streams })
