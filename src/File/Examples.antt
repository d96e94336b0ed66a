-- ===== src/File/Examples.antt =====
-- Tests of the file storage on small inputs, and its theorems at inputs that meet their hypotheses.
use durable_streams_referenc.Prelude.{
  ◌+◌, ◌≡◌, refl, subst, true, false, none, some, [], ◌∷◌, ◌++◌, arith, inl, inr, take, Bool, ◌⊎◌,
  ◌==◌, if◌then◌else◌, all,
}
use durable_streams_referenc.Prelude.Text.{
  Bytes, Text, codes, text_eq, eq_ignore_ascii_case, to_ascii_lowercase,
}
use durable_streams_referenc.Prelude.Word.{u64_add, to_u64}
use durable_streams_referenc.Prelude.Dict.{lookup, insert}
use durable_streams_referenc.Error.{ok}
use durable_streams_referenc.Offset.{start, new}
use durable_streams_referenc.Headers.{contains}
use durable_streams_referenc.Producer.{ProducerHeaders}
use durable_streams_referenc.Storage.{
  StreamConfig, Readings, is_stream_expired, validate_content_type, validate_seq, byte_len_of,
}
use durable_streams_referenc.Memory
use durable_streams_referenc.Memory.Entry.{Limits}
use durable_streams_referenc.Memory.Layout.{size, layout}
use durable_streams_referenc.File
use durable_streams_referenc.File.Record.{
  ScanIo, write_buf, to_le_bytes, from_le_bytes, to_u32, push_index, scan_round, scan_loop,
  rebuild_index,
}
use durable_streams_referenc.File.Record.Layout.{whole, index_from}
use durable_streams_referenc.File.Record.Rounds.{IsCalm}
use durable_streams_referenc.File.Record.Rebuild.{start as scan_start}
use durable_streams_referenc.File.Record.Safety.{
  IsRebuilt, scan_loop_enough, rebuild_index-IsRebuilt,
}
use durable_streams_referenc.File.Path.{components, path_starts_with, join}
use durable_streams_referenc.File.Dir.{
  DirIo, is_name_char, stream_dir_for_name, validate_stream_dir, open_stream_file,
}
use durable_streams_referenc.File.Containment.{stream_dir_for_name-contained}
use durable_streams_referenc.File.Entry.{
  StreamMeta, StreamEntry, new_entry, Locked, LogIo, append_records, append_file, batch_size,
  check_and_reserve, write_log, sync_log, push_records, push_record, notify_all, tail_of,
}
use durable_streams_referenc.File.Meta.{MetaFormat, ReadIo, write_metadata_for}
use durable_streams_referenc.File.Methods.{
  Settings, Io, batch_append_locked, record_seq, persist_best_effort,
}
use durable_streams_referenc.File.Disk.{FileStorage, lock, dir_at}
use durable_streams_referenc.File.View.{IsLogged}
use durable_streams_referenc.File.Failure.{IsDoneOrUndone, append_records-undone}
use durable_streams_referenc.File.Contract.{IsReady}
use durable_streams_referenc.File.Startup.{EntryIo, restore_dir}
use durable_streams_referenc.File.Restart.{IsOpened, IsRecovered, restore_dir-crash}
use durable_streams_referenc.File.Durable.{batch_append_locked-survives}
use durable_streams_referenc.File.Simulation.{
  shown, view_storage, batch_append-refines, append_with_producer-refines,
}

abbrev plain : Text
unfolding codes
plain = codes "text/plain"

abbrev orders : Text
unfolding codes
orders = codes "orders"

abbrev root : Text
unfolding codes
root = codes "/data"

abbrev orders_dir : Text
unfolding codes
orders_dir = codes "/data/b3JkZXJz"

abbrev hello : Bytes
hello = 1 ∷ 2 ∷ []

abbrev bye : Bytes
bye = 7 ∷ 8 ∷ 9 ∷ []

-- A file system on which every call succeeds.
abbrev calm : ScanIo
calm = record { stat = none; seek = λ _. none; read = λ _. none; set_len = none; seek_end = none }

calm-IsCalm : IsCalm calm
calm-IsCalm = record {
  stat = refl;
  seek = λ _. refl;
  read = λ _. refl;
  set_len = refl;
  seek_end = refl;
}

-- What a run of the storage computes with.
program : Unit {0}
unfolding codes stream_dir_for_name join path_starts_with components contains is_name_char
    rebuild_index scan_loop scan_round push_index from_le_bytes to_le_bytes to_u32 write_buf u64_add
    to_u64 new_entry batch_append_locked append_records append_file batch_size check_and_reserve
    write_log sync_log push_records push_record notify_all tail_of record_seq persist_best_effort
    write_metadata_for validate_stream_dir open_stream_file is_stream_expired validate_content_type
    validate_seq byte_len_of eq_ignore_ascii_case to_ascii_lowercase text_eq lookup insert size
    layout dir_at index_from
program = tt

-- A torn file: the second record lacks its last byte.
abbrev torn : Bytes
torn = 2 ∷ 0 ∷ 0 ∷ 0 ∷ 1 ∷ 2 ∷ 3 ∷ 0 ∷ 0 ∷ 0 ∷ 7 ∷ 8 ∷ []

scan_loop_enough_example :
    scan_loop calm (12 + 5) 0 (scan_start torn) ≡ scan_loop calm 12 0 (scan_start torn)
scan_loop_enough_example = scan_loop_enough calm 12 5 0 (scan_start torn) (omega arith)

rebuild_index-IsRebuilt_example : IsRebuilt torn (rebuild_index calm torn)
rebuild_index-IsRebuilt_example = rebuild_index-IsRebuilt calm calm-IsCalm torn

-- An encoder that writes the letters of the name itself.
stream_dir_for_name-contained_example :
    (components orders_dir ≡ components root ++ codes "b3JkZXJz" ∷ [])
    × (all is_name_char (codes "b3JkZXJz") ≡ true)
unfolding codes
stream_dir_for_name-contained_example =
    stream_dir_for_name-contained (λ _. codes "b3JkZXJz") root orders orders_dir (λ e. cc)
      (unfold program in refl)

-- The scan of the torn file finds the first message and cuts the rest off.
torn_test :
    rebuild_index calm torn
    ≡ ok (record {
      index = index_from 0 0 0 (hello ∷ []);
      next_read_seq = 1;
      next_byte_offset = 2;
      file = take 6 torn;
    })
unfolding program
torn_test = refl

abbrev limits : Limits
limits = record { max_total_bytes = 100; max_stream_bytes = 60 }

abbrev config : StreamConfig
config = record {
  content_type = plain;
  ttl_seconds = none;
  expires_at = none;
  created_closed = false;
}

abbrev meta_with : Bool → StreamMeta
meta_with closed = record {
  name = orders;
  config = config;
  closed = closed;
  created_at = 5;
  last_seq = none;
  producers = [];
}

-- A format that keeps the closed flag, in one byte.
abbrev parse_flag : Bytes → Text ⊎ StreamMeta
unfolding codes
parse_flag (flag ∷ []) = inr (meta_with (flag == 1))
parse_flag _ = inl (codes "expected one byte")

abbrev flag_format : MetaFormat
flag_format = record {
  to_vec = λ meta. inr ((if meta.closed then 1 else 0) ∷ []);
  from_slice = parse_flag;
}

abbrev settings : Settings
settings = record {
  limits = limits;
  roots = record { root_dir = root; root_dir_canonical = root };
  sync_on_append = true;
  format = flag_format;
}

abbrev directory : DirIo
directory = record {
  exists = true;
  symlink_metadata = inr (record { is_symlink = false; is_dir = true });
  canonicalize = inr orders_dir;
}

abbrev working : Io
working = record {
  log = record { write_all = none; sync_data = none; stat_ok = true };
  meta = record { dir = directory; write = none; rename = none };
}

-- A stream whose log holds one message.
abbrev entry : StreamEntry
entry = record (new_entry config 5 true [] orders_dir) {
  index = record { offset = new 0 0; file_pos = 4; byte_len = 2 } ∷ [];
  next_read_seq = 1;
  next_byte_offset = 2;
  total_bytes = 2;
  file = 2 ∷ 0 ∷ 0 ∷ 0 ∷ 1 ∷ 2 ∷ [];
  file_len = 6;
}

abbrev storage : FileStorage
storage = record {
  streams = (orders, entry) ∷ [];
  total_bytes = 2;
  disk = (orders_dir, record { log = entry.file; meta = some (0 ∷ []) }) ∷ [];
}

abbrev locked : Locked
locked = record { stream = entry; meta = some (0 ∷ []); total_bytes = 2 }

entry-IsLogged : IsLogged entry
unfolding new_entry
entry-IsLogged = record { inside = (omega arith, omega arith); measured = refl }

entry-IsReady : IsReady settings working (bye ∷ []) locked
unfolding program
entry-IsReady = record {
  working = record { written = refl; synced = refl };
  short = (omega arith, tt);
  fits = omega arith;
  logged = entry-IsLogged;
  sound = record {
    word = omega arith;
    valid = record { laid_out = refl; counted = refl; measured = refl; totalled = refl };
    small = omega arith;
    inside = omega arith;
    bounded = omega arith;
  };
  countable = record { bytes = omega arith; count = omega arith };
}

abbrev disk_full : LogIo
unfolding codes
disk_full = record { write_all = some (codes "no space left", 5); sync_data = none; stat_ok = true }

append_records-undone_example :
    IsDoneOrUndone locked (append_records limits true disk_full orders (bye ∷ []) locked)
unfolding disk_full
append_records-undone_example =
    append_records-undone limits true disk_full orders refl (bye ∷ []) locked entry-IsLogged
      (unfold size in omega arith)

abbrev reading : ReadIo
reading = record { clone = none; seek = none; read = none }

-- The directory of the stream after a crash in the middle of the write of a second message.
abbrev after_crash : Bytes → FileStorage
after_crash log = record {
  streams = [];
  total_bytes = 0;
  disk = (orders_dir, record { log = log; meta = some (1 ∷ []) }) ∷ [];
}

abbrev opening : EntryIo
opening = record {
  failure = none;
  path = orders_dir;
  is_dir = true;
  dir = directory;
  read_meta = none;
  open_dir = directory;
  open_log = none;
  scan = calm;
  stat = none;
  expired = record { dir = directory; failure = none };
  now = 20;
}

opening-IsOpened : IsOpened settings opening
unfolding program
opening-IsOpened = record { meta_read = refl; opened = refl; calm = calm-IsCalm; stat = refl }

restore_dir-crash_example :
    (e : StreamEntry) × ((restore_dir settings opening (1 ∷ []) (after_crash torn)).0 ≡ ok tt)
    × (lookup orders (restore_dir settings opening (1 ∷ []) (after_crash torn)).1.streams ≡ some e)
    × IsRecovered (meta_with true) (hello ∷ whole 6 (bye ∷ [])) e
unfolding program
restore_dir-crash_example =
    restore_dir-crash settings opening (1 ∷ []) (meta_with true) (after_crash torn) (hello ∷ [])
      (bye ∷ []) 6 opening-IsOpened refl refl refl (omega arith, (omega arith, tt)) (omega arith)
      (omega arith)

abbrev log_after : Bytes
log_after = 2 ∷ 0 ∷ 0 ∷ 0 ∷ 1 ∷ 2 ∷ 3 ∷ 0 ∷ 0 ∷ 0 ∷ 7 ∷ 8 ∷ 9 ∷ 2 ∷ 0 ∷ []

batch_append_locked-survives_example :
    (e : StreamEntry) × ((restore_dir settings opening (1 ∷ []) (after_crash log_after)).0 ≡ ok tt)
    × (lookup orders (restore_dir settings opening (1 ∷ []) (after_crash log_after)).1.streams
        ≡ some e)
    × IsRecovered (meta_with true) ((hello ∷ []) ++ bye ∷ [] ++ whole 2 (hello ∷ [])) e
unfolding program
batch_append_locked-survives_example =
    batch_append_locked-survives settings working orders (bye ∷ []) (hello ∷ []) 2 plain none 7
      locked (new 2 5) opening (1 ∷ []) (meta_with true) (after_crash log_after) entry-IsReady refl
      refl opening-IsOpened refl refl refl (omega arith, (omega arith, (omega arith, tt)))
      (omega arith) (omega arith)

storage-IsReady :
    (e : StreamEntry)
    → lookup orders storage.streams ≡ some e
    → IsReady settings working (bye ∷ []) (lock e storage)
unfolding program lock
storage-IsReady e found =
    let same : entry ≡ e = cc found in
    subst (λ t. IsReady settings working (bye ∷ []) (lock t storage)) same entry-IsReady

batch_append-refines_example :
    shown limits (File.batch_append settings working orders (bye ∷ []) plain none 7 storage)
    ≡ Memory.batch_append orders (bye ∷ []) plain none 7 (view_storage limits storage)
batch_append-refines_example =
    batch_append-refines settings working orders (bye ∷ []) plain none storage storage-IsReady 7

abbrev producer : ProducerHeaders
producer = record { id = orders; epoch = 0; seq = 0 }

abbrev readings : Readings
readings = record { expiry = 7; cleanup = 7; stamp = 8 }

append_with_producer-refines_example :
    shown limits (
      File.append_with_producer settings working orders
        (bye ∷ [])
        plain
        producer
        true
        none
        readings
        storage)
    ≡ Memory.append_with_producer orders
        (bye ∷ [])
        plain
        producer
        true
        none
        readings
        (view_storage limits storage)
append_with_producer-refines_example =
    append_with_producer-refines settings working orders (bye ∷ []) plain none storage
      storage-IsReady producer true readings
