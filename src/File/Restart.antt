-- ===== src/File/Restart.antt =====
-- The restart of the file storage, src/storage/file.rs: the stream that is rebuilt from a directory.
use durable_streams_referenc.Prelude.{
  ℕ, suc, ◌+◌, ◌≤◌, ◌<◌, ◌≡◌, refl, sym, ap, ◌∙◌, false, none, some, List, [], ◌∷◌, ◌++◌, inl, inr,
  arith, Bool-cases, ltb, ◌-◌, map, All, length, length-append, take, drop, append_assoc,
}
use durable_streams_referenc.Prelude.Text.{Bytes, Text, text_eq_self}
use durable_streams_referenc.Prelude.Word.{u64_mod}
use durable_streams_referenc.Prelude.Dict.{Dict, lookup, insert, lookup-insert}
use durable_streams_referenc.Error.{ok}
use durable_streams_referenc.Offset.{new}
use durable_streams_referenc.Storage.{is_stream_expired}
use durable_streams_referenc.Memory.Layout.{size, layout, bodies, contents, IsValid, bodies-layout}
use durable_streams_referenc.File.Record.{Scan, write_buf, rebuild_index}
use durable_streams_referenc.File.Record.Layout.{
  whole, index_from, IsShort, record_of, length-record_of,
}
use durable_streams_referenc.File.Record.Rounds.{IsCalm}
use durable_streams_referenc.File.Record.Rebuild.{rebuild_index-crash}
use durable_streams_referenc.File.Record.Safety.{LiesIn}
use durable_streams_referenc.File.Dir.{open_stream_file}
use durable_streams_referenc.File.Entry.{StreamMeta, StreamEntry}
use durable_streams_referenc.File.Methods.{Settings}
use durable_streams_referenc.File.Disk.{FileStorage, dir_at}
use durable_streams_referenc.File.Startup.{EntryIo, restored_entry, restore_dir}
use durable_streams_referenc.File.View.{message_at, view, IsLogged, cut-record, write_buf-record}

-- The messages that an index over a log's records points to.
index_from-messages :
    (file before : Bytes) (zs : List Bytes) (s b : ℕ)
    → All IsShort zs
    → file ≡ before ++ write_buf zs
    → map (message_at file) (index_from (length before) s b zs) ≡ layout s b zs
unfolding index_from layout
index_from-messages file before [] s b short e = refl
index_from-messages file before (z ∷ zs) s b short e =
    let split : file ≡ before ++ (record_of z ++ write_buf zs) =
      e ∙ ap (λ t. before ++ t) (write_buf-record z zs short.0) in
    let end = length-append before (record_of z) in
    let width = length-record_of z in
    let behind : length before + 4 + length z ≡ length (before ++ record_of z) =
      omega (arith, end, width) in
    let first =
      ap (λ t. take (length z) (drop (length before + 4) t)) split
      ∙ cut-record before (write_buf zs) z in
    let rest =
      ap (λ t. map (message_at file) (index_from t (suc s) (b + length z) zs)) behind
      ∙ index_from-messages file (before ++ record_of z) zs (suc s) (b + length z) short.1
          (split ∙ sym (append_assoc before (record_of z) (write_buf zs))) in
    rw first (ap (λ t. record { offset = new s b; body = z; byte_len = length z } ∷ t) rest)

index_from-LiesIn :
    (before : Bytes) (zs : List Bytes) (begin s b : ℕ)
    → All IsShort zs
    → begin ≤ length before
    → LiesIn begin (length (before ++ write_buf zs)) (index_from (length before) s b zs)
unfolding index_from
index_from-LiesIn before [] begin s b short h =
    let l = length-append before (write_buf []) in omega (arith, l, h)
index_from-LiesIn before (z ∷ zs) begin s b short h =
    let split : before ++ write_buf (z ∷ zs) ≡ (before ++ record_of z) ++ write_buf zs =
      ap (λ t. before ++ t) (write_buf-record z zs short.0)
      ∙ sym (append_assoc before (record_of z) (write_buf zs)) in
    let end = length-append before (record_of z) in
    let width = length-record_of z in
    let behind : length before + 4 + length z ≡ length (before ++ record_of z) =
      omega (arith, end, width) in
    rw (split, behind)
      (
        omega (arith, h),
        index_from-LiesIn (before ++ record_of z) zs (length (before ++ record_of z)) (suc s)
            (b + length z) short.1 (omega arith),
      )

-- A stream that is rebuilt has these messages, and the rest of its metadata file.
pub record IsRecovered (meta : StreamMeta) (zs : List Bytes) (e : StreamEntry) : Type 0 where
  pub recovered : contents (view e) ≡ zs
  pub valid : IsValid (view e)
  pub logged : IsLogged e
  pub clean : e.file ≡ write_buf zs
  pub same_config : e.config ≡ meta.config
  pub same_closed : e.closed ≡ meta.closed
  pub same_producers : e.producers ≡ meta.producers
  pub same_seq : e.last_seq ≡ meta.last_seq

abbrev rescanned : List Bytes → Scan
rescanned zs = record {
  index = index_from 0 0 0 zs;
  next_read_seq = length zs;
  next_byte_offset = size zs;
  file = write_buf zs;
}

restored_entry-IsRecovered :
    (meta : StreamMeta) (zs : List Bytes) (path : Text)
    → All IsShort zs
    → IsRecovered meta zs (restored_entry meta (rescanned zs) path)
unfolding restored_entry
restored_entry-IsRecovered meta zs path short =
    let messages = index_from-messages (write_buf zs) [] zs 0 0 short refl in
    let found = ap bodies messages ∙ bodies-layout 0 0 zs in
    record {
      recovered = found;
      valid = record {
        laid_out = messages ∙ ap (layout 0 0) (sym found);
        counted = ap length (sym found);
        measured = ap size (sym found);
        totalled = ap size (sym found);
      };
      logged = record {
        inside = index_from-LiesIn [] zs 0 0 0 short (omega arith);
        measured = refl;
      };
      clean = refl;
      same_config = refl;
      same_closed = refl;
      same_producers = refl;
      same_seq = refl;
    }

inserted :
    (name : Text) (e : StreamEntry) (d : Dict StreamEntry) → lookup name (insert name e d) ≡ some e
inserted name e d = ground (arith, lookup-insert name name e d, text_eq_self name)

whole-IsShort :
    (n : ℕ) (xs ys : List Bytes) → All IsShort (xs ++ ys) → All IsShort (xs ++ whole n ys)
whole-IsShort n (x ∷ xs) ys (first, short) = (first, whole-IsShort n xs ys short)
whole-IsShort n [] [] short = short
whole-IsShort n [] (y ∷ ys) (first, short) = elim (Bool-cases (ltb n (4 + length y))) [
  | inl torn ↦ rw torn tt
  | inr fits ↦ rw fits (first, whole-IsShort (n - (4 + length y)) [] ys short)
]

-- The calls of the restart of one directory succeed.
pub record IsOpened (st : Settings) (io : EntryIo) : Type 0 where
  pub meta_read : io.read_meta ≡ none
  pub opened : open_stream_file st.roots io.open_dir io.open_log io.path ≡ ok tt
  pub calm : IsCalm io.scan
  pub stat : io.stat ≡ none

module _ (st : Settings) (io : EntryIo) (payload : Bytes) (meta : StreamMeta)
    (s : FileStorage) where
  restore_dir-scanned :
      (found : Scan)
      → IsOpened st io
      → st.format.from_slice payload ≡ inr meta
      → is_stream_expired meta.config io.now ≡ false
      → rebuild_index io.scan (dir_at io.path s.disk).log ≡ ok found
      → (restore_dir st io payload s).0 ≡ ok tt
        × ((restore_dir st io payload s).1.streams
            ≡ insert meta.name (restored_entry meta found io.path) s.streams)
  unfolding restore_dir restored_entry
  restore_dir-scanned found opened parsed live rebuilt =
      ground (arith, opened.meta_read, opened.opened, opened.stat)

  -- The restart of a directory whose calls succeed, whose metadata file holds the metadata of a
  -- stream that has not expired, and whose log holds the records of some messages and then a
  -- beginning, of any length, of the records of others: the stream comes back valid, with the first
  -- messages and with those of the others whose records are whole, its log truncated behind them,
  -- and with the configuration, the closed flag, the producers and the `Stream-Seq` of the metadata.
  -- The messages fit their headers and the counters a `u64`.
  pub restore_dir-crash :
      (xs ys : List Bytes) (n : ℕ)
      → IsOpened st io
      → st.format.from_slice payload ≡ inr meta
      → is_stream_expired meta.config io.now ≡ false
      → (dir_at io.path s.disk).log ≡ write_buf xs ++ take n (write_buf ys)
      → All IsShort (xs ++ ys)
      → length (xs ++ ys) < u64_mod
      → size (xs ++ ys) < u64_mod
      → (e : StreamEntry) × ((restore_dir st io payload s).0 ≡ ok tt)
        × (lookup meta.name (restore_dir st io payload s).1.streams ≡ some e)
        × IsRecovered meta (xs ++ whole n ys) e
  restore_dir-crash xs ys n opened parsed live log short counted measured =
      let zs = xs ++ whole n ys in
      let entry = restored_entry meta (rescanned zs) io.path in
      let (done, streams) = restore_dir-scanned (rescanned zs) opened parsed live (
        ap (rebuild_index io.scan) log
        ∙ rebuild_index-crash io.scan opened.calm xs ys n short counted measured) in
      (
        entry,
        done,
        ap (lookup meta.name) streams ∙ inserted meta.name entry s.streams,
        restored_entry-IsRecovered meta zs io.path (whole-IsShort n xs ys short),
      )
