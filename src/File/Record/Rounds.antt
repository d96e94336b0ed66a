-- ===== src/File/Record/Rounds.antt =====
-- The rounds of the scan of a log file, src/storage/file.rs, on a file that can be read.
use durable_streams_referenc.Prelude.{
  ℕ, zero, suc, ◌+◌, ◌<◌, ◌≡◌, refl, sym, ap, ◌∙◌, true, false, none, List, [], ◌∷◌, ◌++◌,
  append-nil, append_assoc, arith, ltb, if◌then◌else◌, length, length-append, take, is_empty,
  take-append_length, drop-append_length,
}
use durable_streams_referenc.Prelude.Text.{Bytes}
use durable_streams_referenc.Prelude.Word.{u64_mod, u64_add, u64_add_exact}
use durable_streams_referenc.Error.{Result, ok}
use durable_streams_referenc.Offset.{new}
use durable_streams_referenc.Memory.Layout.{size}
use durable_streams_referenc.File.Record.{
  to_le_bytes, from_le_bytes, write_buf, ScanIo, Scan, truncate, push_index, scan_round, scan_loop,
}
use durable_streams_referenc.File.Record.Layout.{
  index_from, IsShort, record_of, length-record_of, from_le_bytes-to_le_bytes, header_lem,
  length-header, write_buf_cons,
}

-- No call on the file fails.
pub record IsCalm (io : ScanIo) : Type 0 where
  pub stat : io.stat ≡ none
  pub seek : (cursor : ℕ) → io.seek cursor ≡ none
  pub read : (cursor : ℕ) → io.read cursor ≡ none
  pub set_len : io.set_len ≡ none
  pub seek_end : io.seek_end ≡ none

-- The scan after it has found these messages from a position on.
abbrev pub found : Bytes → Scan → List Bytes → Scan
found before s zs = record {
  index = s.index ++ index_from (length before) s.next_read_seq s.next_byte_offset zs;
  next_read_seq = s.next_read_seq + length zs;
  next_byte_offset = s.next_byte_offset + size zs;
  file = before ++ write_buf zs;
}

pub found-nothing : (before : Bytes) (s : Scan) → s.file ≡ before → s ≡ found before s []
unfolding index_from write_buf size
found-nothing before s e = ground (arith, e, append-nil s.index, append-nil before)

pub loop_at_end : (io : ScanIo) (fuel : ℕ) (s : Scan) → scan_loop io fuel (length s.file) s ≡ ok s
unfolding scan_loop
loop_at_end io zero s = refl
loop_at_end io (suc fuel) s = ground arith

module _ (io : ScanIo) (calm : IsCalm io) (before rest : Bytes) (s : Scan)
    (file : s.file ≡ before ++ rest) (continue : ℕ → Scan → Result Scan) where
  abbrev cut : Scan
  cut = record s { file = before }

  truncate_lem : truncate io (length before) s ≡ ok cut
  unfolding truncate
  truncate_lem = rw (calm.set_len, file, take-append_length before rest)

  -- A round at the end of the bytes that have been scanned.
  scan_round_lem : scan_round io (length before) s continue ≡ (
      if is_empty (take 4 rest)
      then ok s
      else if ltb (length (take 4 rest)) 4
      then ok cut
      else if ltb (length before + length rest) (length before + 4 + from_le_bytes (take 4 rest))
      then ok cut
      else continue
          (length before + 4 + from_le_bytes (take 4 rest))
          (push_index (length before) (from_le_bytes (take 4 rest)) s))
  unfolding scan_round
  scan_round_lem =
      rw
        (
          scan_round,
          calm.seek (length before),
          calm.read (length before),
          truncate_lem,
          file,
          drop-append_length before rest,
          length-append before rest,
        )
        refl

module _ (io : ScanIo) (calm : IsCalm io) where
  pub loop_round :
      (fuel : ℕ) (before rest : Bytes) (s : Scan)
      → s.file ≡ before ++ rest
      → 0 < length rest
      → scan_loop io (suc fuel) (length before) s
        ≡ scan_round io (length before) s (scan_loop io fuel)
  unfolding scan_loop
  loop_round fuel before rest s file some_left =
      let before_end : length before < length s.file =
        rw (file, length-append before rest) (omega (arith, some_left)) in
      ground (arith, before_end)

  -- A round that is cut short where a record begins.
  pub scan_round_torn :
      (rest : Bytes) (before : Bytes) (s : Scan) (fuel : ℕ)
      → s.file ≡ before ++ rest
      → is_empty (take 4 rest) ≡ false
      → (if ltb (length (take 4 rest)) 4
          then true
          else ltb (length before + length rest) (length before + 4 + from_le_bytes (take 4 rest)))
        ≡ true
      → 0 < length rest
      → scan_loop io (suc fuel) (length before) s ≡ ok (found before s [])
  unfolding index_from size write_buf
  scan_round_torn rest before s fuel file some_header short some_left =
      loop_round fuel before rest s file some_left
      ∙ scan_round_lem io calm before rest s file (scan_loop io fuel)
      ∙ ground (arith, append-nil s.index, append-nil before)

  -- One to three bytes of a header are cut off.
  pub torn_header :
      (n fuel : ℕ) (before : Bytes) (s : Scan) (z : Bytes) (zs : List Bytes)
      → 0 < n
      → n < 4
      → s.file ≡ before ++ take n (write_buf (z ∷ zs))
      → scan_loop io (suc fuel) (length before) s ≡ ok (found before s [])
  unfolding write_buf to_le_bytes
  torn_header zero fuel before s z zs h k file = absurd (omega arith)
  torn_header (suc zero) fuel before s z zs h k file =
      scan_round_torn (take 1 (write_buf (z ∷ zs))) before s fuel file refl refl (omega arith)
  torn_header (suc (suc zero)) fuel before s z zs h k file =
      scan_round_torn (take 2 (write_buf (z ∷ zs))) before s fuel file refl refl (omega arith)
  torn_header (suc (suc (suc zero))) fuel before s z zs h k file =
      scan_round_torn (take 3 (write_buf (z ∷ zs))) before s fuel file refl refl (omega arith)
  torn_header (suc (suc (suc (suc n)))) fuel before s z zs h k file = absurd (omega arith)

  -- A message is cut off behind its header.
  pub torn_message :
      (m fuel : ℕ) (before : Bytes) (s : Scan) (z : Bytes) (zs : List Bytes)
      → m < length z
      → IsShort z
      → s.file ≡ before ++ take (suc (suc (suc (suc m)))) (write_buf (z ∷ zs))
      → scan_loop io (suc fuel) (length before) s ≡ ok (found before s [])
  unfolding to_le_bytes
  torn_message m fuel before s z zs h short file =
      let header = header_lem m z zs short in
      let measured = length-header m z zs short h in
      let over : length before + (4 + m) < length before + 4 + length z = omega (arith, h) in
      scan_round_torn (take (suc (suc (suc (suc m)))) (write_buf (z ∷ zs))) before s fuel file
        (rw header refl)
        (rw (header, from_le_bytes-to_le_bytes (length z) short, measured) (ground arith))
        (rw measured (omega arith))

  -- A whole record is read and the scan goes on behind it.
  pub whole_record :
      (fuel : ℕ) (before rest : Bytes) (s : Scan) (z : Bytes)
      → IsShort z
      → s.file ≡ before ++ (record_of z ++ rest)
      → scan_loop io (suc fuel) (length before) s
        ≡ scan_loop io fuel
            (length (before ++ record_of z))
            (push_index (length before) (length z) s)
  unfolding to_le_bytes
  whole_record fuel before rest s z short file =
      let behind : length (before ++ record_of z) ≡ length before + 4 + length z =
        length-append before (record_of z) ∙ omega arith in
      loop_round fuel before (record_of z ++ rest) s file (omega arith)
      ∙ scan_round_lem io calm before (record_of z ++ rest) s file (scan_loop io fuel)
      ∙ rw (from_le_bytes-to_le_bytes (length z) short, length-append z rest, behind) (ground arith)

  -- What the scan has found of a record and of those behind it.
  pub found-record :
      (before : Bytes) (s : Scan) (z : Bytes) (zs : List Bytes)
      → IsShort z
      → s.next_read_seq + 1 < u64_mod
      → s.next_byte_offset + length z < u64_mod
      → found (before ++ record_of z) (push_index (length before) (length z) s) zs
        ≡ found before s (z ∷ zs)
  unfolding push_index index_from size
  found-record before s z zs short counted measured =
      let behind : length (before ++ record_of z) ≡ length before + 4 + length z =
        length-append before (record_of z) ∙ (let l = length-record_of z in omega (arith, l)) in
      let read_seq : u64_add s.next_read_seq 1 ≡ suc s.next_read_seq =
        u64_add_exact s.next_read_seq 1 counted ∙ omega arith in
      let byte_offset : u64_add s.next_byte_offset (length z) ≡ s.next_byte_offset + length z =
        u64_add_exact s.next_byte_offset (length z) measured in
      rw (behind, read_seq, byte_offset, write_buf_cons z zs short)
        (ground (
          arith,
          append_assoc before (record_of z) (write_buf zs),
          append_assoc (to_le_bytes (length z)) z (write_buf zs),
          append_assoc s.index
              (record {
                offset = new s.next_read_seq s.next_byte_offset;
                file_pos = length before + 4;
                byte_len = length z;
              }
                ∷ [])
              (index_from (length before + 4 + length z) (suc s.next_read_seq)
                (s.next_byte_offset + length z) zs),
        ))

  pub scan_nothing :
      (fuel : ℕ) (before : Bytes) (s : Scan)
      → s.file ≡ before
      → scan_loop io fuel (length before) s ≡ ok (found before s [])
  scan_nothing fuel before s file =
      ap (λ t. scan_loop io fuel (length t) s) (sym file)
      ∙ loop_at_end io fuel s
      ∙ ap ok (found-nothing before s file)
