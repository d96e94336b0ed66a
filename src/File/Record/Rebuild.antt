-- ===== src/File/Record/Rebuild.antt =====
-- What the scan of a log file finds, src/storage/file.rs: the whole records of a file whose last write
-- may have been cut off anywhere.
use durable_streams_referenc.Prelude.{
  ℕ, zero, suc, ◌+◌, ◌-◌, ◌≤◌, ◌<◌, ◌≡◌, refl, sym, ap, ◌∙◌, List, [], ◌∷◌, ◌++◌, append-nil,
  append_assoc, arith, ltb, All, Bool-cases, inl, inr, length, length-append, take,
}
use durable_streams_referenc.Prelude.Text.{Bytes}
use durable_streams_referenc.Prelude.Word.{u64_mod, u64_add, u64_add_exact}
use durable_streams_referenc.Error.{ok}
use durable_streams_referenc.Memory.Layout.{size}
use durable_streams_referenc.File.Record.{
  to_le_bytes, write_buf, ScanIo, Scan, push_index, scan_loop, rebuild_index,
}
use durable_streams_referenc.File.Record.Layout.{
  whole, index_from, IsShort, record_of, take-record, take-write_buf_nil, write_buf-append,
  whole-append, take-append_ge, whole-torn, whole-record,
}
use durable_streams_referenc.File.Record.Rounds.{
  IsCalm, found, found-record, scan_nothing, torn_header, torn_message, whole_record,
}

-- What a scan starts with.
abbrev pub start : Bytes → Scan
start file = record { index = []; next_read_seq = 0; next_byte_offset = 0; file = file }

module _ (io : ScanIo) (calm : IsCalm io) where
  rebuilt :
      (zs : List Bytes) (n fuel : ℕ) (before : Bytes) (s : Scan)
      → All IsShort zs
      → s.file ≡ before ++ take n (write_buf zs)
      → length (take n (write_buf zs)) ≤ fuel
      → s.next_read_seq + length zs < u64_mod
      → s.next_byte_offset + size zs < u64_mod
      → scan_loop io fuel (length before) s ≡ ok (found before s (whole n zs))
  unfolding write_buf to_le_bytes size push_index
  rebuilt [] n fuel before s short file enough counted measured =
      scan_nothing io calm fuel before s (file ∙ rw (take-write_buf_nil n) (append-nil before))
  rebuilt (z ∷ zs) zero fuel before s short file enough counted measured =
      rw (whole-torn 0 z zs (omega arith))
        (scan_nothing io calm fuel before s (file ∙ append-nil before))
  rebuilt (z ∷ zs) (suc n) zero before s short file enough counted measured = absurd (omega arith)
  rebuilt (z ∷ zs) (suc zero) (suc fuel) before s short file enough counted measured =
      rw (whole-torn 1 z zs (omega arith))
        (torn_header io calm 1 fuel before s z zs (omega arith) (omega arith) file)
  rebuilt (z ∷ zs) (suc (suc zero)) (suc fuel) before s short file enough counted measured =
      rw (whole-torn 2 z zs (omega arith))
        (torn_header io calm 2 fuel before s z zs (omega arith) (omega arith) file)
  rebuilt (z ∷ zs) (suc (suc (suc zero))) (suc fuel) before s short file enough counted measured =
      rw (whole-torn 3 z zs (omega arith))
        (torn_header io calm 3 fuel before s z zs (omega arith) (omega arith) file)
  rebuilt (z ∷ zs) (suc (suc (suc (suc m)))) (suc fuel) before s short file enough counted
        measured =
      elim (Bool-cases (ltb m (length z))) [
        | inl torn ↦
            let torn_before_end : m < length z = ground arith in
            let reaches : suc (suc (suc (suc m))) < 4 + length z = omega (arith, torn_before_end) in
            rw (whole-torn (suc (suc (suc (suc m)))) z zs reaches)
              (torn_message io calm m fuel before s z zs torn_before_end short.0 file)
        | inr fits ↦
            let inside : length z ≤ m = ground arith in
            let rest : Bytes = take (m - length z) (write_buf zs) in
            let split = take-record m z zs short.0 inside in
            let s' : Scan = push_index (length before) (length z) s in
            let file' : s.file ≡ before ++ (record_of z ++ rest) =
              file ∙ ap (λ t. before ++ t) split in
            let longer = ap length split in
            let counted_rest = length-append z rest in
            let enough' : length rest ≤ fuel = omega (arith, longer, enough, counted_rest) in
            let counted' : s.next_read_seq + 1 < u64_mod = omega (arith, counted) in
            let measured' : s.next_byte_offset + length z < u64_mod = omega (arith, measured) in
            let read_seq : u64_add s.next_read_seq 1 ≡ s.next_read_seq + 1 =
              u64_add_exact s.next_read_seq 1 counted' in
            let byte_offset = u64_add_exact s.next_byte_offset (length z) measured' in
            rw (whole-record m z zs inside) (
              whole_record io calm fuel before rest s z short.0 file'
              ∙ rebuilt zs (m - length z) fuel (before ++ record_of z) s' short.1
                  (file' ∙ sym (append_assoc before (record_of z) rest)) enough'
                  (rw read_seq (omega (arith, counted))) (rw byte_offset (omega (arith, measured)))
              ∙ ap ok (
                  found-record io calm before s z (whole (m - length z) zs) short.0 counted'
                    measured'))
      ]

  rebuild_index_calm :
      (file : Bytes) (s : Scan)
      → scan_loop io (length file) 0 (start file) ≡ ok s
      → rebuild_index io file ≡ ok s
  unfolding rebuild_index
  rebuild_index_calm file s e = ground (arith, calm.stat, calm.seek_end, e)

  -- A file that holds records, cut off after some number of bytes, is rebuilt to the index of the
  -- messages whose records are whole and is truncated behind the last of them. No call on the file
  -- fails, each message's length fits a header, and the counters fit a `u64`.
  pub rebuild_index-torn :
      (zs : List Bytes) (n : ℕ)
      → All IsShort zs
      → length zs < u64_mod
      → size zs < u64_mod
      → rebuild_index io (take n (write_buf zs))
        ≡ ok (record {
          index = index_from 0 0 0 (whole n zs);
          next_read_seq = length (whole n zs);
          next_byte_offset = size (whole n zs);
          file = write_buf (whole n zs);
        })
  rebuild_index-torn zs n short counted measured =
      rebuild_index_calm (take n (write_buf zs))
        (found [] (start (take n (write_buf zs))) (whole n zs))
        (rebuilt zs n (length (take n (write_buf zs))) [] (start (take n (write_buf zs))) short refl
          (omega arith) (omega (arith, counted)) (omega (arith, measured)))
      ∙ ground arith

  take-write_buf-append :
      (n : ℕ) (xs ys : List Bytes)
      → take (length (write_buf xs) + n) (write_buf (xs ++ ys))
        ≡ write_buf xs ++ take n (write_buf ys)
  take-write_buf-append n xs ys =
      let left : length (write_buf xs) + n - length (write_buf xs) ≡ n = omega arith in
      rw (write_buf-append xs ys) (
        take-append_ge (length (write_buf xs) + n) (write_buf xs) (write_buf ys) (omega arith)
        ∙ ap (λ t. write_buf xs ++ take t (write_buf ys)) left)

  pub rebuild_index-crash :
      (xs ys : List Bytes) (n : ℕ)
      → All IsShort (xs ++ ys)
      → length (xs ++ ys) < u64_mod
      → size (xs ++ ys) < u64_mod
      → rebuild_index io (write_buf xs ++ take n (write_buf ys))
        ≡ ok (record {
          index = index_from 0 0 0 (xs ++ whole n ys);
          next_read_seq = length (xs ++ whole n ys);
          next_byte_offset = size (xs ++ whole n ys);
          file = write_buf (xs ++ whole n ys);
        })
  rebuild_index-crash xs ys n short counted measured =
      ap (rebuild_index io) (sym (take-write_buf-append n xs ys))
      ∙ rebuild_index-torn (xs ++ ys) (length (write_buf xs) + n) short counted measured
      ∙ rw (whole-append n xs ys)
