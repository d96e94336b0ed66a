-- ===== src/File/Record.antt =====
-- src/storage/file.rs: the records of a log file, a little-endian `u32` length and then the message,
-- and the scan that rebuilds the index of a file when the server starts.
pub mod Layout
pub mod Rounds
pub mod Rebuild
pub mod Tiles
pub mod Safety
use durable_streams_referenc.Prelude.{
  Bool, true, false, is_empty, ℕ, zero, suc, ◌+◌, ◌-◌, ◌*◌, ◌/◌, ◌%◌, ◌^◌, ◌≡◌, Option, none, some,
  List, [], ◌∷◌, ◌++◌, ltb, min, if◌then◌else◌, length, take, drop,
}
use durable_streams_referenc.Prelude.Text.{Bytes, Text, codes}
use durable_streams_referenc.Prelude.Word.{u64_add}
use durable_streams_referenc.Error.{Error, storage, Result, ok, err}
use durable_streams_referenc.Offset.{Offset, new}

abbrev pub record_header_bytes : ℕ
record_header_bytes = 4

abbrev pub u32_max : ℕ
u32_max = 2 ^ 32 - 1

-- `len.to_le_bytes()` of a `u32`
unfoldable pub to_le_bytes : ℕ → Bytes
to_le_bytes n = n % 256 ∷ n / 256 % 256 ∷ n / 65536 % 256 ∷ n / 16777216 % 256 ∷ []

-- `u32::from_le_bytes(header)`, on four bytes
unfoldable pub from_le_bytes : Bytes → ℕ
from_le_bytes (a ∷ b ∷ c ∷ d ∷ []) = a + 256 * b + 65536 * c + 16777216 * d
from_le_bytes _ = 0

-- `u32::try_from(msg.len()).unwrap_or(u32::MAX)`
unfoldable pub to_u32 : ℕ → ℕ
to_u32 n = if ltb u32_max n then u32_max else n

-- The loop that fills `write_buf`.
unfoldable pub write_buf : List Bytes → Bytes
write_buf [] = []
write_buf (msg ∷ messages) = to_le_bytes (to_u32 (length msg)) ++ (msg ++ write_buf messages)

pub record MessageIndex : Type 0 where
  pub offset : Offset
  pub file_pos : ℕ
  pub byte_len : ℕ

-- Which calls on the file fail while it is scanned, with the text of the error: `metadata` at the
-- start, `seek` and `read` at a position, `set_len`, and the last `seek`.
pub record ScanIo : Type 0 where
  pub stat : Option Text
  pub seek : ℕ → Option Text
  pub read : ℕ → Option Text
  pub set_len : Option Text
  pub seek_end : Option Text

-- The loop's variables: `index`, `next_read_seq`, `next_byte_offset`, and the file.
pub record Scan : Type 0 where
  pub index : List MessageIndex
  pub next_read_seq : ℕ
  pub next_byte_offset : ℕ
  pub file : Bytes

unfoldable pub failed : Text → Text → Error
failed what e = storage (what ++ e)

-- `file.set_len(cursor)`, and the end of the loop.
truncate : ScanIo → ℕ → Scan → Result Scan
unfolding failed
truncate io cursor s = elim io.set_len [
  | some e ↦ err (failed (codes "failed to truncate partial record: ") e)
  | none ↦ ok (record s { file = take cursor s.file })
]

-- `index.push(..)` and the counters.
unfoldable pub push_index : ℕ → ℕ → Scan → Scan
push_index cursor record_len s = record s {
  index =
      s.index
      ++ record {
        offset = new s.next_read_seq s.next_byte_offset;
        file_pos = cursor + record_header_bytes;
        byte_len = record_len;
      }
        ∷ [];
  next_read_seq = u64_add s.next_read_seq 1;
  next_byte_offset = u64_add s.next_byte_offset record_len;
}

-- One round of the loop, at `cursor < file_len`; `continue` is the loop from the next record on.
unfoldable pub scan_round : ScanIo → ℕ → Scan → (ℕ → Scan → Result Scan) → Result Scan
unfolding truncate failed
scan_round io cursor s continue = elim (io.seek cursor) [
  | some e ↦ err (failed (codes "failed to seek stream log: ") e)
  | none ↦ elim (io.read cursor) [
    | some e ↦ err (failed (codes "failed to read stream log header: ") e)
    | none ↦
        let header = take record_header_bytes (drop cursor s.file) in
        let record_len : ℕ = from_le_bytes header in
        let record_end : ℕ = cursor + record_header_bytes + record_len in
        if is_empty header
        then ok s
        else if ltb (length header) record_header_bytes
        then truncate io cursor s
        else if ltb (length s.file) record_end
        then truncate io cursor s
        else continue record_end (push_index cursor record_len s)
  ]
]

-- `while cursor < file_len`. Each round goes at least four bytes on, so the file's length is enough
-- fuel.
unfoldable pub scan_loop : ScanIo → (fuel cursor : ℕ) → Scan → Result Scan
unfolding scan_round
scan_loop io zero cursor s = ok s
scan_loop io (suc fuel) cursor s =
    let round = scan_round io cursor s (scan_loop io fuel) in
    if ltb cursor (length s.file) then round else ok s

-- `rebuild_index`, with the file that it leaves.
unfoldable pub rebuild_index : ScanIo → Bytes → Result Scan
unfolding scan_loop failed
rebuild_index io file = elim io.stat [
  | some e ↦ err (failed (codes "failed to stat stream log: ") e)
  | none ↦
      elim (scan_loop io (length file) 0
        (record { index = []; next_read_seq = 0; next_byte_offset = 0; file = file })) [
          | err e ↦ err e
          | ok s ↦ elim io.seek_end [
            | some e ↦ err (failed (codes "failed to seek end of stream log: ") e)
            | none ↦ ok s
          ]
        ]
]

-- `index_slice[..]` of the bytes that were read at once; `none` is a panic.
unfoldable pub slice : Bytes → (rel_start rel_end : ℕ) → Option Bytes
slice raw rel_start rel_end =
    if ltb rel_end rel_start
    then none
    else if ltb (length raw) rel_end
    then none
    else some (take (rel_end - rel_start) (drop rel_start raw))
