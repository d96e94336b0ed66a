-- ===== src/File/Record/Tiles.antt =====
-- The records of a log file one behind the other, as the index of src/storage/file.rs names them.
use durable_streams_referenc.Prelude.{
  ℕ, zero, suc, true, ◌⊎◌, ◌<◌, ◌+◌, ◌≤◌, ◌≡◌, refl, sym, List, [], ◌∷◌, ◌++◌, arith, ltb, subst,
  length, take, drop, is_empty,
}
use durable_streams_referenc.Prelude.Text.{Bytes}
use durable_streams_referenc.Prelude.Word.{u64_add}
use durable_streams_referenc.File.Record.{
  record_header_bytes, from_le_bytes, MessageIndex, Scan, push_index,
}
use durable_streams_referenc.Offset.{new}

-- No whole record begins these bytes: they hold no header, or less than its length says.
abbrev pub NoRecord : Bytes → Type 0
NoRecord rest =
    (length rest < record_header_bytes)
    ⊎ (length rest < record_header_bytes + from_le_bytes (take record_header_bytes rest))

-- A position in a file, and the number and the first byte of the message whose record is there.
pub record Place : Type 0 where
  pub cursor : ℕ
  pub read_seq : ℕ
  pub byte_offset : ℕ

abbrev pub beginning_place : Place
beginning_place = record { cursor = 0; read_seq = 0; byte_offset = 0 }

-- The place behind a record of this length.
abbrev pub next_place : Place → ℕ → Place
next_place p record_len = record {
  cursor = p.cursor + record_header_bytes + record_len;
  read_seq = u64_add p.read_seq 1;
  byte_offset = u64_add p.byte_offset record_len;
}

-- The index names the records that lie in a file one behind the other between two places, each with
-- the length that its header says.
abbrev pub Tiles : Bytes → (begin end : Place) → List MessageIndex → Type 0
Tiles file begin end [] = begin ≡ end
Tiles file begin end (m ∷ index) =
    (m.offset ≡ new begin.read_seq begin.byte_offset)
    × (m.file_pos ≡ begin.cursor + record_header_bytes)
    × (m.byte_len ≡ from_le_bytes (take record_header_bytes (drop begin.cursor file)))
    × Tiles file (next_place begin m.byte_len) end index

Tiles-snoc :
    (file : Bytes) (begin end : Place) (index : List MessageIndex) (m : MessageIndex)
    → Tiles file begin end index
    → Tiles file end (next_place end m.byte_len) (m ∷ [])
    → Tiles file begin (next_place end m.byte_len) (index ++ m ∷ [])
Tiles-snoc file begin end [] m here last =
    subst (λ p. Tiles file p (next_place end m.byte_len) (m ∷ [])) (sym here) last
Tiles-snoc file begin end (n ∷ index) m (offset, pos, len, rest) last =
    (offset, pos, len, Tiles-snoc file (next_place begin n.byte_len) end index m rest last)

-- Where the scan of a file goes on.
abbrev pub place_of : ℕ → Scan → Place
place_of cursor s = record {
  cursor = cursor;
  read_seq = s.next_read_seq;
  byte_offset = s.next_byte_offset;
}

pub after_record :
    (cursor record_len : ℕ) (s : Scan)
    → record_len ≡ from_le_bytes (take record_header_bytes (drop cursor s.file))
    → Tiles s.file beginning_place (place_of cursor s) s.index
    → let t = push_index cursor record_len s in
      Tiles s.file beginning_place (place_of (cursor + record_header_bytes + record_len) t) t.index
unfolding push_index
after_record cursor record_len s len before =
    Tiles-snoc s.file beginning_place (place_of cursor s) s.index
      (record {
        offset = new s.next_read_seq s.next_byte_offset;
        file_pos = cursor + record_header_bytes;
        byte_len = record_len;
      })
      before (refl, refl, len, refl)

pub length-drop_le : (n : ℕ) (xs : Bytes) → n ≤ length xs → n + length (drop n xs) ≡ length xs
length-drop_le zero xs h = omega arith
length-drop_le (suc n) [] h = absurd (omega arith)
length-drop_le (suc n) (x ∷ xs) h = let l = length-drop_le n xs (omega arith) in omega (arith, l)

pub some_header : (xs : Bytes) → is_empty (take record_header_bytes xs) ≡ true → ¬ (0 < length xs)
some_header [] e h = omega arith
some_header (x ∷ xs) e h = cc

pub short_header : (n : ℕ) (xs : Bytes) → ltb (length (take n xs)) n ≡ true → length xs < n
short_header zero xs h = ground arith
short_header (suc n) [] h = omega arith
short_header (suc n) (x ∷ xs) h = let l = short_header n xs (ground arith) in omega (arith, l)
