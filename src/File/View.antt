-- ===== src/File/View.antt =====
-- The stream of the in-memory storage that a stream of the file storage stands for,
-- src/storage/file.rs and src/storage/memory.rs: its messages are cut out of the log by the index.
use durable_streams_referenc.Prelude.{
  ℕ, zero, suc, ◌+◌, ◌≤◌, ◌<◌, ◌≡◌, refl, sym, ap, ◌∙◌, List, [], ◌∷◌, ◌++◌, map, map-append,
  append_assoc, append-nil, arith, All, length, length-append, take, drop, take-append_length,
  length-drop,
}
use durable_streams_referenc.Prelude.Text.{Bytes}
use durable_streams_referenc.Prelude.Word.{u64_mod, to_u64_exact}
use durable_streams_referenc.Storage.{Message, byte_len_of, new_message}
use durable_streams_referenc.Memory.Entry.{Held, push_message, push_messages, tail_offset, send}
use durable_streams_referenc.Memory.Entry as Memory
use durable_streams_referenc.File.Record.{record_header_bytes, write_buf, MessageIndex, to_le_bytes}
use durable_streams_referenc.File.Record.Layout.{
  IsShort, record_of, write_buf_cons, length-record_of,
}
use durable_streams_referenc.File.Record.Safety.{LiesIn, LiesIn-snoc}
use durable_streams_referenc.File.Entry.{StreamEntry, Locked, tail_of, push_record, push_records}

-- The message that an entry of the index points to.
abbrev pub message_at : Bytes → MessageIndex → Message
message_at file m = record {
  offset = m.offset;
  body = take m.byte_len (drop m.file_pos file);
  byte_len = m.byte_len;
}

abbrev pub view : StreamEntry → Memory.StreamEntry
view e = record {
  config = e.config;
  messages = map (message_at e.file) e.index;
  closed = e.closed;
  next_read_seq = e.next_read_seq;
  next_byte_offset = e.next_byte_offset;
  total_bytes = e.total_bytes;
  created_at = e.created_at;
  producers = e.producers;
  notify = e.notify;
  last_seq = e.last_seq;
}

abbrev pub viewed : Locked → Held
viewed h = record { stream = view h.stream; total_bytes = h.total_bytes }

-- The index points into the log, and `file_len` is its length.
pub record IsLogged (e : StreamEntry) : Type 0 where
  pub inside : LiesIn 0 (length e.file) e.index
  pub measured : e.file_len ≡ length e.file

-- What is cut out of a log stays the same when the log grows.
drop-append_le : (n : ℕ) (xs ys : Bytes) → n ≤ length xs → drop n (xs ++ ys) ≡ drop n xs ++ ys
drop-append_le zero xs ys h = refl
drop-append_le (suc n) [] ys h = absurd (omega arith)
drop-append_le (suc n) (x ∷ xs) ys h = drop-append_le n xs ys (omega arith)

take-append_le : (n : ℕ) (xs ys : Bytes) → n ≤ length xs → take n (xs ++ ys) ≡ take n xs
take-append_le zero xs ys h = refl
take-append_le (suc n) [] ys h = absurd (omega arith)
take-append_le (suc n) (x ∷ xs) ys h = ap (λ t. x ∷ t) (take-append_le n xs ys (omega arith))

pub LiesIn-le : (a b : ℕ) (index : List MessageIndex) → LiesIn a b index → a ≤ b
LiesIn-le a b [] lies = lies
LiesIn-le a b (m ∷ index) (first, lies) =
    let rest = LiesIn-le (m.file_pos + m.byte_len) b index lies in omega (arith, first, rest)

pub messages-append :
    (file raw : Bytes) (begin : ℕ) (index : List MessageIndex)
    → LiesIn begin (length file) index
    → map (message_at (file ++ raw)) index ≡ map (message_at file) index
messages-append file raw begin [] inside = refl
messages-append file raw begin (m ∷ index) (first, inside) =
    let end = LiesIn-le (m.file_pos + m.byte_len) (length file) index inside in
    let begin = drop-append_le m.file_pos file raw (omega (arith, end)) in
    let room = length-drop m.file_pos file in
    let cut = take-append_le m.byte_len (drop m.file_pos file) raw (omega (arith, end, room)) in
    cc (begin, cut, messages-append file raw (m.file_pos + m.byte_len) index inside)

-- The bytes of a record, behind its header.
pub cut-record :
    (before rest : Bytes) (x : Bytes)
    → take (length x) (drop (length before + 4) (before ++ (record_of x ++ rest))) ≡ x
unfolding to_le_bytes
cut-record [] rest x = take-append_length x rest
cut-record (b ∷ before) rest x =
    let next : suc (length before) + 4 ≡ suc (length before + 4) = omega arith in
    rw next (cut-record before rest x)

-- A record that is pushed where it lies in the log.
view-push_record :
    (before rest : Bytes) (x : Bytes) (e : StreamEntry)
    → e.file ≡ before ++ (record_of x ++ rest)
    → length x < u64_mod
    → view (push_record (length before) (byte_len_of x) e) ≡ push_message x (view e)
unfolding push_record push_message new_message byte_len_of tail_of tail_offset
view-push_record before rest x e file h =
    let found =
      ap (λ t. take (length x) (drop (length before + 4) t)) file ∙ cut-record before rest x in
    ground (
      arith,
      to_u64_exact (length x) h,
      found,
      map-append (message_at e.file) e.index
          (record { offset = tail_of e; file_pos = length before + 4; byte_len = length x } ∷ []),
    )

pub write_buf-record :
    (x : Bytes) (xs : List Bytes) → IsShort x → write_buf (x ∷ xs) ≡ record_of x ++ write_buf xs
write_buf-record x xs short =
    write_buf_cons x xs short ∙ sym (append_assoc (to_le_bytes (length x)) x (write_buf xs))

cursor_behind :
    (before : Bytes) (x : Bytes)
    → IsShort x
    → length before + (record_header_bytes + byte_len_of x) ≡ length (before ++ record_of x)
unfolding byte_len_of
cursor_behind before x short =
    let exact = to_u64_exact (length x) (omega (arith, short)) in
    let l = length-append before (record_of x) in
    let k = length-record_of x in omega (arith, exact, l, k)

file_behind :
    (before : Bytes) (x : Bytes) (xs : List Bytes) (e : StreamEntry)
    → IsShort x
    → e.file ≡ before ++ write_buf (x ∷ xs)
    → (push_record (length before) (byte_len_of x) e).file ≡ (before ++ record_of x) ++ write_buf xs
unfolding push_record
file_behind before x xs e short file =
    file
    ∙ ap (λ t. before ++ t) (write_buf-record x xs short)
    ∙ sym (append_assoc before (record_of x) (write_buf xs))

pub view-push_records :
    (before : Bytes) (xs : List Bytes) (e : StreamEntry)
    → All IsShort xs
    → e.file ≡ before ++ write_buf xs
    → view (push_records (length before) xs e) ≡ push_messages xs (view e)
unfolding push_records push_messages
view-push_records before [] e short file = refl
view-push_records before (x ∷ xs) e short file =
    let e' : StreamEntry = push_record (length before) (byte_len_of x) e in
    ap (λ t. view (push_records t xs e')) (cursor_behind before x short.0)
    ∙ view-push_records (before ++ record_of x) xs e' short.1
        (file_behind before x xs e short.0 file)
    ∙ ap (push_messages xs) (
        view-push_record before (write_buf xs) x e
          (file ∙ ap (λ t. before ++ t) (write_buf-record x xs short.0)) (omega (arith, short)))

pub push_records-IsLogged :
    (before : Bytes) (xs : List Bytes) (e : StreamEntry)
    → All IsShort xs
    → e.file ≡ before ++ write_buf xs
    → LiesIn 0 (length before) e.index
    → IsLogged (push_records (length before) xs e)
unfolding push_records push_record write_buf
push_records-IsLogged before [] e short file inside =
    rw (file, append-nil before) (record { inside = inside; measured = refl })
push_records-IsLogged before (x ∷ xs) e short file inside =
    let e' : StreamEntry = push_record (length before) (byte_len_of x) e in
    let cursor = cursor_behind before x short.0 in
    let inside' : LiesIn 0 (length (before ++ record_of x)) e'.index =
      LiesIn-snoc 0 (length before) (length (before ++ record_of x)) e.index
        (record {
          offset = tail_of e;
          file_pos = length before + record_header_bytes;
          byte_len = byte_len_of x;
        })
        inside (omega arith) (omega (arith, cursor)) in
    rw cursor (
      push_records-IsLogged (before ++ record_of x) xs e' short.1
        (file_behind before x xs e short.0 file) inside')
