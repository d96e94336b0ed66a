-- ===== src/File/Reads.antt =====
-- A read of the file storage, src/storage/file.rs: one read of the log, cut into messages, which is what
-- the in-memory storage returns.
use durable_streams_referenc.Prelude.{
  ℕ, zero, suc, ◌+◌, ◌-◌, ◌≤◌, ◌≡◌, refl, sym, ap, ◌∙◌, none, some, List, [], ◌∷◌, arith, map,
  length, length-drop, take, drop,
}
use durable_streams_referenc.Prelude.Text.{Bytes}
use durable_streams_referenc.Prelude.Word.{saturating_sub}
use durable_streams_referenc.Error.{ok}
use durable_streams_referenc.Offset.{Offset}
use durable_streams_referenc.Memory.Layout.{bodies}
use durable_streams_referenc.File.Record.{MessageIndex, slice}
use durable_streams_referenc.File.Record.Safety.{LiesIn, length-take}
use durable_streams_referenc.File.Meta.{ReadIo, read_exact, last_end, slice_messages, read_messages}
use durable_streams_referenc.File.View.{message_at, LiesIn-le}

pub record IsReadable (io : ReadIo) : Type 0 where
  pub clone : io.clone ≡ none
  pub seek : io.seek ≡ none
  pub read : io.read ≡ none

drop-nil : (n : ℕ) → drop {A = ℕ} n [] ≡ []
drop-nil zero = refl
drop-nil (suc n) = refl

drop-drop : (m n : ℕ) (xs : Bytes) → drop n (drop m xs) ≡ drop (m + n) xs
drop-drop zero n xs = let same : 0 + n ≡ n = omega arith in rw same
drop-drop (suc m) n [] = drop-nil n ∙ sym (drop-nil (suc m + n))
drop-drop (suc m) n (x ∷ xs) =
    let next : suc m + n ≡ suc (m + n) = omega arith in rw next (drop-drop m n xs)

-- A piece of a piece.
take-take : (n l : ℕ) (xs : Bytes) → n ≤ l → take n (take l xs) ≡ take n xs
take-take zero l xs h = refl
take-take (suc n) zero xs h = absurd (omega arith)
take-take (suc n) (suc l) [] h = refl
take-take (suc n) (suc l) (x ∷ xs) h = ap (λ t. x ∷ t) (take-take n l xs (omega arith))

take-drop-take :
    (n r l : ℕ) (xs : Bytes) → r + n ≤ l → take n (drop r (take l xs)) ≡ take n (drop r xs)
take-drop-take n zero l xs h = take-take n l xs (omega arith)
take-drop-take n (suc r) zero xs h = absurd (omega arith)
take-drop-take n (suc r) (suc l) [] h = refl
take-drop-take n (suc r) (suc l) (x ∷ xs) h = take-drop-take n r l xs (omega arith)

-- One message is cut out of the bytes between two positions of the file.
slice-message :
    (file : Bytes) (first end pos len : ℕ)
    → first ≤ pos
    → pos + len ≤ end
    → end ≤ length file
    → slice (take (end - first) (drop first file)) (pos - first) (pos - first + len)
      ≡ some (take len (drop pos file))
unfolding slice
slice-message file first end pos len h k inside =
    let all = length-drop first file in
    let size = length-take (end - first) (drop first file) (omega (arith, all, inside)) in
    let width : pos - first + len - (pos - first) ≡ len = omega arith in
    let start : first + (pos - first) ≡ pos = omega (arith, h) in
    let piece : take len (drop (pos - first) (take (end - first) (drop first file)))
        ≡ take len (drop pos file) =
      take-drop-take len (pos - first) (end - first) (drop first file) (omega (arith, h, k))
      ∙ ap (take len) (drop-drop first (pos - first) file ∙ ap (λ t. drop t file) start) in
    rw (width, piece, size) (ground arith)

-- The messages are cut out of the bytes that were read at once.
slice_messages-bodies :
    (file : Bytes) (first end begin : ℕ) (index : List MessageIndex)
    → first ≤ begin
    → LiesIn begin end index
    → end ≤ length file
    → slice_messages (take (end - first) (drop first file)) first index
      ≡ some (bodies (map (message_at file) index))
unfolding slice_messages saturating_sub
slice_messages-bodies file first end begin [] h lies inside = refl
slice_messages-bodies file first end begin (m ∷ index) h (here, lies) inside =
    let behind = LiesIn-le (m.file_pos + m.byte_len) end index lies in
    rw
      (
        slice_messages,
        slice-message file first end m.file_pos m.byte_len (omega (arith, h, here)) behind inside,
        slice_messages-bodies file first end (m.file_pos + m.byte_len) index
            (omega (arith, h, here)) lies inside,
      )
      refl

-- The end of the last message.
LiesIn-last_end :
    (a b : ℕ) (m : MessageIndex) (index : List MessageIndex)
    → LiesIn a b (m ∷ index)
    → LiesIn a (last_end m index) (m ∷ index) × (last_end m index ≤ b)
unfolding last_end
LiesIn-last_end a b m [] (here, lies) = ((here, omega arith), lies)
LiesIn-last_end a b m (n ∷ index) (here, lies) =
    let (rest, end) = LiesIn-last_end (m.file_pos + m.byte_len) b n index lies in
    ((here, rest), end)

pub read_messages-bodies :
    (io : ReadIo) (file : Bytes) (begin : ℕ) (index : List MessageIndex)
    → IsReadable io
    → LiesIn begin (length file) index
    → read_messages io file index ≡ some (ok (bodies (map (message_at file) index)))
unfolding read_messages read_exact saturating_sub
read_messages-bodies io file begin [] readable lies = refl
read_messages-bodies io file begin (m ∷ index) readable lies =
    let ((here, rest), inside) = LiesIn-last_end begin (length file) m index lies in
    let first = m.file_pos in
    let end = last_end m index in
    let ordered = LiesIn-le (first + m.byte_len) end index rest in
    let all = length-drop first file in
    let size = length-take (end - first) (drop first file) (omega (arith, all, inside)) in
    let sliced =
      slice_messages-bodies file first end first (m ∷ index) (omega arith) (omega arith, rest)
        inside in
    rw (read_messages, readable.clone, readable.seek, readable.read, size) (ground (arith, sliced))
