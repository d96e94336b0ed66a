-- ===== src/Cursor.antt =====
-- src/protocol/cursor.rs: the cursors of long-poll and SSE responses. The counter `LAST_CURSOR` is
-- an atomic: a round of the loop whose exchange fails changes nothing, so that a call is the one
-- round whose exchange succeeds, on the value that the counter has then. `<<` drops the bits that
-- leave the word.
pub mod Order
mod Examples
use Prim.Native.Nat.{bit_or}
use durable_streams_referenc.Prelude.{ℕ, ◌+◌, ◌*◌, ◌%◌, ◌^◌, max, Option, none, some, List, [], ◌∷◌}
use durable_streams_referenc.Prelude.Text.{Text}
use durable_streams_referenc.Prelude.Word.{u64_mod, u64_add}
use durable_streams_referenc.Prelude.Decimal.{to_string}
use durable_streams_referenc.Offset.{Offset, parse_components}

abbrev pub byte_offset_bits : ℕ
byte_offset_bits = 27

unfoldable pub offset_value : ℕ × ℕ → ℕ
offset_value (read_seq, byte_offset) =
    bit_or (read_seq * 2 ^ byte_offset_bits % u64_mod) byte_offset

unfoldable pub next_cursor : ℕ × ℕ → ℕ → ℕ
next_cursor position last = max (offset_value position) (u64_add last 1)

generate_at : Option (ℕ × ℕ) → ℕ → Text × ℕ
generate_at none last = (b'0' ∷ [], last)
generate_at (some position) last = let next = next_cursor position last in (to_string next, next)

-- `generate`: the cursor, and the new value of the counter.
unfoldable pub generate : Offset → ℕ → Text × ℕ
unfolding generate_at
generate next_offset last = generate_at (parse_components next_offset) last

-- The cursors of a sequence of calls.
unfoldable pub generate_all : List Offset → ℕ → List Text
generate_all [] last = []
generate_all (o ∷ offsets) last =
    let (cursor, last') = generate o last in cursor ∷ generate_all offsets last'
