-- ===== src/Offset/Hex.antt =====
-- src/protocol/offset.rs, `encode_offset` and `decode_hex_16`: sixteen hexadecimal digits for a
-- `u64`. `x >> k` is `x / 2 ^ k`, and `x & 0xF` is `x % 16`.
use durable_streams_referenc.Prelude.{
  ℕ, zero, suc, ◌+◌, ◌-◌, ◌*◌, ◌/◌, ◌%◌, ◌^◌, ◌&&◌, Option, none, some, [], ◌∷◌, ◌++◌, ltb, leb,
  ◌==◌, if◌then◌else◌, not, length,
}
use durable_streams_referenc.Prelude.Text.{Bytes}
use durable_streams_referenc.Prelude.Word.{u64_mod}

-- `HEX[d]`
unfoldable pub hex_char : ℕ → ℕ
hex_char d = if ltb d 10 then b'0' + d else b'a' + (d - 10)

-- The loop over the slots: with `k + 1` slots left the shift is `4 * k`.
unfoldable pub encode_hex : ℕ → ℕ → Bytes
encode_hex zero v = []
encode_hex (suc k) v = hex_char (v / 16 ^ k % 16) ∷ encode_hex k v

unfoldable pub encode_offset : ℕ → ℕ → Bytes
encode_offset read_seq byte_offset = encode_hex 16 read_seq ++ b'_' ∷ encode_hex 16 byte_offset

-- The digit of one byte.
unfoldable pub hex_digit : ℕ → Option ℕ
hex_digit b =
    if leb b'0' b && leb b b'9'
    then some (b - b'0')
    else if leb b'a' b && leb b b'f'
    then some (b - b'a' + 10)
    else none

-- The loop of `decode_hex_16`. `value << 4` drops what leaves the word and its low four bits are
-- 0, so that `|` with a digit adds it.
unfoldable pub decode_hex : Bytes → ℕ → Option ℕ
decode_hex [] value = some value
decode_hex (b ∷ bytes) value = elim (hex_digit b) [
  | none ↦ none
  | some digit ↦ decode_hex bytes (value * 16 % u64_mod + digit)
]

unfoldable pub decode_hex_16 : Bytes → Option ℕ
decode_hex_16 bytes = if not (length bytes == 16) then none else decode_hex bytes 0
