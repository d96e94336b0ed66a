-- ===== src/Offset.antt =====
-- src/protocol/offset.rs: the positions in a stream, their canonical text and their order.
pub mod Hex
pub mod RoundTrip
pub mod Order
pub mod Equality
mod Examples
use durable_streams_referenc.Prelude.{
  ℕ, suc, ◌+◌, ◌≡◌, refl, Bool, true, false, Option, none, some, ◌&&◌, ◌||◌, List, [], ◌∷◌, ◌++◌,
  Ordering, compare, ltb, leb, ◌==◌, if◌then◌else◌, not, length, get_elem?, take, drop,
}
use durable_streams_referenc.Prelude.Text.{Text, Bytes, codes, text_eq, text_compare}
use durable_streams_referenc.Error.{Error, invalid_offset, Result, ok, err, ◌>>=◌}
use durable_streams_referenc.Offset.Hex.{encode_offset, decode_hex_16}

pub data Offset : Type 0 where
  start : Offset
  now : Offset
  concrete : (read_seq byte_offset : ℕ) (raw : Bytes) → Offset

-- `Offset::new`
unfoldable pub new : ℕ → ℕ → Offset
new read_seq byte_offset = concrete read_seq byte_offset (encode_offset read_seq byte_offset)

-- `Offset::START` and `Offset::NOW`
abbrev pub start_text : Text
start_text = b'-' ∷ b'1' ∷ []

abbrev pub now_text : Text
now_text = b'n' ∷ b'o' ∷ b'w' ∷ []

unfoldable pub is_start : Offset → Bool
is_start start = true
is_start _ = false

unfoldable pub is_now : Offset → Bool
is_now now = true
is_now _ = false

unfoldable pub is_sentinel : Offset → Bool
is_sentinel start = true
is_sentinel now = true
is_sentinel (concrete _ _ _) = false

-- `Offset::as_str`
unfoldable pub as_str : Offset → Text
as_str start = start_text
as_str now = now_text
as_str (concrete _ _ raw) = raw

unfoldable pub parse_components : Offset → Option (ℕ × ℕ)
parse_components (concrete read_seq byte_offset _) = some (read_seq, byte_offset)
parse_components start = none
parse_components now = none

-- `Ord for (u64, u64)`
unfoldable pub compare_pair : ℕ × ℕ → ℕ × ℕ → Ordering
compare_pair (a, b) (c, d) = elim (compare a c) [
  | Ordering.lt ↦ Ordering.lt
  | Ordering.eq ↦ compare b d
  | Ordering.gt ↦ Ordering.gt
]

compare_components : Option (ℕ × ℕ) → Option (ℕ × ℕ) → Offset → Offset → Ordering
compare_components (some p) (some q) a b = compare_pair p q
compare_components none _ a b = text_compare (as_str a) (as_str b)
compare_components (some p) none a b = text_compare (as_str a) (as_str b)

-- `Ord for Offset`
unfoldable pub cmp : Offset → Offset → Ordering
unfolding compare_components parse_components compare_pair as_str
cmp a b = compare_components (parse_components a) (parse_components b) a b

-- `PartialEq for Offset`
eq_components : Option (ℕ × ℕ) → Option (ℕ × ℕ) → Offset → Offset → Bool
eq_components (some (a, b)) (some (c, d)) o p = a == c && b == d
eq_components none _ o p = text_eq (as_str o) (as_str p)
eq_components (some _) none o p = text_eq (as_str o) (as_str p)

unfoldable pub eq : Offset → Offset → Bool
unfolding eq_components parse_components as_str
eq a b = eq_components (parse_components a) (parse_components b) a b

-- What one call of `hash` feeds to the hasher.
pub data HashInput : Type 0 where
  hash_u8 : ℕ → HashInput
  hash_u64 : ℕ → HashInput
  hash_str : Text → HashInput

hash_components : Option (ℕ × ℕ) → Offset → List HashInput
hash_components (some (read_seq, byte_offset)) o =
    hash_u8 0 ∷ hash_u64 read_seq ∷ hash_u64 byte_offset ∷ []
hash_components none o = hash_u8 1 ∷ hash_str (as_str o) ∷ []

-- `Hash for Offset`
unfoldable pub hash : Offset → List HashInput
unfolding hash_components parse_components as_str
hash o = hash_components (parse_components o) o

-- The messages of `Error::InvalidOffset`.
expected_format : Text → Error
expected_format s =
    invalid_offset (codes "Expected format 'read_seq_byte_offset', got '" ++ s ++ codes "'")

uppercase_digit : Text → Error
uppercase_digit s =
    invalid_offset (codes "Offset must use lowercase hex digits: '" ++ s ++ codes "'")

invalid_character : ℕ → Text → Error
invalid_character idx s = invalid_offset (
    codes "Invalid hex character in part "
    ++ (if ltb idx 16 then b'1' else b'2') ∷ (codes " of '" ++ s ++ codes "'"))

failed_to_parse : Text → Error
failed_to_parse s = invalid_offset (codes "Failed to parse hex values in '" ++ s ++ codes "'")

-- The tests on one byte in the loop of `from_str`.
check_byte : Text → ℕ → ℕ → Result (Unit {0})
check_byte s idx b =
    if idx == 16
    then ok tt
    else if leb b'A' b && leb b b'Z'
    then err (uppercase_digit s)
    else if not (leb b'0' b && leb b b'9') && not (leb b'a' b && leb b b'f')
    then err (invalid_character idx s)
    else ok tt

check_bytes : Text → ℕ → Bytes → Result (Unit {0})
check_bytes s idx [] = ok tt
check_bytes s idx (b ∷ bytes) =
    let rest = check_bytes s (suc idx) bytes in
    elim (check_byte s idx b) [ ok _ ↦ rest | err e ↦ err e ]

ok_or : Error → Option ℕ → Result ℕ
ok_or e none = err e
ok_or e (some n) = ok n

parse_bytes : Text → Result Offset
unfolding check_bytes check_byte ok_or
parse_bytes s =
    if not (length s == 33) || not (elim (get_elem? s 16) [ none ↦ false | some c ↦ c == b'_' ])
    then err (expected_format s)
    else do
      _ ← check_bytes s 0 s
      read_seq ← ok_or (failed_to_parse s) (decode_hex_16 (take 16 s))
      byte_offset ← ok_or (failed_to_parse s) (decode_hex_16 (drop 17 s))
      ok (concrete read_seq byte_offset (encode_offset read_seq byte_offset))

-- `FromStr for Offset`
pub from_str : Text → Result Offset
unfolding parse_bytes
from_str s =
    if text_eq s start_text then ok start else if text_eq s now_text then ok now else parse_bytes s
