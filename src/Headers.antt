-- ===== src/Headers.antt =====
-- src/protocol/headers.rs: the names of the protocol's headers and the parsers of their values. A
-- value that `to_str` has let through is visible ASCII, so that `trim` and `to_lowercase` are
-- their ASCII versions. chrono's parser of a timestamp is a parameter, which gives the text of its
-- error or the time.
pub mod Parse
pub mod ContentType
mod Examples
use durable_streams_referenc.Prelude.{
  ℕ, ◌+◌, ◌≡◌, Bool, true, false, ◌&&◌, ◌||◌, ◌⊎◌, inl, inr, Option, none, some, List, [], ◌∷◌,
  ◌++◌, map, String, ltb, leb, ◌==◌, if◌then◌else◌, is_empty,
}
use durable_streams_referenc.Prelude.Text.{Text, codes, eq_ignore_ascii_case, to_ascii_lowercase}
use durable_streams_referenc.Prelude.Decimal.{
  Parsed, number, empty, invalid_digit, pos_overflow, parse_u64,
}
use durable_streams_referenc.Prelude.Decimal.Canonical.{has_leading_zero, starts_with}
use durable_streams_referenc.Error.{Error, invalid_ttl, invalid_header, Result, ok, err}
use durable_streams_referenc.Storage.{DateTime}

abbrev pub stream_ttl : Text
unfolding codes
stream_ttl = codes "Stream-TTL"

abbrev pub stream_expires_at : Text
unfolding codes
stream_expires_at = codes "Stream-Expires-At"

abbrev pub stream_closed_name : Text
unfolding codes
stream_closed_name = codes "Stream-Closed"

abbrev pub stream_next_offset : Text
unfolding codes
stream_next_offset = codes "Stream-Next-Offset"

abbrev pub stream_up_to_date : Text
unfolding codes
stream_up_to_date = codes "Stream-Up-To-Date"

abbrev pub stream_cursor : Text
unfolding codes
stream_cursor = codes "Stream-Cursor"

abbrev pub stream_seq : Text
unfolding codes
stream_seq = codes "Stream-Seq"

abbrev pub producer_expected_seq : Text
unfolding codes
producer_expected_seq = codes "Producer-Expected-Seq"

abbrev pub producer_received_seq : Text
unfolding codes
producer_received_seq = codes "Producer-Received-Seq"

-- The white space of ASCII.
abbrev pub is_whitespace : ℕ → Bool
is_whitespace c = c == 32 || leb 9 c && leb c 13

unfoldable pub trim_start : Text → Text
trim_start [] = []
trim_start (c ∷ s) = if is_whitespace c then trim_start s else c ∷ s

-- A byte in front of a text that has been trimmed at the end.
trim_end_cons : ℕ → Text → Text
trim_end_cons c [] = if is_whitespace c then [] else c ∷ []
trim_end_cons c (d ∷ s) = c ∷ d ∷ s

unfoldable pub trim_end : Text → Text
unfolding trim_end_cons
trim_end [] = []
trim_end (c ∷ s) = trim_end_cons c (trim_end s)

-- `str::trim`
unfoldable pub trim : Text → Text
unfolding trim_start trim_end
trim s = trim_end (trim_start s)

-- `s.contains(c)`
unfoldable pub contains : ℕ → Text → Bool
contains b [] = false
contains b (c ∷ s) = c == b || contains b s

-- The texts of `ParseIntError`.
int_error : Parsed → Text
int_error empty = codes "cannot parse integer from empty string"
int_error invalid_digit = codes "invalid digit found in string"
int_error pos_overflow = codes "number too large to fit in target type"
int_error (number n) = []

ttl_error : String → Text → Error
ttl_error reason trimmed = invalid_ttl (codes reason ++ codes ": '" ++ trimmed ++ codes "'")

parse_trimmed : Text → Result ℕ
parse_trimmed trimmed =
    if is_empty trimmed
    then err (invalid_ttl (codes "empty value"))
    else if has_leading_zero trimmed
    then err (ttl_error "leading zeros not allowed" trimmed)
    else if contains b'.' trimmed
    then err (ttl_error "decimal values not allowed" trimmed)
    else if contains b'e' trimmed || contains b'E' trimmed
    then err (ttl_error "scientific notation not allowed" trimmed)
    else if starts_with b'-' trimmed
    then err (ttl_error "negative values not allowed" trimmed)
    else if starts_with b'+' trimmed
    then err (ttl_error "leading plus sign not allowed" trimmed)
    else elim (parse_u64 trimmed) [
      | number n ↦ ok n
      | e ↦ err (invalid_ttl (codes "invalid integer '" ++ trimmed ++ codes "': " ++ int_error e))
    ]

unfoldable pub parse_ttl : Text → Result ℕ
unfolding parse_trimmed contains ttl_error int_error
parse_ttl value = parse_trimmed (trim value)

unfoldable pub parse_expires_at : (Text → Text ⊎ DateTime) → Text → Result DateTime
parse_expires_at parse_datetime value = elim (parse_datetime value) [
  | inl e ↦ err (invalid_header stream_expires_at (codes "invalid ISO 8601 timestamp: " ++ e))
  | inr time ↦ ok time
]

abbrev pub true_text : Text
unfolding codes
true_text = codes "true"

unfoldable pub parse_bool : Text → Bool
parse_bool value = eq_ignore_ascii_case (trim value) true_text

-- `split(';').next()`
unfoldable pub before_semicolon : Text → Text
before_semicolon [] = []
before_semicolon (c ∷ s) = if c == b';' then [] else c ∷ before_semicolon s

unfoldable pub normalize_content_type : Text → Text
unfolding before_semicolon
normalize_content_type content_type = map to_ascii_lowercase (trim (before_semicolon content_type))
