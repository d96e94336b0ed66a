-- ===== src/Offset/Examples.antt =====
-- Tests of the offsets' text, and the theorems at inputs that meet their hypotheses.
use durable_streams_referenc.Prelude.{◌-◌, ◌^◌, ◌≡◌, refl, ◌↔◌, true, false, arith, Ordering}
use durable_streams_referenc.Prelude.Text.{codes, text_compare}
use durable_streams_referenc.Error.{ok}
use durable_streams_referenc.Offset.{
  Offset, start, now, concrete, new, as_str, from_str, cmp, eq, hash, is_sentinel,
}
use durable_streams_referenc.Offset.Hex.{encode_offset, encode_hex, hex_char}
use durable_streams_referenc.Offset.RoundTrip.{
  IsCanonical, at_start, at_now, at_position, from_str-as_str, as_str-from_str,
}
use durable_streams_referenc.Offset.Order.{cmp-as_str}
use durable_streams_referenc.Offset.Equality.{eq_iff}

-- The texts of the unit tests.
new_tests :
    (as_str (new 0 0) ≡ codes "0000000000000000_0000000000000000")
    × (as_str (new 1 42) ≡ codes "0000000000000001_000000000000002a")
    × (as_str (new (2 ^ 64 - 1) (2 ^ 64 - 1)) ≡ codes "ffffffffffffffff_ffffffffffffffff")
unfolding as_str new encode_offset encode_hex hex_char codes
new_tests = (refl, refl, refl)

sentinel_tests :
    (is_sentinel start ≡ true) × (is_sentinel now ≡ true) × (is_sentinel (new 1 2) ≡ false)
unfolding is_sentinel new
sentinel_tests = (refl, refl, refl)

abbrev position : Offset
position = concrete 1 42 (encode_offset 1 42)

position-IsCanonical : IsCanonical position
position-IsCanonical = at_position (omega arith) (omega arith) refl

from_str-as_str_example : from_str (as_str position) ≡ ok position
from_str-as_str_example = from_str-as_str position position-IsCanonical

as_str-from_str_example : IsCanonical position × (as_str position ≡ as_str position)
as_str-from_str_example = as_str-from_str (as_str position) position from_str-as_str_example

cmp-as_str_example : cmp position now ≡ text_compare (as_str position) (as_str now)
cmp-as_str_example = cmp-as_str position now position-IsCanonical at_now

eq_iff_example :
    ((eq position start ≡ true) ↔ (position ≡ start))
    × ((cmp position start ≡ Ordering.eq) ↔ (position ≡ start))
    × (eq position start ≡ true → hash position ≡ hash start)
eq_iff_example = eq_iff position start position-IsCanonical at_start
