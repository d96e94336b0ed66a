-- ===== src/Headers/Examples.antt =====
-- The theorems on the header values at concrete ones.
use durable_streams_referenc.Prelude.{◌<◌, ◌≡◌, ◌↔◌}
use durable_streams_referenc.Prelude.Text.{Text, codes}
use durable_streams_referenc.Prelude.Word.{u64_mod}
use durable_streams_referenc.Prelude.Decimal.{to_string}
use durable_streams_referenc.Error.{ok}
use durable_streams_referenc.Headers.{trim, parse_ttl}
use durable_streams_referenc.Headers.Parse.{parse_ttl_iff}

abbrev hour : Text
unfolding codes
hour = codes " 3600 "

parse_ttl_iff_example :
    (parse_ttl hour ≡ ok 3600) ↔ ((trim hour ≡ to_string 3600) × (3600 < u64_mod))
parse_ttl_iff_example = parse_ttl_iff hour 3600

abbrev html : Text
unfolding codes
html = codes " Text/HTML ; charset=utf-8"
