-- ===== src/Producer/Examples.antt =====
-- The theorems on the producer headers at requests that meet their hypotheses.
use durable_streams_referenc.Prelude.{◌≤◌, ◌≡◌, ◌↔◌, none, some, if◌then◌else◌}
use durable_streams_referenc.Prelude.Text.{Text, codes, text_eq}
use durable_streams_referenc.Error.{ok}
use durable_streams_referenc.Producer.{
  Headers, ProducerHeaders, max_safe_integer, parse_non_negative_int, parse_producer_headers,
  producer_id, producer_epoch, producer_seq,
}
use durable_streams_referenc.Producer.Parse.{
  Denotes, Given, parse_non_negative_int_iff, parse_producer_headers_iff,
}

abbrev signed : Text
unfolding codes
signed = codes "+05"

parse_non_negative_int_iff_example :
    (parse_non_negative_int signed producer_epoch ≡ ok 5)
    ↔ (Denotes signed 5 × (5 ≤ max_safe_integer))
parse_non_negative_int_iff_example = parse_non_negative_int_iff signed producer_epoch 5

abbrev request : Headers
unfolding codes text_eq
request name =
    if text_eq name producer_id
    then some (codes "p1")
    else if text_eq name producer_epoch
    then some (codes "3")
    else if text_eq name producer_seq
    then some (codes "0")
    else none

abbrev producer : ProducerHeaders
unfolding codes
producer = record { id = codes "p1"; epoch = 3; seq = 0 }

parse_producer_headers_iff_example :
    (parse_producer_headers request ≡ ok (some producer)) ↔ Given request producer
parse_producer_headers_iff_example = parse_producer_headers_iff request producer
