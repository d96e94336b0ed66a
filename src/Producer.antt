-- ===== src/Producer.antt =====
-- src/protocol/producer.rs: the headers of an idempotent producer and their parser. A header map
-- is a function from a name to the value's text, `none` where the header is missing or its value
-- is not visible ASCII (`headers.get(name).and_then(|v| v.to_str().ok())`).
pub mod Parse
mod Examples
use durable_streams_referenc.Prelude.{
  ℕ, ◌+◌, ◌-◌, ◌*◌, ◌^◌, Bool, true, false, ◌&&◌, Option, none, some, List, [], ◌∷◌, ◌++◌, ltb, leb,
  ◌==◌, if◌then◌else◌, length, is_empty,
}
use durable_streams_referenc.Prelude.Text.{Text, codes}
use durable_streams_referenc.Prelude.Decimal.{number, parse_u64}
use durable_streams_referenc.Prelude.Decimal.Canonical.{has_leading_zero}
use durable_streams_referenc.Error.{Error, invalid_producer_state, Result, ok, err, ◌>>=◌}

abbrev pub Headers : Type 0
Headers = Text → Option Text

pub record ProducerHeaders : Type 0 where
  pub id : Text
  pub epoch : ℕ
  pub seq : ℕ

abbrev pub max_safe_integer : ℕ
max_safe_integer = 9_007_199_254_740_991

pub must_be_integer : Text → Text → Error
must_be_integer header_name value =
    invalid_producer_state (header_name ++ codes " must be a non-negative integer, got: " ++ value)

pub must_not_exceed : Text → Text → Error
must_not_exceed header_name value =
    invalid_producer_state (header_name ++ codes " must not exceed 2^53-1, got: " ++ value)

unfoldable pub parse_non_negative_int : Text → Text → Result ℕ
unfolding must_be_integer must_not_exceed
parse_non_negative_int value header_name =
    if has_leading_zero value
    then err (must_be_integer header_name value)
    else elim (parse_u64 value) [
      | number n ↦ if ltb max_safe_integer n then err (must_not_exceed header_name value) else ok n
      | _ ↦ err (must_be_integer header_name value)
    ]

abbrev pub producer_id : Text
unfolding codes
producer_id = codes "Producer-Id"

abbrev pub producer_epoch : Text
unfolding codes
producer_epoch = codes "Producer-Epoch"

abbrev pub producer_seq : Text
unfolding codes
producer_seq = codes "Producer-Seq"

pub parse_all : Text → Text → Text → Result (Option ProducerHeaders)
parse_all id epoch_str seq_str =
    if is_empty id then err (invalid_producer_state (codes "Producer-Id must not be empty")) else do
      epoch ← parse_non_negative_int epoch_str producer_epoch
      seq ← parse_non_negative_int seq_str producer_seq
      ok (some (record { id = id; epoch = epoch; seq = seq }))

pub partial_headers : Error
partial_headers =
    invalid_producer_state
      (codes "Producer-Id, Producer-Epoch, and Producer-Seq must all be provided together")

pub match_headers : Option Text → Option Text → Option Text → Result (Option ProducerHeaders)
match_headers none none none = ok none
match_headers (some id) (some epoch_str) (some seq_str) = parse_all id epoch_str seq_str
match_headers _ _ _ = err partial_headers

unfoldable pub parse_producer_headers : Headers → Result (Option ProducerHeaders)
unfolding match_headers parse_all partial_headers
parse_producer_headers headers =
    match_headers (headers producer_id) (headers producer_epoch) (headers producer_seq)
