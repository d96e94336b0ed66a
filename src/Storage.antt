-- ===== src/Storage.antt =====
-- src/storage/mod.rs: the types of the storage contract and the checks that every backend shares.
-- A `DateTime<Utc>` is the number of nanoseconds since chrono's earliest time, `MIN_UTC`, and
-- each reading of the clock is an argument.
pub mod Sequencing
pub mod Backend
mod Examples
use durable_streams_referenc.Prelude.{
  ℕ, ◌+◌, ◌-◌, ◌*◌, Bool, true, false, ◌&&◌, Option, none, some, List, ltb, leb, ◌==◌, not,
  Ordering, if◌then◌else◌, length, is_some,
}
use durable_streams_referenc.Prelude.Text.{
  Bytes, Text, codes, text_eq, text_compare, eq_ignore_ascii_case,
}
use durable_streams_referenc.Prelude.Word.{u64_add, to_u64}
use durable_streams_referenc.Prelude.Dict.{Dict, retain}
use durable_streams_referenc.Error.{
  Error, content_type_mismatch, stream_closed, sequence_gap, epoch_fenced, invalid_producer_state,
  seq_ordering_violation, Result, ok, err,
}
use durable_streams_referenc.Offset.{Offset}
use durable_streams_referenc.Producer.{ProducerHeaders}

abbrev pub DateTime : Type 0
DateTime = ℕ

pub record StreamConfig : Type 0 where
  pub content_type : Text
  pub ttl_seconds : Option ℕ
  pub expires_at : Option DateTime
  pub created_closed : Bool

-- `StreamConfig::new` and its builders.
unfoldable pub new_config : Text → StreamConfig
new_config content_type = record {
  content_type = content_type;
  ttl_seconds = none;
  expires_at = none;
  created_closed = false;
}

unfoldable pub with_ttl : ℕ → StreamConfig → StreamConfig
with_ttl ttl_seconds config = record config { ttl_seconds = some ttl_seconds }

unfoldable pub with_expires_at : DateTime → StreamConfig → StreamConfig
with_expires_at expires_at config = record config { expires_at = some expires_at }

unfoldable pub with_created_closed : Bool → StreamConfig → StreamConfig
with_created_closed created_closed config = record config { created_closed = created_closed }

option_eq : Option ℕ → Option ℕ → Bool
option_eq none none = true
option_eq (some a) (some b) = a == b
option_eq none (some b) = false
option_eq (some a) none = false

bool_eq : Bool → Bool → Bool
bool_eq true b = b
bool_eq false b = not b

-- `PartialEq for StreamConfig`
unfoldable pub config_eq : StreamConfig → StreamConfig → Bool
unfolding option_eq bool_eq
config_eq a b =
    text_eq a.content_type b.content_type
    && option_eq a.ttl_seconds b.ttl_seconds
    && bool_eq a.created_closed b.created_closed
    && (if is_some a.ttl_seconds then true else option_eq a.expires_at b.expires_at)

-- The field `data` is `body` here.
pub record Message : Type 0 where
  pub offset : Offset
  pub body : Bytes
  pub byte_len : ℕ

-- `u64::try_from(data.len()).unwrap_or(u64::MAX)`
unfoldable pub byte_len_of : Bytes → ℕ
byte_len_of body = to_u64 (length body)

-- `Message::new`
unfoldable pub new_message : Offset → Bytes → Message
new_message offset body = record { offset = offset; body = body; byte_len = byte_len_of body }

pub record ReadResult : Type 0 where
  pub messages : List Bytes
  pub next_offset : Offset
  pub at_tail : Bool
  pub closed : Bool

pub record StreamMetadata : Type 0 where
  pub config : StreamConfig
  pub next_offset : Offset
  pub closed : Bool
  pub total_bytes : ℕ
  pub message_count : ℕ
  pub created_at : DateTime

pub data CreateStreamResult : Type 0 where
  created already_exists : CreateStreamResult

pub record CreateWithDataResult : Type 0 where
  pub status : CreateStreamResult
  pub next_offset : Offset
  pub closed : Bool

pub data ProducerAppendResult : Type 0 where
  accepted : (epoch seq : ℕ) (next_offset : Offset) (closed : Bool) → ProducerAppendResult
  duplicate : (epoch seq : ℕ) (next_offset : Offset) (closed : Bool) → ProducerAppendResult

pub record ProducerState : Type 0 where
  pub epoch : ℕ
  pub last_seq : ℕ
  pub updated_at : DateTime

-- The readings of the clock in one call of a storage method, in the order in which they are made.
pub record Readings : Type 0 where
  pub expiry : DateTime
  pub cleanup : DateTime
  pub stamp : DateTime

pub data ProducerCheck : Type 0 where
  accept : ProducerCheck
  duplicate : (epoch seq : ℕ) → ProducerCheck

-- `PRODUCER_STATE_TTL_SECS`, in nanoseconds.
abbrev pub producer_state_ttl : ℕ
producer_state_ttl = 7 * 24 * 60 * 60 * 1_000_000_000

unfoldable pub is_stream_expired : StreamConfig → DateTime → Bool
is_stream_expired config now = elim config.expires_at [
  | none ↦ false
  | some expires_at ↦ leb expires_at now
]

unfoldable pub validate_content_type : Text → Text → Result (Unit {0})
validate_content_type stream_ct request_ct =
    if not (eq_ignore_ascii_case request_ct stream_ct)
    then err (content_type_mismatch stream_ct request_ct)
    else ok tt

-- `a <= b` on two strings
text_le : Text → Text → Bool
text_le a b = elim (text_compare a b) [ Ordering.gt ↦ false | _ ↦ true ]

unfoldable pub validate_seq : Option Text → Option Text → Result (Option Text)
unfolding text_le
validate_seq _ none = ok none
validate_seq none (some received) = ok (some received)
validate_seq (some last) (some received) =
    if text_le received last then err (seq_ordering_violation last received) else ok (some received)

unfoldable pub cleanup_stale_producers : DateTime → Dict ProducerState → Dict ProducerState
cleanup_stale_producers now producers =
    let cutoff : ℕ = now - producer_state_ttl in
    retain (λ state. ltb cutoff state.updated_at) producers

-- The message of `Error::InvalidProducerState`.
abbrev pub new_epoch_message : Text
unfolding codes
new_epoch_message = codes "new epoch must start at seq 0"

unfoldable pub check_producer : Option ProducerState → ProducerHeaders → Bool → Result ProducerCheck
check_producer (some state) producer closed =
    if ltb producer.epoch state.epoch
    then err (epoch_fenced state.epoch producer.epoch)
    else if producer.epoch == state.epoch && leb producer.seq state.last_seq
    then ok (duplicate state.epoch state.last_seq)
    else if closed
    then err stream_closed
    else if ltb state.epoch producer.epoch
    then (if not (producer.seq == 0)
        then err (invalid_producer_state new_epoch_message)
        else ok accept)
    else if ltb (u64_add state.last_seq 1) producer.seq
    then err (sequence_gap (u64_add state.last_seq 1) producer.seq)
    else ok accept
check_producer none producer closed =
    if closed
    then err stream_closed
    else if not (producer.seq == 0)
    then err (sequence_gap 0 producer.seq)
    else ok accept
