-- ===== src/Error.antt =====
-- src/protocol/error.rs: the error type that every operation shares, its HTTP status, and the
-- `Result` of the operations. A message is the text that the program formats.
pub mod Exec
use durable_streams_referenc.Prelude.{ℕ, ◌≡◌, refl}
use durable_streams_referenc.Prelude.Text.{Text}

pub data Error : Type 0 where
  not_found : Text → Error
  config_mismatch : Error
  already_exists : Text → Error
  invalid_offset : Text → Error
  invalid_stream_name : Text → Error
  content_type_mismatch : (expected actual : Text) → Error
  stream_closed : Error
  sequence_regression : (expected actual : ℕ) → Error
  sequence_gap : (expected actual : ℕ) → Error
  epoch_fenced : (current received : ℕ) → Error
  invalid_producer_state : Text → Error
  memory_limit_exceeded : Error
  stream_size_limit_exceeded : Error
  invalid_ttl : Text → Error
  conflicting_expiration : Error
  stream_expired : Error
  invalid_json : Text → Error
  empty_body : Error
  invalid_header : (header reason : Text) → Error
  seq_ordering_violation : (last received : Text) → Error
  storage : Text → Error

-- `Error::status_code`
unfoldable pub status_code : Error → ℕ
status_code (not_found _) = 404
status_code stream_expired = 404
status_code config_mismatch = 409
status_code (content_type_mismatch _ _) = 409
status_code stream_closed = 409
status_code (sequence_regression _ _) = 409
status_code (sequence_gap _ _) = 409
status_code (seq_ordering_violation _ _) = 409
status_code (epoch_fenced _ _) = 403
status_code memory_limit_exceeded = 413
status_code stream_size_limit_exceeded = 413
status_code (already_exists _) = 400
status_code (invalid_offset _) = 400
status_code (invalid_stream_name _) = 400
status_code (invalid_producer_state _) = 400
status_code (invalid_ttl _) = 400
status_code conflicting_expiration = 400
status_code (invalid_json _) = 400
status_code empty_body = 400
status_code (invalid_header _ _) = 400
status_code (storage _) = 500

-- `Result<T>`
pub data Result {ℓ} (A : Type ℓ) : Type ℓ where
  ok : A → Result A
  err : Error → Result A

infixl 10 ◌>>=◌ ◌>>◌
abbrev pub ◌>>=◌ {ℓ κ} : {A : Type ℓ} {B : Type κ} → Result A → (A → Result B) → Result B
ok a >>= f = f a
err e >>= f = err e

abbrev pub ◌>>◌ {ℓ κ} : {A : Type ℓ} {B : Type κ} → Result A → Result B → Result B
m >> k = m >>= λ _. k
