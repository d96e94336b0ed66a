-- ===== src/Config.antt =====
-- src/config.rs: the server's settings, from the defaults, the TOML files and the environment, and
-- their validation. figment's reading of the files and the test for a header value are parameters.
-- A `Duration` of whole seconds is their number.
pub mod Load
pub mod Cors
pub mod Shards
mod Examples
use durable_streams_referenc.Prelude.{
  ℕ, zero, suc, ◌*◌, ◌^◌, Bool, true, false, ◌&&◌, ◌||◌, not, Option, none, some, List, [], ◌∷◌,
  ◌++◌, map, leb, ◌==◌, ◌⊎◌, inl, inr, if◌then◌else◌, is_empty, is_some,
}
use durable_streams_referenc.Prelude.Decimal.{Parsed, number, parse_u64}
use durable_streams_referenc.Prelude.Text.{Text, codes, text_eq, to_ascii_lowercase}
use durable_streams_referenc.Headers.{trim}
use durable_streams_referenc.File.Path.{join}

pub data StorageMode : Type 0 where
  memory file_fast file_durable acid : StorageMode

unfoldable pub mode_text : StorageMode → Text
unfolding codes
mode_text memory = codes "memory"
mode_text file_fast = codes "file-fast"
mode_text file_durable = codes "file-durable"
mode_text acid = codes "acid"

unfoldable pub uses_file_backend : StorageMode → Bool
uses_file_backend file_fast = true
uses_file_backend file_durable = true
uses_file_backend _ = false

unfoldable pub sync_on_append : StorageMode → Bool
sync_on_append file_durable = true
sync_on_append _ = false

pub record Config : Type 0 where
  pub port : ℕ
  pub max_memory_bytes : ℕ
  pub max_stream_bytes : ℕ
  pub cors_origins : Text
  pub long_poll_timeout : ℕ
  pub sse_reconnect_interval_secs : ℕ
  pub storage_mode : StorageMode
  pub data_dir : Text
  pub acid_shard_count : ℕ
  pub tls_cert_path : Option Text
  pub tls_key_path : Option Text
  pub rust_log : Text

-- `Config::default`
unfoldable pub default_config : Config
unfolding codes
default_config = record {
  port = 4437;
  max_memory_bytes = 100 * 1024 * 1024;
  max_stream_bytes = 10 * 1024 * 1024;
  cors_origins = codes "*";
  long_poll_timeout = 30;
  sse_reconnect_interval_secs = 60;
  storage_mode = memory;
  data_dir = codes "./data/streams";
  acid_shard_count = 16;
  tls_cert_path = none;
  tls_key_path = none;
  rust_log = codes "info";
}

-- The sections of a settings file.
pub record SettingsFile : Type 0 where
  pub port : Option ℕ
  pub long_poll_timeout_secs : Option ℕ
  pub sse_reconnect_interval_secs : Option ℕ
  pub max_memory_bytes : Option ℕ
  pub max_stream_bytes : Option ℕ
  pub cors_origins : Option Text
  pub mode : Option Text
  pub data_dir : Option Text
  pub acid_shard_count : Option ℕ
  pub cert_path : Option Text
  pub key_path : Option Text
  pub rust_log : Option Text

-- `Result<A, String>`
abbrev pub Checked : Type 0 → Type 0
Checked A = Text ⊎ A

infixl 10 ◌>>=◌ ◌>>◌
abbrev pub ◌>>=◌ : {A B : Type 0} → Checked A → (A → Checked B) → Checked B
inl e >>= f = inl e
inr a >>= f = f a

abbrev pub ◌>>◌ : {A B : Type 0} → Checked A → Checked B → Checked B
m >> n = m >>= λ _. n

unfoldable pub parse_storage_mode_value : Text → Option StorageMode
unfolding codes to_ascii_lowercase text_eq
parse_storage_mode_value raw =
    let lower = map to_ascii_lowercase raw in
    if text_eq lower (codes "memory")
    then some memory
    else if text_eq lower (codes "file")
        || text_eq lower (codes "file-durable")
        || text_eq lower (codes "durable")
    then some file_durable
    else if text_eq lower (codes "file-fast") || text_eq lower (codes "fast")
    then some file_fast
    else if text_eq lower (codes "acid") || text_eq lower (codes "redb")
    then some acid
    else none

-- A power of two below `2 ^ k`.
is_power_below : ℕ → ℕ → Bool
is_power_below zero n = false
is_power_below (suc k) n = (n == 2 ^ k) || is_power_below k n

-- `is_power_of_two` of a 64-bit `usize`, under the bound of 256.
unfoldable pub valid_acid_shard_count : ℕ → Bool
unfolding is_power_below
valid_acid_shard_count value = leb 1 value && leb value 256 && is_power_below 64 value

-- `format!("invalid {key} value: '{value}'")`
abbrev pub invalid_value : Text → Text → Text
unfolding codes
invalid_value key value = codes "invalid " ++ (key ++ (codes " value: '" ++ (value ++ codes "'")))
