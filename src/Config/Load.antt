-- ===== src/Config/Load.antt =====
-- src/config.rs: the settings of the files and of the `DS_` variables of the environment, each on top of
-- what was set before.
use durable_streams_referenc.Prelude.{
  ℕ, Bool, Option, none, some, List, [], ◌∷◌, ◌++◌, leb, ◌⊎◌, inl, inr, if◌then◌else◌,
}
use durable_streams_referenc.Prelude.Decimal.{number, parse_u64, to_string}
use durable_streams_referenc.Prelude.Text.{Text, codes}
use durable_streams_referenc.Headers.{trim}
use durable_streams_referenc.File.Path.{join}
use durable_streams_referenc.Config.{
  Config, default_config, SettingsFile, Checked, ◌>>=◌, parse_storage_mode_value,
  valid_acid_shard_count, invalid_value,
}

-- `if let Some(value) = setting { .. }`
abbrev pub set_some : {A : Type 0} → Option A → (A → Config → Config) → Config → Config
set_some none set config = config
set_some (some value) set config = set value config

unfoldable pub set_mode : Option Text → Config → Checked Config
unfolding codes
set_mode none config = inr config
set_mode (some mode) config = elim (parse_storage_mode_value mode) [
  | none ↦ inl (codes "invalid storage.mode value: '" ++ (mode ++ codes "'"))
  | some parsed ↦ inr (record config { storage_mode = parsed })
]

unfoldable pub set_shards : Option ℕ → Config → Checked Config
unfolding codes
set_shards none config = inr config
set_shards (some count) config =
    if valid_acid_shard_count count
    then inr (record config { acid_shard_count = count })
    else inl (
        codes "invalid storage.acid_shard_count value: '"
        ++ (to_string count ++ codes "' (must be power-of-two in 1..=256)"))

unfoldable pub server_settings : SettingsFile → Config → Config
server_settings s config =
    set_some s.cors_origins (λ v c. record c { cors_origins = v })
      (set_some s.max_stream_bytes (λ v c. record c { max_stream_bytes = v })
        (set_some s.max_memory_bytes (λ v c. record c { max_memory_bytes = v })
          (set_some s.sse_reconnect_interval_secs
            (λ v c. record c { sse_reconnect_interval_secs = v })
            (set_some s.long_poll_timeout_secs (λ v c. record c { long_poll_timeout = v })
              (set_some s.port (λ v c. record c { port = v }) config)))))

unfoldable pub tls_and_log : SettingsFile → Config → Config
tls_and_log s config =
    set_some s.rust_log (λ v c. record c { rust_log = v })
      (record config { tls_cert_path = s.cert_path; tls_key_path = s.key_path })

unfoldable pub apply_file_settings : SettingsFile → Checked Config
unfolding set_mode set_shards
apply_file_settings s = do
  config ← set_mode s.mode (server_settings s default_config)
  let config : Config = set_some s.data_dir (λ v c. record c { data_dir = v }) config
  config ← set_shards s.acid_shard_count config
  inr (tls_and_log s config)

abbrev pub Env : Type 0
Env = Text → Option Text

-- `value.parse()` for an unsigned type with this largest number; a 64-bit one needs no bound.
unfoldable pub parse_number : ℕ → Text → Option ℕ
parse_number largest value = elim (parse_u64 value) [
  | number n ↦ if leb n largest then some n else none
  | _ ↦ none
]

abbrev pub u16_max : ℕ
u16_max = 65535

abbrev pub usize_max : ℕ
usize_max = 18446744073709551615

-- A variable whose value is taken as it is.
unfoldable pub override_text : Env → Text → (Text → Config → Config) → Config → Checked Config
override_text get key set config = elim (get key) [
  | none ↦ inr config
  | some value ↦ inr (set value config)
]

-- A variable whose value is parsed.
unfoldable pub override_parsed :
    {A : Type 0} → Env → Text → (Text → Option A) → (A → Config → Config) → Config → Checked Config
override_parsed get key parse set config = elim (get key) [
  | none ↦ inr config
  | some value ↦ elim (parse value) [
    | none ↦ inl (invalid_value key value)
    | some parsed ↦ inr (set parsed config)
  ]
]

unfoldable pub shards_of : Text → Checked ℕ
unfolding codes
shards_of value =
    let key = codes "DS_STORAGE__ACID_SHARD_COUNT" in
    elim (parse_number usize_max value) [
      | none ↦ inl (invalid_value key value)
      | some parsed ↦
          if valid_acid_shard_count parsed
          then inr parsed
          else inl (invalid_value key value ++ codes " (must be power-of-two in 1..=256)")
    ]

unfoldable pub override_shards : Env → Config → Checked Config
unfolding shards_of codes
override_shards get config = elim (get (codes "DS_STORAGE__ACID_SHARD_COUNT")) [
  | none ↦ inr config
  | some value ↦ shards_of value >>= λ parsed. inr (record config { acid_shard_count = parsed })
]

-- The variables behind `DS_STORAGE__MODE`.
unfoldable pub override_storage_and_tls : Env → Config → Checked Config
unfolding codes
override_storage_and_tls get config = do
  config ←
      override_text get (codes "DS_STORAGE__DATA_DIR") (λ v c. record c { data_dir = v }) config
  config ← override_shards get config
  config ←
      override_text get (codes "DS_TLS__CERT_PATH") (λ v c. record c { tls_cert_path = some v })
        config
  config ←
      override_text get (codes "DS_TLS__KEY_PATH") (λ v c. record c { tls_key_path = some v })
        config
  override_text get (codes "DS_LOG__RUST_LOG") (λ v c. record c { rust_log = v }) config

unfoldable pub apply_env_overrides : Env → Config → Checked Config
unfolding codes
apply_env_overrides get config = do
  config ←
      override_parsed get (codes "DS_SERVER__PORT") (parse_number u16_max)
        (λ v c. record c { port = v }) config
  config ←
      override_parsed get (codes "DS_SERVER__LONG_POLL_TIMEOUT_SECS") (parse_number usize_max)
        (λ v c. record c { long_poll_timeout = v }) config
  config ←
      override_parsed get (codes "DS_SERVER__SSE_RECONNECT_INTERVAL_SECS") (parse_number usize_max)
        (λ v c. record c { sse_reconnect_interval_secs = v }) config
  config ←
      override_parsed get (codes "DS_LIMITS__MAX_MEMORY_BYTES") (parse_number usize_max)
        (λ v c. record c { max_memory_bytes = v }) config
  config ←
      override_parsed get (codes "DS_LIMITS__MAX_STREAM_BYTES") (parse_number usize_max)
        (λ v c. record c { max_stream_bytes = v }) config
  config ←
      override_text get (codes "DS_HTTP__CORS_ORIGINS") (λ v c. record c { cors_origins = v })
        config
  config ←
      override_parsed get (codes "DS_STORAGE__MODE") parse_storage_mode_value
        (λ v c. record c { storage_mode = v }) config
  override_storage_and_tls get config

-- `Config::from_env`
unfoldable pub from_env : Env → Checked Config
from_env get = apply_env_overrides get default_config

pub record ConfigLoadOptions : Type 0 where
  pub config_dir : Text
  pub profile : Text
  pub config_override : Option Text

-- The path, if it is a file.
abbrev pub if_file : (Text → Bool) → Text → List Text
if_file is_file path = if is_file path then path ∷ [] else []

-- The files that are merged, a later one over the earlier ones.
unfoldable pub merged_files : (is_file : Text → Bool) → ConfigLoadOptions → Checked (List Text)
unfolding codes
merged_files is_file options =
    let files =
      if_file is_file (join options.config_dir (codes "default.toml"))
      ++ (if_file is_file (join options.config_dir (trim options.profile ++ codes ".toml"))
          ++ if_file is_file (join options.config_dir (codes "local.toml"))) in
    elim options.config_override [
      | none ↦ inr files
      | some path ↦
          if is_file path
          then inr (files ++ path ∷ [])
          else inl (codes "config override file not found: '" ++ (path ++ codes "'"))
    ]

-- figment's `extract`, with the text of its error.
unfoldable pub read_settings :
    (extract : List Text → Text ⊎ SettingsFile) → List Text → Checked SettingsFile
unfolding codes
read_settings extract files = elim (extract files) [
  | inl e ↦ inl (codes "failed to parse TOML config: " ++ e)
  | inr settings ↦ inr settings
]

unfoldable pub from_sources_with_lookup :
    (is_file : Text → Bool)
    → (extract : List Text → Text ⊎ SettingsFile) → ConfigLoadOptions
    → Env
    → Checked Config
from_sources_with_lookup is_file extract options get = do
  files ← merged_files is_file options
  settings ← read_settings extract files
  config ← apply_file_settings settings
  apply_env_overrides get config
