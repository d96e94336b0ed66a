-- ===== src/Config/Examples.antt =====
-- Tests of the settings on small inputs, and their theorems at inputs that meet their hypotheses.
use durable_streams_referenc.Prelude.{
  ◌≡◌, refl, Bool, true, false, ◌&&◌, is_some, none, some, List, [], ◌∷◌, ◌⊎◌, inl, inr, leb, all,
  if◌then◌else◌,
}
use durable_streams_referenc.Prelude.Text.{Text, codes, text_eq}
use durable_streams_referenc.Prelude.Decimal.{parse_u64}
use durable_streams_referenc.Headers.{trim}
use durable_streams_referenc.File.Path.{join}
use durable_streams_referenc.Config.{
  invalid_value, acid, Config, default_config, SettingsFile, parse_storage_mode_value,
  valid_acid_shard_count,
}
use durable_streams_referenc.Config.Load.{
  read_settings, apply_file_settings, server_settings, set_mode, set_shards, tls_and_log,
  apply_env_overrides, override_parsed, override_text, override_storage_and_tls, override_shards,
  shards_of, parse_number, Env, ConfigLoadOptions, merged_files, from_env, from_sources_with_lookup,
}
use durable_streams_referenc.Config.Shards.{from_sources_with_lookup-shards}
use durable_streams_referenc.Config.Cors.{
  list_origins, has_wildcard, header_values, split_commas, check_entries, any_origin, listed,
  entries_of, allow_origin, validate, validate_cors_origins, any_text, validate-allow_origin,
}

-- Printable ASCII, as `HeaderValue::from_str` takes it.
abbrev printable : Text → Bool
printable = all (λ c. leb 32 c && leb c 126)

abbrev two_origins : Config
unfolding codes default_config
two_origins = record default_config { cors_origins = codes "http://a, http://b" }

two_entries : entries_of two_origins.cors_origins ≡ codes "http://a" ∷ codes "http://b" ∷ []
unfolding codes two_origins split_commas trim
two_entries = refl

validate-allow_origin_example :
    (allow_origin printable two_origins.cors_origins ≡ (
      if text_eq two_origins.cors_origins any_text
      then some any_origin
      else if has_wildcard (entries_of two_origins.cors_origins)
      then none
      else some (listed (entries_of two_origins.cors_origins))))
    × (is_some two_origins.tls_cert_path ≡ is_some two_origins.tls_key_path)
unfolding two_origins validate validate_cors_origins check_entries split_commas trim text_eq
validate-allow_origin_example = validate-allow_origin printable two_origins refl

-- A `*` with a space in front of it passes, and the layer panics.
wildcard_listed :
    (validate_cors_origins printable (codes " *") ≡ inr tt)
    × (allow_origin printable (codes " *") ≡ none)
unfolding validate_cors_origins check_entries split_commas trim text_eq codes allow_origin
    list_origins header_values
wildcard_listed = (refl, refl)

abbrev empty_file : SettingsFile
empty_file = record {
  port = none;
  long_poll_timeout_secs = none;
  sse_reconnect_interval_secs = none;
  max_memory_bytes = none;
  max_stream_bytes = none;
  cors_origins = none;
  mode = none;
  data_dir = none;
  acid_shard_count = none;
  cert_path = none;
  key_path = none;
  rust_log = none;
}

-- A file that sets four shards.
abbrev extract : List Text → Text ⊎ SettingsFile
extract files = inr (record empty_file { acid_shard_count = some 4; mode = none })

abbrev options : ConfigLoadOptions
unfolding codes
options = record {
  config_dir = codes "config";
  profile = codes " dev ";
  config_override = some (codes "/etc/o.toml");
}

-- Eight shards in the acid storage.
abbrev env : Env
unfolding codes
env key =
    if text_eq key (codes "DS_STORAGE__ACID_SHARD_COUNT")
    then some (codes "8")
    else if text_eq key (codes "DS_STORAGE__MODE")
    then some (codes "REDB")
    else none

abbrev loaded_config : Config
unfolding default_config
loaded_config = record default_config { storage_mode = acid; acid_shard_count = 8 }

loaded : from_sources_with_lookup (λ _. true) extract options env ≡ inr loaded_config
unfolding options env loaded_config default_config from_sources_with_lookup merged_files
    read_settings apply_file_settings server_settings set_mode set_shards tls_and_log
    valid_acid_shard_count apply_env_overrides override_parsed override_text
    override_storage_and_tls override_shards shards_of parse_storage_mode_value parse_number
    parse_u64 text_eq codes trim join
loaded = refl

files_in_order :
    merged_files (λ _. true) options
    ≡ inr (
        codes "config/default.toml"
        ∷ codes "config/dev.toml"
        ∷ codes "config/local.toml"
        ∷ codes "/etc/o.toml"
        ∷ [])
unfolding codes options merged_files join trim
files_in_order = refl

no_override_file :
    from_sources_with_lookup (λ _. false) extract options env
    ≡ inl (codes "config override file not found: '/etc/o.toml'")
unfolding codes options from_sources_with_lookup merged_files join trim
no_override_file = refl

-- A port of more than sixteen bits.
bad_port :
    from_env (λ _. some (codes "65536")) ≡ inl (codes "invalid DS_SERVER__PORT value: '65536'")
unfolding codes from_env apply_env_overrides override_parsed parse_number parse_u64 invalid_value
bad_port = refl

no_shards_between : valid_acid_shard_count 12 ≡ false
unfolding valid_acid_shard_count
no_shards_between = refl

from_sources_with_lookup-shards_example :
    let n = loaded_config.acid_shard_count in
    (n ≡ 1)
    ⊎ ((n ≡ 2)
        ⊎ ((n ≡ 4) ⊎ ((n ≡ 8) ⊎ ((n ≡ 16) ⊎ ((n ≡ 32) ⊎ ((n ≡ 64) ⊎ ((n ≡ 128) ⊎ (n ≡ 256))))))))
from_sources_with_lookup-shards_example =
    from_sources_with_lookup-shards (λ _. true) extract options env loaded_config loaded
