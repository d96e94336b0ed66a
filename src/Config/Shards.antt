-- ===== src/Config/Shards.antt =====
-- The number of shards in the settings of src/config.rs.
use durable_streams_referenc.Prelude.{
  ℕ, ◌≡◌, refl, subst, Bool, true, Option, none, some, List, ◌⊎◌, inl, inr, arith, Option-cases,
}
use durable_streams_referenc.Prelude.Text.{Text}
use durable_streams_referenc.Config.{
  Config, default_config, SettingsFile, Checked, ◌>>=◌, valid_acid_shard_count,
}
use durable_streams_referenc.Config.Load.{
  Env, override_text, override_parsed, override_shards, shards_of, override_storage_and_tls,
  apply_env_overrides, set_some, set_mode, set_shards, server_settings, tls_and_log,
  apply_file_settings, ConfigLoadOptions, merged_files, read_settings, from_sources_with_lookup,
}

-- A result that has passed, if there is one, has a valid number of shards.
abbrev HasShards : Checked Config → Type 0
HasShards (inl e) = Unit {0}
HasShards (inr c) = valid_acid_shard_count c.acid_shard_count ≡ true

then-HasShards :
    (m : Checked Config) (f : Config → Checked Config)
    → HasShards m
    → ((c : Config) → valid_acid_shard_count c.acid_shard_count ≡ true → HasShards (f c))
    → HasShards (m >>= f)
then-HasShards (inl e) f h k = tt
then-HasShards (inr c) f h k = k c h

any-HasShards :
    {A : Type 0} (m : Checked A) (f : A → Checked Config)
    → ((a : A) → HasShards (f a))
    → HasShards (m >>= f)
any-HasShards (inl e) f k = tt
any-HasShards (inr a) f k = k a

module _ (get : Env) where
  override_text-HasShards :
      (key : Text) (set : Text → Config → Config) (c : Config)
      → valid_acid_shard_count c.acid_shard_count ≡ true
      → ((v : Text) → valid_acid_shard_count (set v c).acid_shard_count ≡ true)
      → HasShards (override_text get key set c)
  unfolding override_text
  override_text-HasShards key set c h kept = elim (Option-cases (get key)) [
    | inl absent ↦ rw (HasShards, absent) h
    | inr (value, found) ↦ rw (HasShards, found) (kept value)
  ]

  override_parsed-HasShards :
      {A : Type 0} (key : Text) (parse : Text → Option A) (set : A → Config → Config) (c : Config)
      → valid_acid_shard_count c.acid_shard_count ≡ true
      → ((v : A) → valid_acid_shard_count (set v c).acid_shard_count ≡ true)
      → HasShards (override_parsed get key parse set c)
  unfolding override_parsed
  override_parsed-HasShards key parse set c h kept = elim (Option-cases (get key)) [
    | inl absent ↦ rw (HasShards, absent) h
    | inr (value, found) ↦ elim (Option-cases (parse value)) [
      | inl invalid ↦ rw (HasShards, found, invalid) tt
      | inr (parsed, valid) ↦ rw (HasShards, found, valid) (kept parsed)
    ]
  ]

  override_shards-HasShards :
      (c : Config)
      → valid_acid_shard_count c.acid_shard_count ≡ true
      → HasShards (override_shards get c)
  unfolding override_shards shards_of
  override_shards-HasShards c h = ground arith

  -- The variables behind `DS_STORAGE__MODE`.
  storage_and_tls-HasShards :
      (c : Config)
      → valid_acid_shard_count c.acid_shard_count ≡ true
      → HasShards (override_storage_and_tls get c)
  unfolding override_storage_and_tls
  storage_and_tls-HasShards c h =
      then-HasShards _ _ (override_text-HasShards _ _ c h (λ _. h)) (λ c h.
        then-HasShards _ _ (override_shards-HasShards c h) (λ c h.
          then-HasShards _ _ (override_text-HasShards _ _ c h (λ _. h)) (λ c h.
            then-HasShards _ _ (override_text-HasShards _ _ c h (λ _. h))
              (λ c h. override_text-HasShards _ _ c h (λ _. h)))))

  apply_env_overrides-HasShards :
      (c : Config)
      → valid_acid_shard_count c.acid_shard_count ≡ true
      → HasShards (apply_env_overrides get c)
  unfolding apply_env_overrides
  apply_env_overrides-HasShards c h =
      then-HasShards _ _ (override_parsed-HasShards _ _ _ c h (λ _. h)) (λ c h.
        then-HasShards _ _ (override_parsed-HasShards _ _ _ c h (λ _. h)) (λ c h.
          then-HasShards _ _ (override_parsed-HasShards _ _ _ c h (λ _. h)) (λ c h.
            then-HasShards _ _ (override_parsed-HasShards _ _ _ c h (λ _. h)) (λ c h.
              then-HasShards _ _ (override_parsed-HasShards _ _ _ c h (λ _. h)) (λ c h.
                then-HasShards _ _ (override_text-HasShards _ _ c h (λ _. h)) (λ c h.
                  then-HasShards _ _ (override_parsed-HasShards _ _ _ c h (λ _. h))
                    (storage_and_tls-HasShards)))))))

set_some-valid :
    {A : Type 0} (o : Option A) (set : A → Config → Config) (c : Config)
    → valid_acid_shard_count c.acid_shard_count ≡ true
    → ((v : A) → valid_acid_shard_count (set v c).acid_shard_count ≡ true)
    → valid_acid_shard_count (set_some o set c).acid_shard_count ≡ true
set_some-valid none set c h kept = h
set_some-valid (some v) set c h kept = kept v

server_settings-valid :
    (s : SettingsFile)
    → valid_acid_shard_count (server_settings s default_config).acid_shard_count ≡ true
unfolding server_settings default_config valid_acid_shard_count
server_settings-valid s =
    let a = set_some-valid s.port _ default_config refl (λ _. refl) in
    let b = set_some-valid s.long_poll_timeout_secs _ _ a (λ _. a) in
    let c = set_some-valid s.sse_reconnect_interval_secs _ _ b (λ _. b) in
    let d = set_some-valid s.max_memory_bytes _ _ c (λ _. c) in
    let e = set_some-valid s.max_stream_bytes _ _ d (λ _. d) in
    set_some-valid s.cors_origins _ _ e (λ _. e)

set_mode-HasShards :
    (mode : Option Text) (c : Config)
    → valid_acid_shard_count c.acid_shard_count ≡ true
    → HasShards (set_mode mode c)
unfolding set_mode
set_mode-HasShards none c h = h
set_mode-HasShards (some mode) c h = ground arith

set_shards-HasShards :
    (count : Option ℕ) (c : Config)
    → valid_acid_shard_count c.acid_shard_count ≡ true
    → HasShards (set_shards count c)
unfolding set_shards
set_shards-HasShards none c h = h
set_shards-HasShards (some count) c h = ground arith

tls_and_log-valid :
    (s : SettingsFile) (c : Config)
    → valid_acid_shard_count c.acid_shard_count ≡ true
    → valid_acid_shard_count (tls_and_log s c).acid_shard_count ≡ true
unfolding tls_and_log
tls_and_log-valid s c h = set_some-valid s.rust_log _ _ h (λ _. h)

apply_file_settings-HasShards : (s : SettingsFile) → HasShards (apply_file_settings s)
unfolding apply_file_settings
apply_file_settings-HasShards s =
    then-HasShards _ _
      (set_mode-HasShards s.mode (server_settings s default_config) (server_settings-valid s))
      (λ c h.
        then-HasShards _ _
          (set_shards-HasShards s.acid_shard_count _ (set_some-valid s.data_dir _ c h (λ _. h)))
          (λ c h. tls_and_log-valid s c h))

valid_shards :
    (n : ℕ)
    → valid_acid_shard_count n ≡ true
    → (n ≡ 1)
      ⊎ ((n ≡ 2)
          ⊎ ((n ≡ 4) ⊎ ((n ≡ 8) ⊎ ((n ≡ 16) ⊎ ((n ≡ 32) ⊎ ((n ≡ 64) ⊎ ((n ≡ 128) ⊎ (n ≡ 256))))))))
unfolding valid_acid_shard_count
valid_shards n h = ground arith

from_sources-HasShards :
    (is_file : Text → Bool) (extract : List Text → Text ⊎ SettingsFile)
    (options : ConfigLoadOptions) (get : Env)
    → HasShards (from_sources_with_lookup is_file extract options get)
unfolding from_sources_with_lookup
from_sources-HasShards is_file extract options get =
    let settings_on : SettingsFile → Checked Config =
      λ settings. apply_file_settings settings >>= λ config. apply_env_overrides get config in
    any-HasShards (merged_files is_file options)
      (λ files. read_settings extract files >>= settings_on)
      (λ files. any-HasShards (read_settings extract files) settings_on (λ settings.
        then-HasShards _ _ (apply_file_settings-HasShards settings)
          (apply_env_overrides-HasShards get)))

-- Whatever the files and the environment hold, a configuration that is loaded has a number of shards
-- that is a power of two from 1 to 256.
pub from_sources_with_lookup-shards :
    (is_file : Text → Bool) (extract : List Text → Text ⊎ SettingsFile)
    (options : ConfigLoadOptions) (get : Env) (c : Config)
    → from_sources_with_lookup is_file extract options get ≡ inr c
    → let n = c.acid_shard_count in
      (n ≡ 1)
      ⊎ ((n ≡ 2)
          ⊎ ((n ≡ 4) ⊎ ((n ≡ 8) ⊎ ((n ≡ 16) ⊎ ((n ≡ 32) ⊎ ((n ≡ 64) ⊎ ((n ≡ 128) ⊎ (n ≡ 256))))))))
from_sources_with_lookup-shards is_file extract options get c loaded =
    valid_shards c.acid_shard_count
      (subst HasShards loaded (from_sources-HasShards is_file extract options get))
