-- ===== src/Handlers/Put/Laws.antt =====
-- src/handlers/put.rs: the requests on which the handler panics, and what it leaves behind then.
use durable_streams_referenc.Prelude.{
  ℕ, ◌+◌, ◌*◌, ◌^◌, ◌-◌, ◌<◌, ◌≡◌, ◌↔◌, ◌⊎◌, inl, inr, refl, ap, Bool, true, false, Option, none,
  some, List, arith, ltb, min, Bool-cases, subst,
}
use durable_streams_referenc.Prelude.Text.{Bytes, Text}
use durable_streams_referenc.Error.{Result, ok, err}
use durable_streams_referenc.Producer.{Headers}
use durable_streams_referenc.Storage.{
  DateTime, StreamConfig, Readings, CreateWithDataResult, new_config, with_ttl, with_expires_at,
  with_created_closed,
}
use durable_streams_referenc.Storage.Backend.{Backend}
use durable_streams_referenc.Http.{RequestBody}
use durable_streams_referenc.Handlers.Put.{
  Outside, CreateRequest, panicked, read_request, build_config, ttl_expiry, ttl_seconds_of,
  initial_messages, build_location_url, create_stream, create_requested, create_configured,
  create_with, create_response, expiry_config, ttl_config, closed_if, close_config,
}

-- The seconds of a time to live that are counted: at most `i64::MAX`.
abbrev pub seconds_of : ℕ → ℕ
seconds_of ttl = min ttl (2 ^ 63 - 1)

-- The time at which the stream that is asked for expires, in nanoseconds.
abbrev pub expiry_of : Option ℕ → Option DateTime → DateTime → Option DateTime
expiry_of none expires now = expires
expiry_of (some ttl) expires now = some (now + seconds_of ttl * 1_000_000_000)

-- A time to live that is more seconds than a duration can have, or that leads behind the last time.
abbrev pub TooLong : Outside → DateTime → Option ℕ → Type 0
TooLong outside now ttl =
    (n : ℕ) × (ttl ≡ some n)
    × ((outside.max_seconds < seconds_of n)
        ⊎ (outside.max_time < now + seconds_of n * 1_000_000_000))

-- The configuration that a request asks for.
abbrev pub config_for : CreateRequest → DateTime → StreamConfig
config_for q now = record {
  content_type = q.normalized_ct;
  ttl_seconds = q.ttl_seconds;
  expires_at = expiry_of q.ttl_seconds q.expires_at now;
  created_closed = q.created_closed;
}

-- A time to live of at most `i64::MAX` seconds is counted as it is, and a longer one as that.
ttl_seconds_of-min : (ttl : ℕ) → ttl_seconds_of ttl ≡ seconds_of ttl
unfolding ttl_seconds_of
ttl_seconds_of-min ttl = ground arith

ttl_expiry-cases :
    (outside : Outside) (now : DateTime) (n : ℕ)
    → (TooLong outside now (some n) × (ttl_expiry outside n now ≡ none))
      ⊎ ((¬ TooLong outside now (some n))
          × (ttl_expiry outside n now ≡ expiry_of (some n) none now))
unfolding ttl_expiry
ttl_expiry-cases outside now n =
    let capped = ttl_seconds_of-min n in
    elim (Bool-cases (ltb outside.max_seconds (seconds_of n))) [
      | inl over ↦ inl ((n, refl, inl (ground (arith, over))), rw (capped, over) refl)
      | inr under ↦ elim (Bool-cases (ltb outside.max_time (now + seconds_of n * 1_000_000_000))) [
        | inl late ↦ inl ((n, refl, inr (ground (arith, late))), rw (capped, under, late) refl)
        | inr soon ↦ inr (
          λ (m, same, long). ground (arith, under, soon, same, long),
          rw (capped, under, soon) refl,
        )
      ]
    ]

abbrev configured : Outside → DateTime → CreateRequest → Option StreamConfig
configured outside now q =
    build_config outside q.normalized_ct q.ttl_seconds q.expires_at q.created_closed now

closed_if-some :
    (closed : Bool) (config : StreamConfig)
    → config.created_closed ≡ false
    → closed_if closed (some config) ≡ some (record config { created_closed = closed })
unfolding closed_if close_config with_created_closed
closed_if-some true config h = refl
closed_if-some false config h = ap some (rw (← h) refl)

-- The configuration of a request is the one that it asks for, or there is none and the time to live
-- is too long.
pub build_config-cases :
    (outside : Outside) (now : DateTime) (ct : Text) (ttl : Option ℕ) (expires : Option DateTime)
    (closed : Bool)
    → (TooLong outside now ttl × (build_config outside ct ttl expires closed now ≡ none))
      ⊎ ((¬ TooLong outside now ttl)
          × (build_config outside ct ttl expires closed now
              ≡ some (record {
                content_type = ct;
                ttl_seconds = ttl;
                expires_at = expiry_of ttl expires now;
                created_closed = closed;
              })))
unfolding build_config expiry_config ttl_config closed_if new_config with_ttl with_expires_at
build_config-cases outside now ct none none closed =
    inr (λ (n, none_set, long). cc none_set, closed_if-some closed _ refl)
build_config-cases outside now ct none (some e) closed =
    inr (λ (n, none_set, long). cc none_set, closed_if-some closed _ refl)
build_config-cases outside now ct (some n) expires closed = elim (ttl_expiry-cases outside now n) [
  | inl (long, no_time) ↦ inl (long, rw no_time refl)
  | inr (short, time) ↦ inr (short, rw time (closed_if-some closed _ refl))
]

module _ (b : Backend) (outside : Outside) (headers : Headers) (name : Text) (body : RequestBody)
    (now : DateTime) (at : Readings) (s : b.State) where
  -- The two ways in which a request can make the handler panic, with the state that it leaves: before
  -- the storage is called, or behind a call that has succeeded.
  pub data Panics : b.State → Type 0 where
    long_ttl :
        (q : CreateRequest)
        → read_request outside headers body ≡ ok q
        → TooLong outside now q.ttl_seconds
        → Panics s
    bad_location :
        {s' : b.State} (q : CreateRequest) (messages : List Bytes) (r : CreateWithDataResult)
        → read_request outside headers body ≡ ok q
        → (¬ TooLong outside now q.ttl_seconds)
        → initial_messages outside.serde q.body_bytes q.normalized_ct ≡ ok messages
        → b.create_stream_with_data name (config_for q now) messages q.created_closed at s
          ≡ (ok r, s')
        → outside.is_header_value (build_location_url headers name) ≡ false
        → Panics s'

  create_response-panics :
      (ct : Text) (r : Result CreateWithDataResult)
      → create_response outside headers name ct r ≡ panicked
      → (v : CreateWithDataResult) × (r ≡ ok v)
        × (outside.is_header_value (build_location_url headers name) ≡ false)
  unfolding create_response
  create_response-panics ct (err e) p = cc
  create_response-panics ct (ok v) p = (v, refl, ground arith)

  create_with-Panics :
      (q : CreateRequest) (s' : b.State) (parsed : Result (List Bytes))
      → read_request outside headers body ≡ ok q
      → (¬ TooLong outside now q.ttl_seconds)
      → initial_messages outside.serde q.body_bytes q.normalized_ct ≡ parsed
      → create_with b outside headers name at q (config_for q now) parsed s ≡ (panicked, s')
      → Panics s'
  unfolding create_with
  create_with-Panics q s' (err e) read short initial p = absurd (let r = ap (λ t. t.0) p in cc r)
  create_with-Panics q s' (ok messages) read short initial p =
      let call = b.create_stream_with_data name (config_for q now) messages q.created_closed at s in
      let (v, stored, bad) = create_response-panics q.normalized_ct call.0 (ap (λ t. t.0) p) in
      bad_location q messages v read short initial (cc (stored, ap (λ t. t.1) p)) bad

  requested-Panics :
      (asked : Result CreateRequest) (s' : b.State)
      → read_request outside headers body ≡ asked
      → create_requested b outside headers name now at asked s ≡ (panicked, s')
      → Panics s'
  unfolding create_requested create_configured
  requested-Panics (err e) s' read p = absurd (let r = ap (λ t. t.0) p in cc r)
  requested-Panics (ok q) s' read p =
      elim (build_config-cases outside now q.normalized_ct q.ttl_seconds q.expires_at
        q.created_closed) [
          | inl (long, no_config) ↦
              subst Panics (ap (λ t. t.1) (rw no_config at p)) (long_ttl q read long)
          | inr (short, config) ↦ create_with-Panics q s' _ read short refl (rw config at p)
        ]

  Panics-run :
      (s' : b.State)
      → Panics s'
      → create_stream b outside headers name body now at s ≡ (panicked, s')
  unfolding create_stream create_requested create_configured create_with create_response
  Panics-run _ (long_ttl q read long) =
      elim (build_config-cases outside now q.normalized_ct q.ttl_seconds q.expires_at
        q.created_closed) [
          | inl (_, no_config) ↦ rw (read, no_config) refl
          | inr (short, _) ↦ absurd (short long)
        ]
  Panics-run s' (bad_location q messages r read short initial stored bad) =
      elim (build_config-cases outside now q.normalized_ct q.ttl_seconds q.expires_at
        q.created_closed) [
          | inl (long, _) ↦ absurd (short long)
          | inr (_, config) ↦ rw (read, config, initial, stored, bad) refl
        ]

  -- A PUT request makes the handler panic in two cases and in no others. Either it is well formed and
  -- its `Stream-TTL`, up to `i64::MAX` seconds of it, is more than a duration can have or leads behind
  -- the last time; then the storage is as it was. Or its time to live is not too long, its body is one
  -- that the stream can take, and the storage's call with the configuration that the request asks for
  -- has succeeded, but the location is not the value of a header; then what that call stored stays.
  pub create_stream-Panics_iff :
      (s' : b.State)
      → (create_stream b outside headers name body now at s ≡ (panicked, s')) ↔ Panics s'
  unfolding create_stream
  create_stream-Panics_iff s' = (requested-Panics _ s' refl, Panics-run s')
