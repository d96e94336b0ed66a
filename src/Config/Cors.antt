-- ===== src/Config/Cors.antt =====
-- src/config.rs and src/router.rs: the origins of `http.cors_origins`, their validation and the layer
-- that is built of them. `is_header_value` is the test of `HeaderValue::from_str`.
use durable_streams_referenc.Prelude.{
  ◌≡◌, refl, Bool, true, false, ◌&&◌, not, Option, none, some, ◌||◌, List, [], ◌∷◌, ◌++◌, map,
  arith, ◌==◌, inl, inr, if◌then◌else◌, is_empty, is_some,
}
use durable_streams_referenc.Prelude.Text.{Text, codes, text_eq}
use durable_streams_referenc.Headers.{trim}
use durable_streams_referenc.Config.{Config, Checked, ◌>>◌}

-- `origins.split(',')`
unfoldable pub split_commas : Text → List Text
split_commas [] = [] ∷ []
split_commas (c ∷ s) = elim (split_commas s) [
  | [] ↦ [] ∷ []
  | part ∷ parts ↦ if c == b',' then [] ∷ part ∷ parts else (c ∷ part) ∷ parts
]

-- `origins.split(',').map(str::trim)`
abbrev pub entries_of : Text → List Text
entries_of origins = map trim (split_commas origins)

abbrev pub any_text : Text
unfolding codes
any_text = codes "*"

-- The loop over the entries, and the test behind it.
unfoldable pub check_entries :
    (is_header_value : Text → Bool) → Bool → List Text → Checked (Unit {0})
unfolding codes
check_entries is_header_value parsed_any [] =
    if not parsed_any
    then inl (codes "http.cors_origins must be '*' or a non-empty comma-separated list")
    else inr tt
check_entries is_header_value parsed_any (origin ∷ origins) =
    let rest = check_entries is_header_value true origins in
    if is_empty origin
    then inl (codes "http.cors_origins contains an empty origin entry")
    else if is_header_value origin
    then rest
    else inl (codes "invalid http.cors_origins entry: '" ++ (origin ++ codes "'"))

unfoldable pub validate_cors_origins : (is_header_value : Text → Bool) → Text → Checked (Unit {0})
validate_cors_origins is_header_value origins =
    if text_eq origins any_text
    then inr tt
    else check_entries is_header_value false (entries_of origins)

check_tls : Option Text → Option Text → Checked (Unit {0})
unfolding codes
check_tls (some _) (some _) = inr tt
check_tls none none = inr tt
check_tls (some _) none =
    inl (codes "tls.cert_path is set but tls.key_path is missing; both must be set together")
check_tls none (some _) =
    inl (codes "tls.key_path is set but tls.cert_path is missing; both must be set together")

-- `Config::validate`
unfoldable pub validate : (is_header_value : Text → Bool) → Config → Checked (Unit {0})
unfolding check_tls
validate is_header_value config = do
  check_tls config.tls_cert_path config.tls_key_path
  validate_cors_origins is_header_value config.cors_origins

unfoldable pub tls_enabled : Config → Bool
tls_enabled config = is_some config.tls_cert_path && is_some config.tls_key_path

-- `AllowOrigin::any()` or `AllowOrigin::list(values)`
pub data AllowOrigin : Type 0 where
  any_origin : AllowOrigin
  listed : List Text → AllowOrigin

-- `.filter_map(|s| s.trim().parse().ok())`
unfoldable pub header_values : (Text → Bool) → List Text → List Text
header_values is_header_value [] = []
header_values is_header_value (origin ∷ origins) =
    let rest = header_values is_header_value origins in
    if is_header_value origin then origin ∷ rest else rest

unfoldable pub has_wildcard : List Text → Bool
has_wildcard [] = false
has_wildcard (origin ∷ origins) = text_eq origin any_text || has_wildcard origins

-- `AllowOrigin::list(values)`, which panics on a list with `*`: `none`.
unfoldable pub list_origins : List Text → Option AllowOrigin
unfolding has_wildcard
list_origins values = if has_wildcard values then none else some (listed values)

-- The origins that `cors_layer` allows; `none` is a panic.
unfoldable pub allow_origin : (is_header_value : Text → Bool) → Text → Option AllowOrigin
unfolding list_origins
allow_origin is_header_value origins =
    if text_eq origins any_text
    then some any_origin
    else list_origins (header_values is_header_value (entries_of origins))

header_values-checked :
    (is_header_value : Text → Bool) (parsed_any : Bool) (origins : List Text)
    → check_entries is_header_value parsed_any origins ≡ inr tt
    → header_values is_header_value origins ≡ origins
unfolding check_entries header_values
header_values-checked is_header_value parsed_any [] h = refl
header_values-checked is_header_value parsed_any (origin ∷ origins) h =
    ground (arith, header_values-checked is_header_value true origins)

-- A configuration that has been validated is served with the origins that it names: all of them if
-- it says `*`, and else exactly the entries of its list, of which none is dropped, unless `*` is one of
-- them, when building the layer panics; and its TLS certificate and key are both set or both missing.
pub validate-allow_origin :
    (is_header_value : Text → Bool) (config : Config)
    → validate is_header_value config ≡ inr tt
    → (allow_origin is_header_value config.cors_origins ≡ (
        if text_eq config.cors_origins any_text
        then some any_origin
        else if has_wildcard (entries_of config.cors_origins)
        then none
        else some (listed (entries_of config.cors_origins))))
      × (is_some config.tls_cert_path ≡ is_some config.tls_key_path)
unfolding validate validate_cors_origins allow_origin list_origins
validate-allow_origin is_header_value config h =
    ground (arith, header_values-checked is_header_value false (entries_of config.cors_origins))
