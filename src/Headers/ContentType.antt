-- ===== src/Headers/ContentType.antt =====
-- The normal form of a content type, `normalize_content_type` in src/protocol/headers.rs.
use durable_streams_referenc.Prelude.{ℕ, ◌≡◌, refl, false, [], ◌∷◌, map, arith, ◌==◌}
use durable_streams_referenc.Prelude.Text.{Text, to_ascii_lowercase}
use durable_streams_referenc.Headers.{
  is_whitespace, trim_start, trim_end, trim_end_cons, trim, contains, before_semicolon,
  normalize_content_type,
}

abbrev pub lower : Text → Text
lower = map to_ascii_lowercase

lower-char :
    (c : ℕ)
    → (is_whitespace (to_ascii_lowercase c) ≡ is_whitespace c)
      × ((to_ascii_lowercase c == b';') ≡ (c == b';'))
      × (to_ascii_lowercase (to_ascii_lowercase c) ≡ to_ascii_lowercase c)
unfolding to_ascii_lowercase
lower-char c = ground arith

lower-lower : (s : Text) → lower (lower s) ≡ lower s
lower-lower [] = refl
lower-lower (c ∷ s) = cc ((lower-char c).2, lower-lower s)

before_semicolon-lower : (s : Text) → before_semicolon (lower s) ≡ lower (before_semicolon s)
unfolding before_semicolon
before_semicolon-lower [] = refl
before_semicolon-lower (c ∷ s) = rw ((lower-char c).1) (ground (arith, before_semicolon-lower s))

trim_start-lower : (s : Text) → trim_start (lower s) ≡ lower (trim_start s)
unfolding trim_start
trim_start-lower [] = refl
trim_start-lower (c ∷ s) = rw ((lower-char c).0) (ground (arith, trim_start-lower s))

trim_end_cons-lower :
    (c : ℕ) (s : Text) → trim_end_cons (to_ascii_lowercase c) (lower s) ≡ lower (trim_end_cons c s)
unfolding trim_end_cons
trim_end_cons-lower c [] = rw ((lower-char c).0) (ground arith)
trim_end_cons-lower c (d ∷ s) = refl

trim_end-lower : (s : Text) → trim_end (lower s) ≡ lower (trim_end s)
unfolding trim_end
trim_end-lower [] = refl
trim_end-lower (c ∷ s) = rw (trim_end-lower s) (trim_end_cons-lower c (trim_end s))

trim-lower : (s : Text) → trim (lower s) ≡ lower (trim s)
unfolding trim
trim-lower s = rw (trim_start-lower s) (trim_end-lower (trim_start s))

trim_end-trim_end_cons :
    (c : ℕ) (s : Text) → trim_end s ≡ s → trim_end (trim_end_cons c s) ≡ trim_end_cons c s
unfolding trim_end trim_end_cons
trim_end-trim_end_cons c [] h = ground arith
trim_end-trim_end_cons c (d ∷ s) h = rw h

trim_end-trim_end : (s : Text) → trim_end (trim_end s) ≡ trim_end s
unfolding trim_end
trim_end-trim_end [] = refl
trim_end-trim_end (c ∷ s) = trim_end-trim_end_cons c (trim_end s) (trim_end-trim_end s)

-- No white space in front.
abbrev StartsPlain : Text → Type 0
StartsPlain [] = Unit {0}
StartsPlain (c ∷ s) = is_whitespace c ≡ false

trim_start-StartsPlain : (s : Text) → StartsPlain (trim_start s)
unfolding trim_start
trim_start-StartsPlain [] = tt
trim_start-StartsPlain (c ∷ s) = ground (arith, trim_start-StartsPlain s)

trim_start_plain : (s : Text) → StartsPlain s → trim_start s ≡ s
unfolding trim_start
trim_start_plain [] h = refl
trim_start_plain (c ∷ s) h = rw h

trim_end_cons-StartsPlain :
    (c : ℕ) (s : Text) → is_whitespace c ≡ false → StartsPlain (trim_end_cons c s)
unfolding trim_end_cons
trim_end_cons-StartsPlain c [] h = rw h h
trim_end_cons-StartsPlain c (d ∷ s) h = h

trim_end-StartsPlain : (s : Text) → StartsPlain s → StartsPlain (trim_end s)
unfolding trim_end
trim_end-StartsPlain [] h = tt
trim_end-StartsPlain (c ∷ s) h = trim_end_cons-StartsPlain c (trim_end s) h

trim-trim : (s : Text) → trim (trim s) ≡ trim s
unfolding trim
trim-trim s =
    rw
      (trim_start_plain (trim_end (trim_start s))
        (trim_end-StartsPlain (trim_start s) (trim_start-StartsPlain s)))
      (trim_end-trim_end (trim_start s))

contains-trim_start : (b : ℕ) (s : Text) → contains b s ≡ false → contains b (trim_start s) ≡ false
unfolding contains trim_start
contains-trim_start b [] h = refl
contains-trim_start b (c ∷ s) h = ground (arith, contains-trim_start b s)

contains-trim_end_cons :
    (b c : ℕ) (s : Text)
    → (c == b) ≡ false
    → contains b s ≡ false
    → contains b (trim_end_cons c s) ≡ false
unfolding contains trim_end_cons
contains-trim_end_cons b c [] h k = ground arith
contains-trim_end_cons b c (d ∷ s) h k = ground arith

contains-trim_end : (b : ℕ) (s : Text) → contains b s ≡ false → contains b (trim_end s) ≡ false
unfolding contains trim_end
contains-trim_end b [] h = refl
contains-trim_end b (c ∷ s) h =
    contains-trim_end_cons b c (trim_end s) (ground arith) (contains-trim_end b s (ground arith))

before_semicolon-contains : (s : Text) → contains b';' (before_semicolon s) ≡ false
unfolding contains before_semicolon
before_semicolon-contains [] = refl
before_semicolon-contains (c ∷ s) = ground (arith, before_semicolon-contains s)

before_semicolon_plain : (s : Text) → contains b';' s ≡ false → before_semicolon s ≡ s
unfolding contains before_semicolon
before_semicolon_plain [] h = refl
before_semicolon_plain (c ∷ s) h = ground (arith, before_semicolon_plain s)

trimmed-contains : (s : Text) → contains b';' (trim (before_semicolon s)) ≡ false
unfolding trim
trimmed-contains s =
    contains-trim_end b';' (trim_start (before_semicolon s))
      (contains-trim_start b';' (before_semicolon s) (before_semicolon-contains s))

-- A normalised content type is its own normal form, and writing a content type in another case
-- does not change its normal form.
pub normalize_content_type-idempotent :
    (s : Text)
    → (normalize_content_type (normalize_content_type s) ≡ normalize_content_type s)
      × (normalize_content_type (lower s) ≡ normalize_content_type s)
unfolding normalize_content_type
normalize_content_type-idempotent s =
    let t = trim (before_semicolon s) in
    let no_semicolon = trimmed-contains s in
    (
      rw
          (
            before_semicolon-lower t,
            before_semicolon_plain t no_semicolon,
            trim-lower t,
            trim-trim (before_semicolon s),
          )
          (lower-lower t),
      rw (before_semicolon-lower s, trim-lower (before_semicolon s)) (lower-lower t),
    )
