-- ===== src/Headers/Parse.antt =====
-- What the parsers of header values accept, src/protocol/headers.rs.
use durable_streams_referenc.Prelude.{
  ℕ, ◌<◌, ◌≡◌, ◌≢◌, refl, sym, ap, ◌∙◌, ◌↔◌, true, false, [], ◌∷◌, arith, All,
}
use durable_streams_referenc.Prelude.Text.{Text}
use durable_streams_referenc.Prelude.Word.{u64_mod}
use durable_streams_referenc.Prelude.Decimal.{number, parse_digits, parse_u64, to_string, is_digit}
use durable_streams_referenc.Prelude.Decimal.Canonical.{
  has_leading_zero, starts_with, to_string-parse, IsNumeral, to_string-IsNumeral,
  parse_digits-to_string,
}
use durable_streams_referenc.Error.{ok}
use durable_streams_referenc.Headers.{trim, contains, parse_trimmed, parse_ttl}

plain_number :
    (s : Text) (n : ℕ)
    → starts_with b'+' s ≡ false
    → parse_u64 s ≡ number n
    → (s ≢ []) × (parse_digits s 0 ≡ number n)
unfolding parse_u64
plain_number [] n h k = cc
plain_number (c ∷ s) n h k = (λ e. cc, ground arith)

number_plain : (s : Text) → IsNumeral s → parse_u64 s ≡ parse_digits s 0
unfolding parse_u64
number_plain [] h = absurd (h.some_digit refl)
number_plain (c ∷ s) h = ground (arith, h.digits.0)

-- A text of digits holds no byte that is none.
digits-contains :
    (b : ℕ) (s : Text)
    → is_digit b ≡ false
    → All (λ c. is_digit c ≡ true) s
    → (contains b s ≡ false) × (starts_with b s ≡ false)
unfolding contains
digits-contains b [] h k = (refl, refl)
digits-contains b (c ∷ s) h k = ground (arith, digits-contains b s h k.1)

accepted_ttl :
    (s : Text) (n : ℕ)
    → parse_trimmed s ≡ ok n
    → (has_leading_zero s ≡ false) × (starts_with b'+' s ≡ false) × (parse_u64 s ≡ number n)
unfolding parse_trimmed
accepted_ttl s n h = ground arith

numeral_accepted :
    (s : Text) (n : ℕ) → IsNumeral s → parse_u64 s ≡ number n → parse_trimmed s ≡ ok n
unfolding parse_trimmed
numeral_accepted [] n h k = absurd (h.some_digit refl)
numeral_accepted (c ∷ s) n h k = rw (
  h.plain,
  (digits-contains b'.' (c ∷ s) refl h.digits).0,
  (digits-contains b'e' (c ∷ s) refl h.digits).0,
  (digits-contains b'E' (c ∷ s) refl h.digits).0,
  (digits-contains b'-' (c ∷ s) refl h.digits).1,
  (digits-contains b'+' (c ∷ s) refl h.digits).1,
  k,
)

-- A time to live is accepted exactly when the value, without the white space around it, is the
-- decimal text of a `u64`, which 0 is too: no sign, no leading zeros, no fraction and no exponent.
pub parse_ttl_iff :
    (value : Text) (n : ℕ) → (parse_ttl value ≡ ok n) ↔ ((trim value ≡ to_string n) × (n < u64_mod))
unfolding parse_ttl
parse_ttl_iff value n = (
  λ h.
      let (plain, no_sign, parsed) = accepted_ttl (trim value) n h in
      let (some_digit, digits) = plain_number (trim value) n no_sign parsed in
      let (text, fits) = to_string-parse (trim value) n some_digit plain digits in (sym text, fits),
  λ h.
      let own = to_string-IsNumeral n h.1 in
      ap parse_trimmed (h.0)
      ∙ numeral_accepted (to_string n) n own
          (number_plain (to_string n) own ∙ parse_digits-to_string n h.1),
)
