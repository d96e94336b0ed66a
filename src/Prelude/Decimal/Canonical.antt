-- ===== src/Prelude/Decimal/Canonical.antt =====
-- The text of a number is the only one without a sign and without leading zeros that is read as
-- that number.
use Prim.Native.Nat.{ℕ, zero, suc, ◌+◌, ◌-◌, ◌*◌, ◌/◌, ◌%◌, ◌^◌, ◌≤◌, ◌<◌}
use mathlib.Core.Path.{◌≡◌, refl, sym, ◌∙◌}
use mathlib.Core.Logic.{◌≢◌, inl, inr}
use mathlib.Core.Bool.{Bool, true, false, ◌&&◌}
use mathlib.Core.List.{[], ◌∷◌, ◌++◌, append-nil}
use native.Mathlib.Nat.{pow-suc}
use native.Mathlib.Omega.{arith}
use durable_streams_referenc.Prelude.Tests.{ltb, ◌==◌, ==_iff, Bool-cases}
use durable_streams_referenc.Prelude.Lists.{length, All}
use durable_streams_referenc.Prelude.Text.{Text}
use durable_streams_referenc.Prelude.Word.{u64_mod}
use durable_streams_referenc.Prelude.Decimal.{
  number, is_digit, parse_digits, digits_before, to_string, parse_digits-digits_before,
}

abbrev pub starts_with : ℕ → Text → Bool
starts_with b [] = false
starts_with b (c ∷ s) = c == b

abbrev pub has_leading_zero : Text → Bool
has_leading_zero s = ltb 1 (length s) && starts_with b'0' s

module _ (c : ℕ) (s : Text) (v n : ℕ) (h : parse_digits (c ∷ s) v ≡ number n) where
  pub parse_digits-head : (b'0' ≤ c) × (c ≤ b'9') × (v * 10 + (c - b'0') < u64_mod)
  unfolding parse_digits
  parse_digits-head = ground arith

  pub parse_digits-tail : parse_digits s (v * 10 + (c - b'0')) ≡ number n
  unfolding parse_digits
  parse_digits-tail = ground arith

pub parse_digits-lt : (s : Text) (v n : ℕ) → v < u64_mod → parse_digits s v ≡ number n → n < u64_mod
unfolding parse_digits
parse_digits-lt [] v n k h = ground arith
parse_digits-lt (c ∷ s) v n k h =
    let (_, _, small) = parse_digits-head c s v n h in
    parse_digits-lt s (v * 10 + (c - b'0')) n small (parse_digits-tail c s v n h)

-- One digit more, in front of a number that is not zero.
digits_before-step :
    (fuel v d : ℕ) (rest : Text)
    → v ≢ 0
    → d < 10
    → digits_before (suc fuel) (v * 10 + d) rest ≡ digits_before fuel v ((b'0' + d) ∷ rest)
unfolding digits_before
digits_before-step fuel v d rest h k =
    let above : (v * 10 + d) / 10 ≡ v = omega arith in
    let low : (v * 10 + d) % 10 ≡ d = omega arith in rw (digits_before, above, low) (ground arith)

-- The digits that have been read come back out.
digits_before-parse_digits :
    (s : Text) (v n fuel : ℕ) (rest : Text)
    → v ≢ 0
    → parse_digits s v ≡ number n
    → digits_before (length s + suc fuel) n rest ≡ digits_before (suc fuel) v (s ++ rest)
unfolding parse_digits
digits_before-parse_digits [] v n fuel rest k h =
    let same : v ≡ n = ground arith in
    let enough : 0 + suc fuel ≡ suc fuel = omega arith in rw (same, enough)
digits_before-parse_digits (c ∷ s) v n fuel rest k h =
    let (low, high, _) = parse_digits-head c s v n h in
    let d = c - b'0' in
    let char : b'0' + d ≡ c = omega arith in
    let shift : suc (length s) + suc fuel ≡ length s + suc (suc fuel) = omega arith in
    rw shift (
      digits_before-parse_digits s (v * 10 + d) n (suc fuel) rest (λ e. omega arith)
        (parse_digits-tail c s v n h)
      ∙ digits_before-step (suc fuel) v d (s ++ rest) k (omega arith)
      ∙ rw char)

-- More fuel than digits changes nothing.
digits_before-fuel :
    (fuel more n : ℕ) (rest : Text)
    → n < 10 ^ fuel
    → 0 < fuel
    → digits_before (fuel + more) n rest ≡ digits_before fuel n rest
unfolding digits_before
digits_before-fuel zero more n rest h k = absurd (omega arith)
digits_before-fuel (suc fuel) more n rest h k =
    let shift : suc fuel + more ≡ suc (fuel + more) = omega arith in
    rw shift (elim (Bool-cases (n / 10 == 0)) [
      | inl small ↦ rw small
      | inr large ↦
          let some_above : n / 10 ≢ 0 = λ e. cc (large, (==_iff (n / 10) 0).1 e) in
          let bound : n < 10 ^ fuel * 10 = rw pow-suc at h in
          rw large (
            digits_before-fuel fuel more (n / 10) ((b'0' + n % 10) ∷ rest) (omega arith)
              (positive fuel n bound some_above))
    ])
  where
    positive : (fuel n : ℕ) → n < 10 ^ fuel * 10 → n / 10 ≢ 0 → 0 < fuel
    positive zero n h k = absurd (k (omega arith))
    positive (suc fuel) n h k = omega arith

to_string-parse_digits :
    (c : ℕ) (s : Text) (n : ℕ) → parse_digits (c ∷ s) 0 ≡ number n → c ≢ b'0' → to_string n ≡ c ∷ s
unfolding to_string
to_string-parse_digits c s n h nonzero =
    let (low, high, small) = parse_digits-head c s 0 n h in
    let d = c - b'0' in
    let start : 0 * 10 + d ≡ d = omega arith in
    let char : b'0' + d ≡ c = omega arith in
    let tail : parse_digits s d ≡ number n = rw start at (parse_digits-tail c s 0 n h) in
    let fits : n < u64_mod = parse_digits-lt s d n (omega arith) tail in
    let fuel : 20 + length s ≡ length s + suc 19 = omega arith in
    sym (digits_before-fuel 20 (length s) n [] (omega arith) (omega arith))
    ∙ rw fuel (digits_before-parse_digits s d n 19 [] (λ e. omega arith) tail)
    ∙ first_digit d (s ++ []) (omega arith)
    ∙ rw (char, append-nil)
  where
    first_digit : (d : ℕ) (rest : Text) → d < 10 → digits_before 20 d rest ≡ (b'0' + d) ∷ rest
    first_digit d rest h =
        let none_above : d / 10 ≡ 0 = omega arith in
        let whole : d % 10 ≡ d = omega arith in unfold digits_before in rw (none_above, whole)

single_zero : (c n : ℕ) → c ≡ b'0' → parse_digits (c ∷ []) 0 ≡ number n → to_string n ≡ c ∷ []
unfolding parse_digits to_string
single_zero c n e h = let zero_value : n ≡ 0 = ground arith in rw (zero_value, e)

-- A text without leading zeros that is read as a number digit by digit is the number's own text.
pub to_string-parse :
    (s : Text) (n : ℕ)
    → s ≢ []
    → has_leading_zero s ≡ false
    → parse_digits s 0 ≡ number n
    → (to_string n ≡ s) × (n < u64_mod)
to_string-parse [] n some_digit plain h = absurd (some_digit refl)
to_string-parse (c ∷ s) n some_digit plain h = (
  elim (Bool-cases (c == b'0')) [
    | inl zero_first ↦ zero_text c s n ((==_iff c b'0').0 zero_first) plain h
    | inr nonzero ↦ to_string-parse_digits c s n h (λ e. cc (nonzero, (==_iff c b'0').1 e))
  ],
  parse_digits-lt (c ∷ s) 0 n (omega arith) h,
)
  where
    zero_text :
        (c : ℕ) (s : Text) (n : ℕ)
        → c ≡ b'0'
        → has_leading_zero (c ∷ s) ≡ false
        → parse_digits (c ∷ s) 0 ≡ number n
        → to_string n ≡ c ∷ s
    zero_text c [] n e k h = single_zero c n e h
    zero_text c (d ∷ s) n e k h = ground arith

-- The texts of numbers: digits only, not empty, and with no zero in front of another digit.
pub record IsNumeral (s : Text) : Type 0 where
  pub some_digit : s ≢ []
  pub digits : All (λ c. is_digit c ≡ true) s
  pub plain : has_leading_zero s ≡ false

digits_before-digits :
    (fuel n : ℕ) (rest : Text)
    → All (λ c. is_digit c ≡ true) rest
    → All (λ c. is_digit c ≡ true) (digits_before fuel n rest)
unfolding digits_before
digits_before-digits zero n rest h = h
digits_before-digits (suc fuel) n rest h =
    let here : is_digit (b'0' + n % 10) ≡ true = ground arith in
    elim (Bool-cases (n / 10 == 0)) [
      | inl small ↦ rw small (here, h)
      | inr large ↦ rw large (digits_before-digits fuel (n / 10) ((b'0' + n % 10) ∷ rest) (here, h))
    ]

digits_before-first :
    (fuel n : ℕ) (rest : Text)
    → n < 10 ^ fuel
    → 0 < fuel
    → n ≢ 0
    → (digits_before fuel n rest ≢ []) × (starts_with b'0' (digits_before fuel n rest) ≡ false)
unfolding digits_before
digits_before-first zero n rest h k l = absurd (omega arith)
digits_before-first (suc fuel) n rest h k l = elim (Bool-cases (n / 10 == 0)) [
  | inl small ↦
      let none_above : n / 10 ≡ 0 = (==_iff _ 0).0 small in rw small (λ e. cc, ground arith)
  | inr large ↦
      let some_above : n / 10 ≢ 0 = λ e. cc (large, (==_iff (n / 10) 0).1 e) in
      let bound : n < 10 ^ fuel * 10 = rw pow-suc at h in
      rw large (
        digits_before-first fuel (n / 10) ((b'0' + n % 10) ∷ rest) (omega arith)
          (positive fuel n bound some_above) some_above)
]
  where
    positive : (fuel n : ℕ) → n < 10 ^ fuel * 10 → n / 10 ≢ 0 → 0 < fuel
    positive zero n h k = absurd (k (omega arith))
    positive (suc fuel) n h k = omega arith

pub to_string-IsNumeral : (n : ℕ) → n < u64_mod → IsNumeral (to_string n)
unfolding to_string
to_string-IsNumeral n h = elim (Bool-cases (n == 0)) [
  | inl none_at_all ↦
      let z : n ≡ 0 = (==_iff n 0).0 none_at_all in
      rw z (record { some_digit = λ e. cc; digits = (refl, tt); plain = refl })
  | inr some_value ↦
      let nonzero : n ≢ 0 = λ e. cc (some_value, (==_iff n 0).1 e) in
      let (some_digit, first) = digits_before-first 20 n [] (omega arith) (omega arith) nonzero in
      record {
        some_digit = some_digit;
        digits = digits_before-digits 20 n [] tt;
        plain = ground (arith, first);
      }
]

-- Digit by digit, the text of a number is read as that number.
pub parse_digits-to_string : (n : ℕ) → n < u64_mod → parse_digits (to_string n) 0 ≡ number n
unfolding to_string
parse_digits-to_string n h =
    parse_digits-digits_before 20 n [] (omega arith) (omega arith) h ∙ unfold parse_digits in refl
